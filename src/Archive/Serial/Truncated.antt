-- ===== src/Archive/Serial/Truncated.antt =====
-- A message that was cut off is not taken for another one: a reader that meets the end of the archive
-- answers `false` or ends the process.
pub mod Types
use prpc.Base.{
  ℕ, zero, suc, ◌+◌, ◌*◌, ◌%◌, ◌<◌, ◌≡◌, refl, sym, ap, ◌∙◌, subst, Bool, true, false, Option, none,
  some, ◌⊎◌, inl, inr,
}
use prpc.Base.{
  List, [], ◌∷◌, ◌++◌, append_assoc, append-nil, arith, length, length-append, Bytes, take, drop,
  Eq, Bool-cases, ltb,
}
use prpc.Base.Outcome.{Outcome, ok, fault, ◌>>=◌}
use prpc.Base.Maps.{Map, find, Unique}
use prpc.Archive.{MemoryArchive, read_raw, read_raw_uncheck, is_exhausted, size_t_max}
use prpc.Archive.Memory.{Holds}
use prpc.Archive.Memory.Reading.{read_raw-fault}
use prpc.Archive.Serial.{
  Read, and_read, taken, Archivable, pico_deserialize, Pod, read_pod_uncheck, bytes_of,
}
use prpc.Archive.Serial.Laws.{Reads, Lawful}
use prpc.Archive.Serial.Pods.{length-bytes_of, IsPod}

module _ {A : Type 0} where
  abbrev pub is_refused : Read A → Bool
  is_refused (ok (some x, a)) = false
  is_refused (ok (none, a)) = true
  is_refused fault = true

-- `read` refuses every proper prefix of `bytes`.
pub record Rejects {A : Type 0} (bytes : Bytes) (read : MemoryArchive → Read A) : Type 0 where
  pub refuses :
      (a : MemoryArchive) (front body spare : Bytes) (c : ℕ) (rest : Bytes)
      → Holds a front body spare
      → body ++ (c ∷ rest) ≡ bytes
      → is_refused (read a) ≡ true

-- Where a prefix of two strings in a row ends.
prefix_cases :
    (xs q : Bytes) (c : ℕ) (rest ys : Bytes)
    → q ++ (c ∷ rest) ≡ xs ++ ys
    → ((d : ℕ) × (more : Bytes) × (q ++ (d ∷ more) ≡ xs))
      ⊎ ((r : Bytes) × (q ≡ xs ++ r) × (r ++ (c ∷ rest) ≡ ys))
prefix_cases [] q c rest ys e = inr (q, refl, e)
prefix_cases (x ∷ xs) [] c rest ys e = inl (x, xs, refl)
prefix_cases (x ∷ xs) (y ∷ q) c rest ys e =
    let tails : q ++ (c ∷ rest) ≡ xs ++ ys = cc e in
    let heads : y ≡ x = cc e in
    elim (prefix_cases xs q c rest ys tails) [
      | inl (d, more, k) ↦ inl (d, more, cc (heads, k))
      | inr (r, k, l) ↦ inr (r, cc (heads, k), l)
    ]

module _ {A B : Type 0} where
  and_read-refused :
      (m : Read A) (next : A → MemoryArchive → Read B)
      → is_refused m ≡ true
      → is_refused (and_read m next) ≡ true
  and_read-refused (ok (some x, a)) next h = cc h
  and_read-refused (ok (none, a)) next h = refl
  and_read-refused fault next h = refl

  pub and_read-Rejects :
      {x : A} {xs ys : Bytes} {read : MemoryArchive → Read A} (next : A → MemoryArchive → Read B)
      → Reads x xs read
      → Rejects xs read
      → Rejects ys (next x)
      → Rejects (xs ++ ys) (λ a. and_read (read a) next)
  and_read-Rejects {x} {xs} {ys} {read} next first cut second = record {
    refuses = λ a front body spare c rest h e. elim (prefix_cases xs body c rest ys e) [
      | inl (d, more, k) ↦
          and_read-refused (read a) next (cut.refuses a front body spare d more h k)
      | inr (r, k, l) ↦
          let start : Holds a front (xs ++ r) spare = subst (λ t. Holds a front t spare) k h in
          let (b, done, held) = first.takes a front r spare start in
          rw (done) (second.refuses b (front ++ xs) r spare c rest held l)
    ];
  }

pub map-Rejects :
    {A B : Type 0} {xs : Bytes} {read : MemoryArchive → Read A} (make : A → B)
    → Rejects xs read
    → Rejects xs (λ a. and_read (read a) λ x a. ok (some (make x), a))
map-Rejects {read} make cut = record {
  refuses = λ a front body spare c rest h e.
      and_read-refused (read a) _ (cut.refuses a front body spare c rest h e);
}

pub nothing-Rejects : {A : Type 0} (read : MemoryArchive → Read A) → Rejects [] read
nothing-Rejects read = record {
  refuses = λ a front body spare c rest h e.
      absurd (omega (arith, length-append body (c ∷ rest), ap length e));
}

-- Fewer bytes than were asked for.
raw_short :
    {A : Type 0} {a : MemoryArchive} {front body spare : Bytes} (n : ℕ) (make : Bytes → A)
    → Holds a front body spare
    → length body < n
    → is_refused (taken make (read_raw_uncheck n a)) ≡ true
unfolding read_raw_uncheck
raw_short {a} n make h short = elim (Bool-cases (is_exhausted a)) [
  | inl none_left ↦ rw (some_asked, none_left) refl
  | inr left ↦ rw (some_asked, left, read_raw-fault n h short) refl
]
  where
    some_asked : ltb 0 n ≡ true
    some_asked = ground (arith, short)

pub raw-Rejects :
    {A : Type 0} (p : Bytes) (make : Bytes → A)
    → Rejects p (λ a. taken make (read_raw_uncheck (length p) a))
raw-Rejects p make = record {
  refuses = λ a front body spare c rest h e.
      raw_short (length p) make h
        (subst (λ t. length body < length t) e (omega (arith, length-append body (c ∷ rest))));
}

shorter :
    {size : ℕ} (x : Pod size) (body : Bytes) (c : ℕ) (rest : Bytes)
    → body ++ (c ∷ rest) ≡ bytes_of size x.value
    → length body < size
shorter {size} x body c rest e =
    omega (arith, length-append body (c ∷ rest), ap length e, length-bytes_of size x.value)

pub pod-Rejects :
    (size : ℕ) (x : Pod size) → IsPod x → Rejects (bytes_of size x.value) (read_pod_uncheck size)
unfolding read_pod_uncheck
pod-Rejects size x good = record {
  refuses = λ a front body spare c rest h e. elim (Bool-cases (is_exhausted a)) [
    | inl none_left ↦ rw (none_left) refl
    | inr left ↦ rw (left, read_raw-fault size h (shorter x body c rest e)) refl
  ];
}
