-- ===== src/Archive/Serial/Truncated/Types.antt =====
-- Cut off values of every type.
use prpc.Base.{
  ℕ, suc, ◌*◌, ◌%◌, ◌≡◌, sym, subst, List, [], ◌∷◌, ◌++◌, append_assoc, arith, length, Eq,
}
use prpc.Base.Maps.{Map, Unique}
use prpc.Archive.{size_t_max}
use prpc.Archive.Serial.{
  Archivable, pico_deserialize, pod_archivable, pair_archivable, bytes_of, size_of, String,
  PodVector, Dictionary, Collection, deserialize_string, deserialize_pods, memory_of, elements_of,
  deserialize_all, deserialize_vector, deserialize_pair, insert_all, deserialize_map,
  insert_members, deserialize_set,
}
use prpc.Archive.Serial.Laws.{Lawful}
use prpc.Archive.Serial.Pods.{IsSize, pod-Reads, pod_lawful, string_lawful}
use prpc.Archive.Serial.RoundTrip.{
  encodings, AllEncodable, length-memory_of, pods_lawful, vector_lawful, pair_lawful,
}
use prpc.Archive.Serial.Containers.{
  Apart, Apart-behind, Apart-nothing, Distinct, Strange, Strange-behind, Strange-nothing,
  map_lawful, set_lawful,
}
use prpc.Archive.Serial.Truncated.{
  Rejects, and_read-Rejects, map-Rejects, nothing-Rejects, raw-Rejects, pod-Rejects,
}

-- The reader of a type refuses every proper prefix of what is written for a value.
pub record Guarded (A : Type 0) ⦃ar : Archivable A⦄ ⦃law : Lawful A⦄ : Type 0 where
  pub cut : (x : A) → law.Encodable x → Rejects {A = A} (law.encoding x) pico_deserialize

-- Whatever follows the number of elements.
size-Rejects :
    (n : ℕ) → IsSize n → Rejects (bytes_of 8 n) (pico_deserialize ⦃ar = pod_archivable {size = 8}⦄)
size-Rejects n h = pod-Rejects 8 (record { value = n }) (omega arith, h)

pub string-Rejects :
    (s : String)
    → IsSize (length s.bytes)
    → Rejects (bytes_of 8 (length s.bytes) ++ s.bytes) deserialize_string
unfolding deserialize_string
string-Rejects s h =
    and_read-Rejects _ (pod-Reads 8 (size_of s.bytes) (omega arith, h)) (size-Rejects _ h)
      (raw-Rejects s.bytes (λ p. record { bytes = p }))

pub pods-Rejects :
    {size : ℕ} (vect : PodVector size)
    → IsSize (length vect.elements)
    → IsSize (size * length vect.elements)
    → Rejects (bytes_of 8 (length vect.elements) ++ memory_of vect.elements) (deserialize_pods size)
unfolding deserialize_pods
pods-Rejects {size} vect h fits =
    and_read-Rejects _ (pod-Reads 8 (size_of vect.elements) (omega arith, h)) (size-Rejects _ h) (
      rw (whole) (
        raw-Rejects (memory_of vect.elements)
          (λ p. record { elements = elements_of size (length vect.elements) p })))
  where
    whole : size * length vect.elements % size_t_max ≡ length (memory_of vect.elements)
    whole = omega (arith, length-memory_of vect.elements, fits)

module _ {A : Type 0} ⦃ar : Archivable A⦄ ⦃law : Lawful A⦄ (guard : Guarded A) where
  all-Rejects :
      (xs : List A)
      → AllEncodable xs
      → Rejects {A = List A} (encodings xs) (deserialize_all (length xs))
  unfolding deserialize_all
  all-Rejects [] h = nothing-Rejects _
  all-Rejects (x ∷ xs) h =
      and_read-Rejects _ (law.deserialize-encoding x h.0) (guard.cut x h.0)
        (map-Rejects (x ∷◌) (all-Rejects xs h.1))

  pub vector-Rejects :
      (xs : List A)
      → IsSize (length xs)
      → AllEncodable xs
      → Rejects {A = List A} (bytes_of 8 (length xs) ++ encodings xs) deserialize_vector
  unfolding deserialize_vector
  vector-Rejects xs size h =
      and_read-Rejects _ (pod-Reads 8 (size_of xs) (omega arith, size)) (size-Rejects _ size)
        (all-Rejects xs h)

module _ {A B : Type 0} ⦃first : Archivable A⦄ ⦃second : Archivable B⦄ ⦃left : Lawful A⦄
    ⦃right : Lawful B⦄ (guard : Guarded A) (after : Guarded B) where
  pub pair-Rejects :
      (x : A) (y : B)
      → left.Encodable x
      → right.Encodable y
      → Rejects {A = A × B} (left.encoding x ++ right.encoding y) deserialize_pair
  unfolding deserialize_pair
  pair-Rejects x y h k =
      and_read-Rejects _ (left.deserialize-encoding x h) (guard.cut x h)
        (map-Rejects (λ y. (x, y)) (after.cut y k))

module _ {K V : Type 0} ⦃keys : Archivable K⦄ ⦃values : Archivable V⦄ ⦃left : Lawful K⦄
    ⦃right : Lawful V⦄ ⦃equal : Eq K⦄ (guard : Guarded K) (after : Guarded V) where
  insert_all-Rejects :
      (es m : Map K V)
      → AllEncodable es
      → Unique es
      → Apart m es
      → Rejects {A = Map K V} (encodings es) (insert_all (length es) m)
  unfolding insert_all
  insert_all-Rejects [] m h u apart = nothing-Rejects _
  insert_all-Rejects ((k, v) ∷ es) m h u apart =
      let rest : Rejects {A = Map K V} (encodings es)
          (insert_all (length es) (m ++ ((k, v) ∷ []))) =
        insert_all-Rejects es (m ++ ((k, v) ∷ [])) h.1 u.1 (Apart-behind k v m es apart.1 u.0) in
      subst (λ t. Rejects {A = Map K V} t (insert_all (suc (length es)) m))
        (sym (append_assoc (left.encoding k) (right.encoding v) (encodings es)))
        (and_read-Rejects _ (left.deserialize-encoding k h.0.0) (guard.cut k h.0.0) (
          and_read-Rejects _ (right.deserialize-encoding v h.0.1) (after.cut v h.0.1)
            (rw (apart.0) rest)))

  pub map-Rejects_lem :
      (m : Dictionary K V)
      → IsSize (length m.entries)
      → AllEncodable m.entries
      → Unique m.entries
      → Rejects {A = Dictionary K V}
          (bytes_of 8 (length m.entries) ++ encodings m.entries)
          deserialize_map
  unfolding deserialize_map
  map-Rejects_lem m size h u =
      and_read-Rejects _ (pod-Reads 8 (size_of m.entries) (omega arith, size)) (size-Rejects _ size)
        (map-Rejects (λ t. record { entries = t })
          (insert_all-Rejects m.entries [] h u (Apart-nothing m.entries)))

module _ {K : Type 0} ⦃keys : Archivable K⦄ ⦃law : Lawful K⦄ ⦃equal : Eq K⦄
    (guard : Guarded K) where
  insert_members-Rejects :
      (ks s : List K)
      → AllEncodable ks
      → Distinct ks
      → Strange s ks
      → Rejects {A = List K} (encodings ks) (insert_members (length ks) s)
  unfolding insert_members
  insert_members-Rejects [] s h d new = nothing-Rejects _
  insert_members-Rejects (k ∷ ks) s h d new =
      let rest : Rejects {A = List K} (encodings ks) (insert_members (length ks) (s ++ (k ∷ []))) =
        insert_members-Rejects ks (s ++ (k ∷ [])) h.1 d.1 (Strange-behind k s ks new.1 d.0) in
      and_read-Rejects _ (law.deserialize-encoding k h.0) (guard.cut k h.0) (rw (new.0) rest)

  pub set-Rejects :
      (s : Collection K)
      → IsSize (length s.members)
      → AllEncodable s.members
      → Distinct s.members
      → Rejects {A = Collection K}
          (bytes_of 8 (length s.members) ++ encodings s.members)
          deserialize_set
  unfolding deserialize_set
  set-Rejects s size h d =
      and_read-Rejects _ (pod-Reads 8 (size_of s.members) (omega arith, size)) (size-Rejects _ size)
        (map-Rejects (λ t. record { members = t })
          (insert_members-Rejects s.members [] h d (Strange-nothing s.members)))
