-- ===== src/Archive/Serial.antt =====
-- `pico_serialize` and `pico_deserialize` of src/rpc/Archive.h for the binary archive: what is written
-- for each type, one after the other in one buffer. `none` is the answer `false` of a reader, whose
-- half-filled result the callers drop.
pub mod Laws
pub mod Pods
pub mod RoundTrip
pub mod Containers
pub mod Truncated
pub mod Shapes
use prpc.Base.{ℕ, zero, suc, ◌+◌, ◌*◌, ◌/◌, ◌%◌, ◌≡◌, Bool, true, false, ◌&&◌, Option, none, some}
use prpc.Base.{List, [], ◌∷◌, ◌++◌, length, take, drop, Bytes, Eq, ◌==◌, ◌||◌, if◌then◌else◌}
use prpc.Base.Outcome.{Outcome, ok, fault, ◌>>=◌}
use prpc.Base.Maps.{Map, find}
use prpc.Archive.{
  Allocator, size_t_max, MemoryArchive, is_exhausted, read_raw, read_raw_uncheck, write_raw,
}

abbrev pub Written : Type 0
Written = Outcome (Bool × MemoryArchive)

abbrev pub Read : Type 0 → Type 0
Read A = Outcome (Option A × MemoryArchive)

-- `if (!m) return false;` and what follows
abbrev pub and_write : Written → (MemoryArchive → Written) → Written
and_write (ok (true, a)) next = next a
and_write (ok (false, a)) next = ok (false, a)
and_write fault next = fault

module _ {A B : Type 0} where
  abbrev pub and_read : Read A → (A → MemoryArchive → Read B) → Read B
  and_read (ok (some x, a)) next = next x a
  and_read (ok (none, a)) next = ok (none, a)
  and_read fault next = fault

-- The functions that are overloaded at `A`.
pub record Archivable (A : Type 0) : Type 0 where
  pub serialize : ⦃memory : Allocator⦄ → A → MemoryArchive → Written
  pub deserialize : MemoryArchive → Read A

abbrev pub pico_serialize :
    {A : Type 0} ⦃ar : Archivable A⦄ ⦃memory : Allocator⦄ → A → MemoryArchive → Written
pico_serialize ⦃ar⦄ = ar.serialize

abbrev pub pico_deserialize : {A : Type 0} ⦃ar : Archivable A⦄ → MemoryArchive → Read A
pico_deserialize ⦃ar⦄ = ar.deserialize

-- An arithmetic type of `size` bytes; `value` is the number its bytes are.
pub record Pod (size : ℕ) : Type 0 where
  pub value : ℕ

-- The bytes in memory, the lowest first.
unfoldable pub bytes_of : ℕ → ℕ → Bytes
bytes_of zero n = []
bytes_of (suc size) n = n % 256 ∷ bytes_of size (n / 256)

unfoldable pub value_of : Bytes → ℕ
value_of [] = 0
value_of (c ∷ s) = c + 256 * value_of s

module _ ⦃memory : Allocator⦄ where
  -- `write_raw_uncheck`
  unfoldable pub write_raw_uncheck : Bytes → MemoryArchive → Written
  write_raw_uncheck p a = do b ← write_raw p a; ok (true, b)

  abbrev pub write_pod_uncheck : {size : ℕ} → Pod size → MemoryArchive → Written
  write_pod_uncheck {size} x a = write_raw_uncheck (bytes_of size x.value) a

unfoldable pub read_pod_uncheck : (size : ℕ) → MemoryArchive → Read (Pod size)
read_pod_uncheck size a =
    if is_exhausted a
    then ok (none, a)
    else (do (p, b) ← read_raw size a; ok (some (record { value = value_of p }), b))

instance abbrev pub pod_archivable : {size : ℕ} → Archivable (Pod size)
pod_archivable {size} = record {
  serialize = write_pod_uncheck;
  deserialize = read_pod_uncheck size;
}

-- `size_t`
abbrev pub SizeT : Type 0
SizeT = Pod 8

abbrev pub size_of {ℓ} : {A : Type ℓ} → List A → SizeT
size_of xs = record { value = length xs }

-- What `read_raw_uncheck` puts into the result, where it answers `true`.
abbrev pub taken : {A : Type 0} → (Bytes → A) → Outcome (Bool × Bytes × MemoryArchive) → Read A
taken make (ok (true, p, a)) = ok (some (make p), a)
taken make (ok (false, p, a)) = ok (none, a)
taken make fault = fault

-- `std::string`
pub record String : Type 0 where
  pub bytes : Bytes

module _ ⦃memory : Allocator⦄ where
  unfoldable pub serialize_string : String → MemoryArchive → Written
  serialize_string str a =
      and_write (pico_serialize (size_of str.bytes) a) λ a. write_raw_uncheck str.bytes a

unfoldable pub deserialize_string : MemoryArchive → Read String
deserialize_string a =
    and_read (pico_deserialize a)
      λ (size : SizeT) a. taken (λ p. record { bytes = p }) (read_raw_uncheck size.value a)

instance abbrev pub string_archivable : Archivable String
string_archivable = record { serialize = serialize_string; deserialize = deserialize_string }

-- `std::vector` of a trivially copyable type: the memory of the elements as it stands.
pub record PodVector (size : ℕ) : Type 0 where
  pub elements : List (Pod size)

unfoldable pub memory_of : {size : ℕ} → List (Pod size) → Bytes
memory_of [] = []
memory_of {size} (x ∷ xs) = bytes_of size x.value ++ memory_of xs

unfoldable pub elements_of : (size : ℕ) → ℕ → Bytes → List (Pod size)
elements_of size zero p = []
elements_of size (suc n) p =
    record { value = value_of (take size p) } ∷ elements_of size n (drop size p)

module _ ⦃memory : Allocator⦄ where
  unfoldable pub serialize_pods : {size : ℕ} → PodVector size → MemoryArchive → Written
  serialize_pods {size} vect a =
      and_write (pico_serialize (size_of vect.elements) a)
        λ a. write_raw_uncheck (memory_of vect.elements) a

unfoldable pub deserialize_pods : (size : ℕ) → MemoryArchive → Read (PodVector size)
deserialize_pods size a = and_read (pico_deserialize a) λ (n : SizeT) a.
    taken (λ p. record { elements = elements_of size n.value p })
      (read_raw_uncheck (size * n.value % size_t_max) a)

instance abbrev pub pods_archivable : {size : ℕ} → Archivable (PodVector size)
pods_archivable {size} = record { serialize = serialize_pods; deserialize = deserialize_pods size }

module _ {A : Type 0} ⦃ar : Archivable A⦄ where
  module _ ⦃memory : Allocator⦄ where
    -- `for (const auto& val : vect)`
    unfoldable pub serialize_all : List A → MemoryArchive → Written
    serialize_all [] a = ok (true, a)
    serialize_all (x ∷ xs) a = and_write (pico_serialize x a) (serialize_all xs)

    -- `std::vector`, `std::deque` and `std::valarray`
    unfoldable pub serialize_vector : List A → MemoryArchive → Written
    serialize_vector vect a = and_write (pico_serialize (size_of vect) a) (serialize_all vect)

  unfoldable pub deserialize_all : ℕ → MemoryArchive → Read (List A)
  deserialize_all zero a = ok (some [], a)
  deserialize_all (suc n) a =
      and_read (pico_deserialize a)
        λ x a. and_read (deserialize_all n a) λ xs a. ok (some (x ∷ xs), a)

  unfoldable pub deserialize_vector : MemoryArchive → Read (List A)
  deserialize_vector a =
      and_read (pico_deserialize a) λ (size : SizeT) a. deserialize_all size.value a

instance abbrev pub vector_archivable : {A : Type 0} ⦃ar : Archivable A⦄ → Archivable (List A)
vector_archivable = record { serialize = serialize_vector; deserialize = deserialize_vector }

module _ {A B : Type 0} ⦃first : Archivable A⦄ ⦃second : Archivable B⦄ where
  module _ ⦃memory : Allocator⦄ where
    -- `std::pair`
    unfoldable pub serialize_pair : A × B → MemoryArchive → Written
    serialize_pair (x, y) a = and_write (pico_serialize x a) (pico_serialize y)

  unfoldable pub deserialize_pair : MemoryArchive → Read (A × B)
  deserialize_pair a =
      and_read (pico_deserialize a) λ x a. and_read (pico_deserialize a) λ y a. ok (some (x, y), a)

  instance abbrev pub pair_archivable : Archivable (A × B)
  pair_archivable = record { serialize = serialize_pair; deserialize = deserialize_pair }

-- `std::map` and `std::unordered_map`: the entries in the order of iteration.
pub record Dictionary (K V : Type 0) : Type 0 where
  pub entries : Map K V

module _ {K V : Type 0} ⦃keys : Archivable K⦄ ⦃values : Archivable V⦄ where
  module _ ⦃memory : Allocator⦄ where
    unfoldable pub serialize_map : Dictionary K V → MemoryArchive → Written
    serialize_map m a = and_write (pico_serialize (size_of m.entries) a) (serialize_all m.entries)

  module _ ⦃equal : Eq K⦄ where
    -- The loop of `size` rounds. `insert` answers whether the key is new; an entry is added behind the
    -- ones that are there, where iteration comes to it last.
    unfoldable pub insert_all : ℕ → Map K V → MemoryArchive → Read (Map K V)
    insert_all zero m a = ok (some m, a)
    insert_all (suc n) m a = and_read (pico_deserialize a) λ k a.
        and_read (pico_deserialize a) λ v a. elim (find k m) [
          | none ↦ insert_all n (m ++ ((k, v) ∷ [])) a
          | some w ↦ ok (none, a)
        ]

    unfoldable pub deserialize_map : MemoryArchive → Read (Dictionary K V)
    deserialize_map a = and_read (pico_deserialize a) λ (size : SizeT) a.
        and_read (insert_all size.value [] a) λ m a. ok (some (record { entries = m }), a)

    instance abbrev pub map_archivable : Archivable (Dictionary K V)
    map_archivable = record { serialize = serialize_map; deserialize = deserialize_map }

-- `std::set` and `std::unordered_set`, likewise.
pub record Collection (K : Type 0) : Type 0 where
  pub members : List K

module _ {K : Type 0} ⦃equal : Eq K⦄ where
  abbrev pub count : K → List K → Bool
  count k [] = false
  count k (j ∷ s) = (j == k) || count k s

module _ {K : Type 0} ⦃keys : Archivable K⦄ where
  module _ ⦃memory : Allocator⦄ where
    unfoldable pub serialize_set : Collection K → MemoryArchive → Written
    serialize_set s a = and_write (pico_serialize (size_of s.members) a) (serialize_all s.members)

  module _ ⦃equal : Eq K⦄ where
    unfoldable pub insert_members : ℕ → List K → MemoryArchive → Read (List K)
    insert_members zero s a = ok (some s, a)
    insert_members (suc n) s a =
        and_read (pico_deserialize a) λ k a. elim (count k s) [
          | false ↦ insert_members n (s ++ (k ∷ [])) a
          | true ↦ ok (none, a)
        ]

    unfoldable pub deserialize_set : MemoryArchive → Read (Collection K)
    deserialize_set a = and_read (pico_deserialize a) λ (size : SizeT) a.
        and_read (insert_members size.value [] a) λ s a. ok (some (record { members = s }), a)

    instance abbrev pub set_archivable : Archivable (Collection K)
    set_archivable = record { serialize = serialize_set; deserialize = deserialize_set }
