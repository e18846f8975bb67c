-- ===== src/Archive/Serial/RoundTrip.antt =====
-- Vectors and pairs are read back as they were written.
use prpc.Base.{ℕ, ◌*◌, ◌%◌, ◌≡◌, refl, sym, ap, subst}
use prpc.Base.{List, [], ◌∷◌, ◌++◌, arith, length, length-append, Bytes}
use prpc.Archive.{Allocator, read_raw_uncheck, size_t_max}
use prpc.Archive.Memory.{take_at, drop_at}
use prpc.Archive.Serial.{
  Archivable, Pod, bytes_of, pod_archivable, size_of, taken, string_archivable, PodVector,
  memory_of, elements_of, serialize_pods, deserialize_pods, pods_archivable, serialize_all,
  serialize_vector, deserialize_all, deserialize_vector, vector_archivable, serialize_pair,
  deserialize_pair, pair_archivable, map_archivable, set_archivable,
}
use prpc.Archive.Serial.Laws.{Writes, Reads, Lawful}
use prpc.Archive.Serial.Laws.Steps.{
  and_write-Writes, and_read-Reads, done-Writes, done-Reads, raw-Writes, raw-Reads, map-Reads,
}
use prpc.Archive.Serial.Pods.{
  length-bytes_of, value_of-bytes_of, IsPod, pod-Reads, IsSize, pod_lawful,
}

pub memory_of-Writes :
    ⦃memory : Allocator⦄ {size : ℕ} (vect : PodVector size)
    → Writes (bytes_of 8 (length vect.elements) ++ memory_of vect.elements) (serialize_pods vect)
unfolding serialize_pods
memory_of-Writes vect =
    and_write-Writes (raw-Writes (bytes_of 8 (length vect.elements)))
      (raw-Writes (memory_of vect.elements))

abbrev pub ArePods : {size : ℕ} → List (Pod size) → Type 0
ArePods [] = Unit
ArePods (x ∷ xs) = IsPod x × ArePods xs

pub length-memory_of : {size : ℕ} (xs : List (Pod size)) → length (memory_of xs) ≡ size * length xs
unfolding memory_of
length-memory_of [] = omega arith
length-memory_of {size} (x ∷ xs) = omega (
  arith,
  length-append (bytes_of size x.value) (memory_of xs),
  length-bytes_of size x.value,
  length-memory_of xs,
)

-- The elements are read back off their memory.
elements_of-memory_of :
    {size : ℕ} (xs : List (Pod size))
    → ArePods xs
    → elements_of size (length xs) (memory_of xs) ≡ xs
unfolding elements_of memory_of
elements_of-memory_of [] h = refl
elements_of-memory_of {size} (x ∷ xs) h =
    rw
      (
        take_at size (bytes_of size x.value) (memory_of xs) (sym (length-bytes_of size x.value)),
        drop_at size (bytes_of size x.value) (memory_of xs) (sym (length-bytes_of size x.value)),
        value_of-bytes_of size x.value h.0.1,
        elements_of-memory_of xs h.1,
      )
      refl

pub pods-Reads :
    {size : ℕ} (vect : PodVector size)
    → IsSize (length vect.elements)
    → IsSize (size * length vect.elements)
    → ArePods vect.elements
    → Reads vect
        (bytes_of 8 (length vect.elements) ++ memory_of vect.elements)
        (deserialize_pods size)
unfolding deserialize_pods
pods-Reads {size} vect h fits pods =
    and_read-Reads _ (pod-Reads 8 (size_of vect.elements) (omega arith, h)) (
      rw (whole) (
        subst
          (λ v. Reads v (memory_of vect.elements) λ a.
            taken (λ p. record { elements = elements_of size (length vect.elements) p })
              (read_raw_uncheck (length (memory_of vect.elements)) a))
          (ap (λ t. record { elements = t }) (elements_of-memory_of vect.elements pods))
          (raw-Reads (memory_of vect.elements)
            (λ p. record { elements = elements_of size (length vect.elements) p }))))
  where
    whole : size * length vect.elements % size_t_max ≡ length (memory_of vect.elements)
    whole = omega (arith, length-memory_of vect.elements, fits)

instance abbrev pub pods_lawful : {size : ℕ} → Lawful (PodVector size)
pods_lawful {size} = record {
  Encodable = λ vect.
      IsSize (length vect.elements) × IsSize (size * length vect.elements) × ArePods vect.elements;
  encoding = λ vect. bytes_of 8 (length vect.elements) ++ memory_of vect.elements;
  serialize-encoding = λ vect h. memory_of-Writes vect;
  deserialize-encoding = λ vect h. pods-Reads vect h.0 h.1 h.2;
}

module _ {A : Type 0} ⦃ar : Archivable A⦄ ⦃law : Lawful A⦄ where
  abbrev pub encodings : List A → Bytes
  encodings [] = []
  encodings (x ∷ xs) = law.encoding x ++ encodings xs

  abbrev pub AllEncodable : List A → Type 0
  AllEncodable [] = Unit
  AllEncodable (x ∷ xs) = law.Encodable x × AllEncodable xs

  pub all-Writes :
      ⦃memory : Allocator⦄ (xs : List A)
      → AllEncodable xs
      → Writes (encodings xs) (serialize_all xs)
  unfolding serialize_all
  all-Writes [] h = done-Writes
  all-Writes (x ∷ xs) h = and_write-Writes (law.serialize-encoding x h.0) (all-Writes xs h.1)

  pub all-Reads :
      (xs : List A) → AllEncodable xs → Reads xs (encodings xs) (deserialize_all (length xs))
  unfolding deserialize_all
  all-Reads [] h = done-Reads []
  all-Reads (x ∷ xs) h =
      and_read-Reads _ (law.deserialize-encoding x h.0) (map-Reads (x ∷◌) (all-Reads xs h.1))

  pub vector-Writes :
      ⦃memory : Allocator⦄ (xs : List A)
      → AllEncodable xs
      → Writes (bytes_of 8 (length xs) ++ encodings xs) (serialize_vector xs)
  unfolding serialize_vector
  vector-Writes xs h = and_write-Writes (raw-Writes (bytes_of 8 (length xs))) (all-Writes xs h)

  pub vector-Reads :
      (xs : List A)
      → IsSize (length xs)
      → AllEncodable xs
      → Reads xs (bytes_of 8 (length xs) ++ encodings xs) deserialize_vector
  unfolding deserialize_vector
  vector-Reads xs size h =
      and_read-Reads _ (pod-Reads 8 (size_of xs) (omega arith, size)) (all-Reads xs h)

  instance abbrev pub vector_lawful : Lawful (List A)
  vector_lawful = record {
    Encodable = λ xs. IsSize (length xs) × AllEncodable xs;
    encoding = λ xs. bytes_of 8 (length xs) ++ encodings xs;
    serialize-encoding = λ xs h. vector-Writes xs h.1;
    deserialize-encoding = λ xs h. vector-Reads xs h.0 h.1;
  }

module _ {A B : Type 0} ⦃first : Archivable A⦄ ⦃second : Archivable B⦄ ⦃left : Lawful A⦄
    ⦃right : Lawful B⦄ where
  pub pair-Writes :
      ⦃memory : Allocator⦄ (x : A) (y : B)
      → left.Encodable x
      → right.Encodable y
      → Writes (left.encoding x ++ right.encoding y) (serialize_pair (x, y))
  unfolding serialize_pair
  pair-Writes x y h k =
      and_write-Writes (left.serialize-encoding x h) (right.serialize-encoding y k)

  pub pair-Reads :
      (x : A) (y : B)
      → left.Encodable x
      → right.Encodable y
      → Reads (x, y) (left.encoding x ++ right.encoding y) deserialize_pair
  unfolding deserialize_pair
  pair-Reads x y h k =
      and_read-Reads _ (left.deserialize-encoding x h)
        (map-Reads (λ y. (x, y)) (right.deserialize-encoding y k))

  instance abbrev pub pair_lawful : Lawful (A × B)
  pair_lawful = record {
    Encodable = λ z. left.Encodable z.0 × right.Encodable z.1;
    encoding = λ z. left.encoding z.0 ++ right.encoding z.1;
    serialize-encoding = λ z h. pair-Writes z.0 z.1 h.0 h.1;
    deserialize-encoding = λ z h. pair-Reads z.0 z.1 h.0 h.1;
  }
