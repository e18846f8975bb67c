-- ===== src/Archive/Serial/Pods.antt =====
-- Numbers and strings are read back as they were written.
use prpc.Base.{ℕ, zero, suc, ◌*◌, ◌/◌, ◌^◌, ◌<◌, ◌≡◌, refl, ap, subst, false, some}
use prpc.Base.{◌++◌, arith, length, length-append, Bytes}
use prpc.Base.Outcome.{ok}
use prpc.Archive.{Allocator, MemoryArchive, read_raw, is_exhausted, size_t_max}
use prpc.Archive.Memory.{Holds}
use prpc.Archive.Memory.Reading.{past, past-Holds, read_raw-Holds}
use prpc.Archive.Serial.{
  Pod, bytes_of, value_of, read_pod_uncheck, pod_archivable, size_of, String, serialize_string,
  deserialize_string, string_archivable, pods_archivable, vector_archivable, pair_archivable,
  map_archivable, set_archivable,
}
use prpc.Archive.Serial.Laws.{Writes, Reads, Lawful}
use prpc.Archive.Serial.Laws.Steps.{and_write-Writes, and_read-Reads, raw-Writes, raw-Reads}

pub length-bytes_of : (size n : ℕ) → length (bytes_of size n) ≡ size
unfolding bytes_of
length-bytes_of zero n = refl
length-bytes_of (suc size) n = ap suc (length-bytes_of size (n / 256))

power_suc : (size : ℕ) → 256 ^ suc size ≡ 256 * 256 ^ size
power_suc size = omega arith

pub value_of-bytes_of : (size n : ℕ) → n < 256 ^ size → value_of (bytes_of size n) ≡ n
unfolding bytes_of value_of
value_of-bytes_of zero n h = omega (arith, h)
value_of-bytes_of (suc size) n h =
    omega (arith, value_of-bytes_of size (n / 256) (omega (arith, h, power_suc size)))

-- A pod of no bytes could not be told from the end of the archive.
abbrev pub IsPod : {size : ℕ} → Pod size → Type 0
IsPod {size} x = (0 < size) × (x.value < 256 ^ size)

module _ (size : ℕ) (x : Pod size) (h : IsPod x) where
  read_pod :
      {a : MemoryArchive} {front : Bytes} (body : Bytes) {spare : Bytes}
      → Holds a front (bytes_of size x.value ++ body) spare
      → read_pod_uncheck size a ≡ ok (some x, past a (bytes_of size x.value))
  unfolding read_pod_uncheck
  read_pod {a} {front} body {spare} held =
      rw (some_left, bytes)
        (ap (λ (v : ℕ). ok (some (record { value = v }), past a (bytes_of size x.value)))
          (value_of-bytes_of size x.value h.1))
    where
      some_left : is_exhausted a ≡ false
      some_left = ground (
        arith,
        held.at_end,
        held.at_cursor,
        length-append (bytes_of size x.value) body,
        length-bytes_of size x.value,
        h.0,
      )

      bytes : read_raw size a ≡ ok (bytes_of size x.value, past a (bytes_of size x.value))
      bytes =
          subst (λ n. read_raw n a ≡ ok (bytes_of size x.value, past a (bytes_of size x.value)))
            (length-bytes_of size x.value) (read_raw-Holds (bytes_of size x.value) body held)

  pub pod-Reads : Reads x (bytes_of size x.value) (read_pod_uncheck size)
  pod-Reads = record {
    takes = λ a front body spare held. (
      past a (bytes_of size x.value),
      read_pod body held,
      past-Holds (bytes_of size x.value) body held,
    );
  }

instance abbrev pub pod_lawful : {size : ℕ} → Lawful (Pod size)
pod_lawful {size} = record {
  Encodable = IsPod;
  encoding = λ x. bytes_of size x.value;
  serialize-encoding = λ x h. raw-Writes (bytes_of size x.value);
  deserialize-encoding = λ x h. pod-Reads size x h;
}

-- `size_t` counts the elements.
abbrev pub IsSize : ℕ → Type 0
IsSize n = n < size_t_max

pub string-Writes :
    ⦃memory : Allocator⦄ (s : String)
    → Writes (bytes_of 8 (length s.bytes) ++ s.bytes) (serialize_string s)
unfolding serialize_string
string-Writes s = and_write-Writes (raw-Writes (bytes_of 8 (length s.bytes))) (raw-Writes s.bytes)

pub string-Reads :
    (s : String)
    → IsSize (length s.bytes)
    → Reads s (bytes_of 8 (length s.bytes) ++ s.bytes) deserialize_string
unfolding deserialize_string
string-Reads s h =
    and_read-Reads _ (pod-Reads 8 (size_of s.bytes) (omega arith, h))
      (raw-Reads s.bytes (λ p. record { bytes = p }))

instance abbrev pub string_lawful : Lawful String
string_lawful = record {
  Encodable = λ s. IsSize (length s.bytes);
  encoding = λ s. bytes_of 8 (length s.bytes) ++ s.bytes;
  serialize-encoding = λ s h. string-Writes s;
  deserialize-encoding = λ s h. string-Reads s h;
}
