-- ===== src/Archive/Serial/Shapes.antt =====
-- The types that the library puts into messages, as one family: what is written for any of them can
-- be read back, in a buffer that holds other values too.
use prpc.Base.{ℕ, ◌+◌, ◌≡◌, sym, ap, subst, true, some, List, [], ◌∷◌, ◌++◌, append-nil, length}
use prpc.Base.{arith, Bytes, Eq, eqb, eqb_iff, bytes_beq, bytes_beq_iff}
use prpc.Base.Outcome.{ok}
use prpc.Archive.{Allocator, MemoryArchive, is_exhausted}
use prpc.Archive.Memory.{Holds}
use prpc.Archive.Memory.Growth.{Room}
use prpc.Archive.Serial.{
  Written, Read, Archivable, Pod, String, PodVector, Dictionary, Collection, pod_archivable,
  string_archivable, pods_archivable, vector_archivable, pair_archivable, map_archivable,
  set_archivable,
}
use prpc.Archive.Serial.Laws.{Lawful}
use prpc.Archive.Serial.Pods.{pod_lawful, string_lawful}
use prpc.Archive.Serial.RoundTrip.{pods_lawful, vector_lawful, pair_lawful}
use prpc.Archive.Serial.Truncated.{is_refused, pod-Rejects}
use prpc.Archive.Serial.Truncated.Types.{
  Guarded, string-Rejects, pods-Rejects, vector-Rejects, pair-Rejects, map-Rejects_lem, set-Rejects,
}
use prpc.Archive.Serial.Containers.{map_lawful, set_lawful}

-- `operator==` of the types that serve as keys
instance abbrev pub pod_eq : {size : ℕ} → Eq (Pod size)
pod_eq = record {
  beq = λ x y. eqb x.value y.value;
  beq_iff = λ x y. (
    λ e. ap (λ (n : ℕ). record { value = n }) ((eqb_iff x.value y.value).0 e),
    λ e. (eqb_iff x.value y.value).1 (ap (λ (x : Pod _). x.value) e),
  );
}

instance abbrev pub string_eq : Eq String
string_eq = record {
  beq = λ s t. bytes_beq s.bytes t.bytes;
  beq_iff = λ s t. (
    λ e. ap (λ (p : Bytes). record { bytes = p }) ((bytes_beq_iff s.bytes t.bytes).0 e),
    λ e. (bytes_beq_iff s.bytes t.bytes).1 (ap (λ (s : String). s.bytes) e),
  );
}

pub data Key : Type 0 where
  pod_key : ℕ → Key
  string_key : Key

pub data Shape : Type 0 where
  key : Key → Shape
  pods : ℕ → Shape
  vector : Shape → Shape
  pair : Shape → Shape → Shape
  dictionary : Key → Shape → Shape
  collection : Key → Shape

abbrev pub KeyValue : Key → Type 0
KeyValue (pod_key size) = Pod size
KeyValue string_key = String

abbrev pub Value : Shape → Type 0
Value (key k) = KeyValue k
Value (pods size) = PodVector size
Value (vector s) = List (Value s)
Value (pair s t) = Value s × Value t
Value (dictionary k s) = Dictionary (KeyValue k) (Value s)
Value (collection k) = Collection (KeyValue k)

abbrev pub key_eq : (k : Key) → Eq (KeyValue k)
key_eq (pod_key size) = pod_eq
key_eq string_key = string_eq

abbrev pub key_archivable : (k : Key) → Archivable (KeyValue k)
key_archivable (pod_key size) = pod_archivable
key_archivable string_key = string_archivable

abbrev pub key_lawful : (k : Key) → Lawful (KeyValue k) ⦃ar = key_archivable k⦄
key_lawful (pod_key size) = pod_lawful
key_lawful string_key = string_lawful

-- The overload that the compiler takes.
abbrev pub archivable : (s : Shape) → Archivable (Value s)
archivable (key k) = key_archivable k
archivable (pods size) = pods_archivable
archivable (vector s) = vector_archivable ⦃ar = archivable s⦄
archivable (pair s t) = pair_archivable ⦃first = archivable s⦄ ⦃second = archivable t⦄
archivable (dictionary k s) =
    map_archivable ⦃keys = key_archivable k⦄ ⦃values = archivable s⦄ ⦃equal = key_eq k⦄
archivable (collection k) = set_archivable ⦃keys = key_archivable k⦄ ⦃equal = key_eq k⦄

abbrev pub lawful : (s : Shape) → Lawful (Value s) ⦃ar = archivable s⦄
lawful (key k) = key_lawful k
lawful (pods size) = pods_lawful
lawful (vector s) = vector_lawful ⦃ar = archivable s⦄ ⦃law = lawful s⦄
lawful (pair s t) =
    pair_lawful ⦃first = archivable s⦄ ⦃second = archivable t⦄ ⦃left = lawful s⦄ ⦃right = lawful t⦄
lawful (dictionary k s) =
    map_lawful ⦃keys = key_archivable k⦄ ⦃values = archivable s⦄ ⦃left = key_lawful k⦄
      ⦃right = lawful s⦄ ⦃equal = key_eq k⦄
lawful (collection k) = set_lawful ⦃keys = key_archivable k⦄ ⦃law = key_lawful k⦄ ⦃equal = key_eq k⦄

module _ (s : Shape) where
  abbrev pub Encodable : Value s → Type 0
  Encodable = (lawful s).Encodable

  abbrev pub encoding : Value s → Bytes
  encoding = (lawful s).encoding

  abbrev pub serialize : ⦃memory : Allocator⦄ → Value s → MemoryArchive → Written
  serialize = (archivable s).serialize

  abbrev pub deserialize : MemoryArchive → Read (Value s)
  deserialize = (archivable s).deserialize

-- Writing a value of any of the types to an archive succeeds, where all that the archive holds has
-- been read, it owns its buffer, and its sizes stay far below the top of `size_t`. Reading the type
-- then gives the value back, and the archive is exhausted again.
pub deserialize-serialize :
    ⦃memory : Allocator⦄ (s : Shape) (x : Value s) (a : MemoryArchive) (front spare : Bytes)
    → Encodable s x
    → Holds a front [] spare
    → Room (length (encoding s x)) a
    → (b c : MemoryArchive) × (serialize s x a ≡ ok (true, b))
      × (deserialize s b ≡ ok (some x, c))
      × (is_exhausted c ≡ true)
deserialize-serialize s x a front spare good h room =
    let law : Lawful (Value s) ⦃ar = archivable s⦄ = lawful s in
    let all : Room (length (encoding s x) + 0) a = record {
      owned = room.owned;
      small = room.small;
      fits = omega (arith, room.fits);
    } in
    let (b, written, fresh, held, left) =
      (law.serialize-encoding x good).appends a front [] spare 0 h all in
    let whole = subst (λ t. Holds b front t fresh) (sym (append-nil (encoding s x))) held in
    let (c, read, done) = (law.deserialize-encoding x good).takes b front [] fresh whole in
    (b, c, written, read, ground (arith, done.at_cursor, done.at_end))

Guarded-key : (k : Key) → Guarded (KeyValue k) ⦃ar = key_archivable k⦄ ⦃law = key_lawful k⦄
Guarded-key (pod_key size) = record { cut = λ x h. pod-Rejects size x h }
Guarded-key string_key = record { cut = λ x h. string-Rejects x h }

guarded : (s : Shape) → Guarded (Value s) ⦃ar = archivable s⦄ ⦃law = lawful s⦄
guarded (key k) = Guarded-key k
guarded (pods size) = record { cut = λ x h. pods-Rejects x h.0 h.1 }
guarded (vector s) = record {
  cut = λ x h. vector-Rejects ⦃ar = archivable s⦄ ⦃law = lawful s⦄ (guarded s) x h.0 h.1;
}
guarded (pair s t) = record {
  cut = λ x h.
      pair-Rejects ⦃first = archivable s⦄ ⦃second = archivable t⦄ ⦃left = lawful s⦄
        ⦃right = lawful t⦄ (guarded s) (guarded t) x.0 x.1 h.0 h.1;
}
guarded (dictionary k s) = record {
  cut = λ x h.
      map-Rejects_lem ⦃keys = key_archivable k⦄ ⦃values = archivable s⦄ ⦃left = key_lawful k⦄
        ⦃right = lawful s⦄ ⦃equal = key_eq k⦄ (Guarded-key k) (guarded s) x h.0 h.1 h.2;
}
guarded (collection k) = record {
  cut = λ x h.
      set-Rejects ⦃keys = key_archivable k⦄ ⦃law = key_lawful k⦄ ⦃equal = key_eq k⦄ (Guarded-key k)
        x h.0 h.1 h.2;
}

-- Where the bytes that are left to be read are a proper prefix of those that are written for a value
-- of the type, the reader of the type answers `false` or ends the process. It takes no cut off
-- message for another value.
pub deserialize-truncated :
    (s : Shape) (x : Value s) (a : MemoryArchive) (front body spare : Bytes) (c : ℕ) (rest : Bytes)
    → Encodable s x
    → Holds a front body spare
    → body ++ (c ∷ rest) ≡ encoding s x
    → is_refused (deserialize s a) ≡ true
deserialize-truncated s x a front body spare c rest good h e =
    let guard : Guarded (Value s) ⦃ar = archivable s⦄ ⦃law = lawful s⦄ = guarded s in
    (guard.cut x good).refuses a front body spare c rest h e
