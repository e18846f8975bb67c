-- ===== src/Archive/Serial/Containers.antt =====
-- Maps and sets are read back as they were written: a key that came twice would be refused.
use prpc.Base.{suc, ◌≡◌, refl, sym, subst, false, none, some}
use prpc.Base.{List, [], ◌∷◌, ◌++◌, append_assoc, append-nil, arith, length, Eq, ◌==◌}
use prpc.Base.Outcome.{ok}
use prpc.Base.Maps.{Map, find, Unique}
use prpc.Archive.{Allocator}
use prpc.Archive.Serial.{
  Archivable, bytes_of, pod_archivable, size_of, string_archivable, pods_archivable,
  vector_archivable, pair_archivable, Dictionary, serialize_map, insert_all, deserialize_map,
  map_archivable, Collection, count, serialize_set, insert_members, deserialize_set, set_archivable,
}
use prpc.Archive.Serial.Laws.{Writes, Reads, Lawful}
use prpc.Archive.Serial.Laws.Steps.{
  and_write-Writes, and_read-Reads, done-Reads, raw-Writes, map-Reads,
}
use prpc.Archive.Serial.Pods.{pod-Reads, IsSize}
use prpc.Archive.Serial.RoundTrip.{encodings, AllEncodable, all-Writes, pair_lawful}

-- No key of the second stands in the first.
module _ {K V : Type 0} ⦃equal : Eq K⦄ where
  abbrev pub Apart : Map K V → Map K V → Type 0
  Apart m [] = Unit
  Apart m ((k, v) ∷ es) = (find k m ≡ none) × Apart m es

  find-behind :
      (j k : K) (v : V) (m : Map K V)
      → find j m ≡ none
      → (k == j) ≡ false
      → find j (m ++ ((k, v) ∷ [])) ≡ none
  unfolding find
  find-behind j k v [] h e = ground (arith, e)
  find-behind j k v ((i, w) ∷ m) h e = ground (arith, h, e, find-behind j k v m)

  pub Apart-behind :
      (k : K) (v : V) (m es : Map K V)
      → Apart m es
      → find k es ≡ none
      → Apart (m ++ ((k, v) ∷ [])) es
  unfolding find
  Apart-behind k v m [] h e = tt
  Apart-behind k v m ((j, w) ∷ es) h e = (
    find-behind j k v m h.0 (ground (arith, e, equal.beq_iff j k, equal.beq_iff k j)),
    Apart-behind k v m es h.1 (ground (arith, e)),
  )

  pub Apart-nothing : (es : Map K V) → Apart [] es
  unfolding find
  Apart-nothing [] = tt
  Apart-nothing ((k, v) ∷ es) = (refl, Apart-nothing es)

module _ {K V : Type 0} ⦃keys : Archivable K⦄ ⦃values : Archivable V⦄ ⦃left : Lawful K⦄
    ⦃right : Lawful V⦄ ⦃equal : Eq K⦄ where
  pub insert_all-Reads :
      (es m : Map K V)
      → AllEncodable es
      → Unique es
      → Apart m es
      → Reads (m ++ es) (encodings es) (insert_all (length es) m)
  unfolding insert_all
  insert_all-Reads [] m h u apart =
      subst (λ t. Reads t [] λ a. ok (some m, a)) (sym (append-nil m)) (done-Reads m)
  insert_all-Reads ((k, v) ∷ es) m h u apart =
      let x = left.encoding k in
      let y = right.encoding v in
      let after : Reads (m ++ ((k, v) ∷ []) ++ es) (encodings es)
          (insert_all (length es) (m ++ ((k, v) ∷ []))) =
        insert_all-Reads es (m ++ ((k, v) ∷ [])) h.1 u.1 (Apart-behind k v m es apart.1 u.0) in
      subst (λ t. Reads (m ++ ((k, v) ∷ es)) t (insert_all (suc (length es)) m))
        (sym (append_assoc x y (encodings es)))
        (and_read-Reads _ (left.deserialize-encoding k h.0.0) (
          and_read-Reads _ (right.deserialize-encoding v h.0.1) (
            rw (apart.0) (
              subst (λ t. Reads t (encodings es) (insert_all (length es) (m ++ ((k, v) ∷ []))))
                (append_assoc m ((k, v) ∷ []) es) after))))

  pub map-Writes :
      ⦃memory : Allocator⦄ (m : Dictionary K V)
      → AllEncodable m.entries
      → Writes (bytes_of 8 (length m.entries) ++ encodings m.entries) (serialize_map m)
  unfolding serialize_map
  map-Writes m h =
      and_write-Writes (raw-Writes (bytes_of 8 (length m.entries))) (all-Writes m.entries h)

  pub map-Reads_lem :
      (m : Dictionary K V)
      → IsSize (length m.entries)
      → AllEncodable m.entries
      → Unique m.entries
      → Reads m (bytes_of 8 (length m.entries) ++ encodings m.entries) deserialize_map
  unfolding deserialize_map
  map-Reads_lem m size h u =
      and_read-Reads _ (pod-Reads 8 (size_of m.entries) (omega arith, size)) (
        map-Reads (λ t. record { entries = t })
          (insert_all-Reads m.entries [] h u (Apart-nothing m.entries)))

  instance abbrev pub map_lawful : Lawful (Dictionary K V)
  map_lawful = record {
    Encodable = λ m. IsSize (length m.entries) × AllEncodable m.entries × Unique m.entries;
    encoding = λ m. bytes_of 8 (length m.entries) ++ encodings m.entries;
    serialize-encoding = λ m h. map-Writes m h.1;
    deserialize-encoding = λ m h. map-Reads_lem m h.0 h.1 h.2;
  }

-- No member stands twice.
module _ {K : Type 0} ⦃equal : Eq K⦄ where
  abbrev pub Distinct : List K → Type 0
  Distinct [] = Unit
  Distinct (k ∷ s) = (count k s ≡ false) × Distinct s

  abbrev pub Strange : List K → List K → Type 0
  Strange s [] = Unit
  Strange s (k ∷ ks) = (count k s ≡ false) × Strange s ks

  count-behind :
      (j k : K) (s : List K)
      → count j s ≡ false
      → (k == j) ≡ false
      → count j (s ++ (k ∷ [])) ≡ false
  count-behind j k [] h e = ground (arith, e)
  count-behind j k (i ∷ s) h e = ground (arith, h, e, count-behind j k s)

  pub Strange-behind :
      (k : K) (s ks : List K) → Strange s ks → count k ks ≡ false → Strange (s ++ (k ∷ [])) ks
  Strange-behind k s [] h e = tt
  Strange-behind k s (j ∷ ks) h e = (
    count-behind j k s h.0 (ground (arith, e, equal.beq_iff j k, equal.beq_iff k j)),
    Strange-behind k s ks h.1 (ground (arith, e)),
  )

  pub Strange-nothing : (ks : List K) → Strange [] ks
  Strange-nothing [] = tt
  Strange-nothing (k ∷ ks) = (refl, Strange-nothing ks)

module _ {K : Type 0} ⦃keys : Archivable K⦄ ⦃law : Lawful K⦄ ⦃equal : Eq K⦄ where
  pub insert_members-Reads :
      (ks s : List K)
      → AllEncodable ks
      → Distinct ks
      → Strange s ks
      → Reads (s ++ ks) (encodings ks) (insert_members (length ks) s)
  unfolding insert_members
  insert_members-Reads [] s h d new =
      subst (λ t. Reads t [] λ a. ok (some s, a)) (sym (append-nil s)) (done-Reads s)
  insert_members-Reads (k ∷ ks) s h d new =
      let after : Reads (s ++ (k ∷ []) ++ ks) (encodings ks)
          (insert_members (length ks) (s ++ (k ∷ []))) =
        insert_members-Reads ks (s ++ (k ∷ [])) h.1 d.1 (Strange-behind k s ks new.1 d.0) in
      and_read-Reads _ (law.deserialize-encoding k h.0) (
        rw (new.0) (
          subst (λ t. Reads t (encodings ks) (insert_members (length ks) (s ++ (k ∷ []))))
            (append_assoc s (k ∷ []) ks) after))

  pub set-Writes :
      ⦃memory : Allocator⦄ (s : Collection K)
      → AllEncodable s.members
      → Writes (bytes_of 8 (length s.members) ++ encodings s.members) (serialize_set s)
  unfolding serialize_set
  set-Writes s h =
      and_write-Writes (raw-Writes (bytes_of 8 (length s.members))) (all-Writes s.members h)

  pub set-Reads :
      (s : Collection K)
      → IsSize (length s.members)
      → AllEncodable s.members
      → Distinct s.members
      → Reads s (bytes_of 8 (length s.members) ++ encodings s.members) deserialize_set
  unfolding deserialize_set
  set-Reads s size h d = and_read-Reads _ (pod-Reads 8 (size_of s.members) (omega arith, size)) (
      map-Reads (λ t. record { members = t })
        (insert_members-Reads s.members [] h d (Strange-nothing s.members)))

  instance abbrev pub set_lawful : Lawful (Collection K)
  set_lawful = record {
    Encodable = λ s. IsSize (length s.members) × AllEncodable s.members × Distinct s.members;
    encoding = λ s. bytes_of 8 (length s.members) ++ encodings s.members;
    serialize-encoding = λ s h. set-Writes s h.1;
    deserialize-encoding = λ s h. set-Reads s h.0 h.1 h.2;
  }
