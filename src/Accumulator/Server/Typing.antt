-- ===== src/Accumulator/Server/Typing.antt =====
-- Requests that use each name at one type, and that the server's map keeps to it.
use prpc.Accumulator.Aggregators.Laws.{same_type, type_name-merge}
use prpc.Accumulator.Aggregators.{Aggregator, type_name, merge_aggregator}
use prpc.Accumulator.Server.{
  Entry, Operation, read, reset, write, stop, malformed, Server, write_entry, write_entries,
  erase_each,
}
use prpc.Base.{
  ℕ, ◌≡◌, refl, sym, ◌∙◌, ◌≢◌, inl, inr, Option, none, some, List, [], ◌∷◌, Bytes, bytes_eq,
  bytes_beq_iff, nat_eq, ◌==◌, eqb_iff, arith, Bool-cases, Option-cases,
}
use prpc.Base.Maps.{Map, find, assign, erase, find-assign, find-erase}
use prpc.Base.Outcome.{Returns}

-- Each name has one type, and a name's aggregator is of it.
module _ (typing : Bytes → ℕ) where
  abbrev pub Typed : Map Bytes Aggregator → Type 0
  Typed m = (name : Bytes) (a : Aggregator) → find name m ≡ some a → type_name a ≡ typing name

  abbrev pub Known : List Entry → Type 0
  Known [] = Unit {0}
  Known (e ∷ es) = ((d : Aggregator) × (e.agg ≡ some d) × (type_name d ≡ typing e.name)) × Known es

  -- A request that uses each name at its type, where `n` clients are there.
  abbrev pub Allowed : ℕ → Operation → Type 0
  Allowed n (read name type) = type ≡ typing name
  Allowed n (reset name type) = type ≡ typing name
  Allowed n (write entries) = Known entries
  Allowed n stop = n ≢ 0
  Allowed n malformed = ⊥
  Allowed n _ = Unit {0}

  pub assign-Typed :
      (name : Bytes) (d : Aggregator) (m : Map Bytes Aggregator)
      → type_name d ≡ typing name
      → Typed m
      → Typed (assign name d m)
  assign-Typed name d m e t k a h =
      let f = find-assign name k d m in
      elim (Bool-cases (name == k)) [
        | inl same ↦
            let i : some d ≡ some a = sym (rw same at f) ∙ h in
            let j : name ≡ k = (bytes_beq_iff name k).0 same in cc (i, j, e)
        | inr apart ↦ t k a (sym (rw apart at f) ∙ h)
      ]

  pub erase_each-Typed :
      (ns : List Bytes) (m : Map Bytes Aggregator) → Typed m → Typed (erase_each ns m)
  unfolding erase_each
  erase_each-Typed [] m t = t
  erase_each-Typed (n ∷ ns) m t =
      erase_each-Typed ns (erase n m) (λ k a h. t k a (ground (arith, h, find-erase n k m)))

  -- what a write leaves as it was
  pub record Written (s s' : Server) : Type 0 where
    pub typed : Typed s'.aggs
    pub client_count : s'.client_count ≡ s.client_count
    pub responses : s'.responses ≡ s.responses

  known-Written :
      (name : Bytes) (d : Aggregator) (s : Server)
      → type_name d ≡ typing name
      → Typed s.aggs
      → Returns (write_entry (record { name = name; agg = some d }) s) (Written s)
  unfolding write_entry
  known-Written name d s e t = elim (Option-cases (find name s.aggs)) [
    | inl unused ↦ (
      record s { aggs = assign name d s.aggs },
      rw (write_entry, unused) refl,
      record { typed = assign-Typed name d s.aggs e t; client_count = refl; responses = refl },
    )
    | inr (a, used) ↦
        let same : type_name a ≡ type_name d = t name a used ∙ sym e in
        (
          record s {
            aggs = assign name (merge_aggregator a d) s.aggs;
            agg_pool = assign (type_name d) d s.agg_pool;
          },
          rw (write_entry, used, (eqb_iff (type_name d) (type_name a)).1 (sym same)) refl,
          record {
            typed =
                assign-Typed name (merge_aggregator a d) s.aggs
                  (type_name-merge (same_type a d same) ∙ t name a used) t;
            client_count = refl;
            responses = refl;
          },
        )
  ]

  some-Written :
      (name : Bytes) (agg : Option Aggregator) (d : Aggregator) (s : Server)
      → agg ≡ some d
      → type_name d ≡ typing name
      → Typed s.aggs
      → Returns (write_entry (record { name = name; agg = agg }) s) (Written s)
  some-Written name none d s h e t = cc
  some-Written name (some c) d s h e t = known-Written name c s (cc (h, e)) t

  pub write_entries-Written :
      (es : List Entry) (s : Server)
      → Known es
      → Typed s.aggs
      → Returns (write_entries es s) (Written s)
  unfolding write_entries
  write_entries-Written [] s k t =
      (s, refl, record { typed = t; client_count = refl; responses = refl })
  write_entries-Written (e ∷ es) s ((d, here, type), k) t =
      let (s1, run, w) = some-Written e.name e.agg d s here type t in
      let (s2, run', w') = write_entries-Written es s1 k w.typed in
      (
        s2,
        rw run run',
        record {
          typed = w'.typed;
          client_count = w'.client_count ∙ w.client_count;
          responses = w'.responses ∙ w.responses;
        },
      )
