-- ===== src/Accumulator/Server/Order.antt =====
-- What the server holds does not depend on the order in which the writes come.
use mathlib.Core.List.{Permᴰ}
use prpc.Accumulator.Aggregators.Laws.{
  SameType, same_type, merge_aggregator_comm, merge_aggregator_assoc, type_name-merge,
}
use prpc.Accumulator.Aggregators.{Aggregator, type_name, merge_aggregator}
use prpc.Accumulator.Server.{Entry, Server, write_entry, write_entries}
use prpc.Base.{
  ◌≡◌, refl, sym, ap, ◌∙◌, fun_ext, inl, inr, subst, ==_refl, true, false, Option, none, some, List,
  [], ◌∷◌, Bytes, bytes_eq, bytes_beq_iff, nat_eq, ◌==◌, eqb, if◌then◌else◌, arith, Bool-cases,
  Option-cases,
}
use prpc.Base.Maps.{find, assign, find-assign}
use prpc.Base.Outcome.{Outcome, ok, fault, ◌>>=◌, ◌>>◌, check}

-- The aggregators by their names, with no order.
abbrev pub View : Type 0
View = Bytes → Option Aggregator

abbrev pub view : Server → View
view s name = find name s.aggs

abbrev pub seen : Outcome Server → Outcome View
seen (ok s) = ok (view s)
seen fault = fault

-- What one more aggregator makes of a name's.
abbrev absorb : Option Aggregator → Aggregator → Outcome Aggregator
absorb none d = ok d
absorb (some a) d = check (eqb (type_name d) (type_name a)) >> ok (merge_aggregator a d)

abbrev put : Bytes → Aggregator → View → View
put name a g n = if name == n then some a else g n

abbrev spec_put : Bytes → Aggregator → View → Outcome View
spec_put name d g = absorb (g name) d >>= λ a. ok (put name a g)

abbrev spec_entry : Entry → View → Outcome View
spec_entry e g = elim e.agg [ none ↦ fault | some d ↦ spec_put e.name d g ]

abbrev spec_entries : List Entry → View → Outcome View
spec_entries [] g = ok g
spec_entries (e ∷ es) g = spec_entry e g >>= spec_entries es

view-assign :
    (name : Bytes) (a : Aggregator) (s s' : Server)
    → s'.aggs ≡ assign name a s.aggs
    → view s' ≡ put name a (view s)
view-assign name a s s' e = fun_ext (λ n. ap (find n) e ∙ find-assign name n a s.aggs)

known_entry_lem :
    (name : Bytes) (d : Aggregator) (s : Server)
    → seen (write_entry (record { name = name; agg = some d }) s) ≡ spec_put name d (view s)
unfolding write_entry
known_entry_lem name d s = elim (Option-cases (find name s.aggs)) [
  | inl unused ↦
      rw (write_entry, unused)
        (ap ok (view-assign name d s (record s { aggs = assign name d s.aggs }) refl))
  | inr (a, used) ↦ elim (Bool-cases (eqb (type_name d) (type_name a))) [
    | inl same ↦
        rw (write_entry, used, same)
          (ap ok (
            view-assign name (merge_aggregator a d) s
              (record s { aggs = assign name (merge_aggregator a d) s.aggs }) refl))
    | inr other ↦ rw (write_entry, used, other) refl
  ]
]

entry_lem :
    (name : Bytes) (agg : Option Aggregator) (s : Server)
    → seen (write_entry (record { name = name; agg = agg }) s)
      ≡ spec_entry (record { name = name; agg = agg }) (view s)
unfolding write_entry
entry_lem name none s = refl
entry_lem name (some d) s = known_entry_lem name d s

write_entry_lem : (e : Entry) (s : Server) → seen (write_entry e s) ≡ spec_entry e (view s)
write_entry_lem e s = entry_lem e.name e.agg s

write_entries_lem :
    (es : List Entry) (s : Server) → seen (write_entries es s) ≡ spec_entries es (view s)
unfolding write_entries
write_entries_lem [] s = refl
write_entries_lem (e ∷ es) s = after (write_entry e s) (write_entry_lem e s) (write_entries_lem es)
  where
    after :
        (o : Outcome Server)
        → seen o ≡ spec_entry e (view s)
        → ((s' : Server) → seen (write_entries es s') ≡ spec_entries es (view s'))
        → seen (o >>= write_entries es) ≡ (spec_entry e (view s) >>= spec_entries es)
    after (ok s') h rest = rw (← h) (rest s')
    after fault h rest = rw (← h) refl

merge-swap :
    (a d c : Aggregator)
    → SameType a d
    → SameType a c
    → SameType d c
    → SameType c d
    → merge_aggregator (merge_aggregator a d) c ≡ merge_aggregator (merge_aggregator a c) d
merge-swap a d c ad ac dc cd =
    merge_aggregator_assoc ad dc
    ∙ ap (merge_aggregator a) (merge_aggregator_comm dc)
    ∙ sym (merge_aggregator_assoc ac cd)

alike : (a d : Aggregator) → eqb (type_name d) (type_name a) ≡ true → SameType a d
alike a d h = same_type a d (ground (arith, h))

absorb-swap :
    (o : Option Aggregator) (d c : Aggregator)
    → (absorb o d >>= λ a. absorb (some a) c) ≡ (absorb o c >>= λ a. absorb (some a) d)
absorb-swap none d c = elim (Bool-cases (eqb (type_name c) (type_name d))) [
  | inl same ↦
      let e : type_name d ≡ type_name c = ground (arith, same) in
      rw (e) (
        let z : eqb (type_name c) (type_name c) ≡ true = ground arith in
        rw z (ap ok (merge_aggregator_comm (same_type d c e))))
  | inr other ↦
      let z : eqb (type_name d) (type_name c) ≡ false = ground (arith, other) in rw (other, z) refl
]
absorb-swap (some a) d c = elim (Bool-cases (eqb (type_name d) (type_name a))) [
  | inr other ↦ elim (Bool-cases (eqb (type_name c) (type_name a))) [
    | inr third ↦ rw (other, third) refl
    | inl same ↦ rw (other, same, type_name-merge (alike a c same), other) refl
  ]
  | inl same ↦ elim (Bool-cases (eqb (type_name c) (type_name a))) [
    | inr other ↦ rw (same, other, type_name-merge (alike a d same), other) refl
    | inl third ↦
        rw
          (
            same,
            third,
            type_name-merge (alike a d same),
            type_name-merge (alike a c third),
            same,
            third,
          )
          (ap ok (
            merge-swap a d c (alike a d same) (alike a c third)
              (same_type d c (ground (arith, same, third)))
              (same_type c d (ground (arith, same, third)))))
  ]
]

put-put : (n : Bytes) (a b : Aggregator) (g : View) → put n b (put n a g) ≡ put n b g
put-put n a b g = fun_ext (λ k. ground arith)

put-swap :
    (n m : Bytes) (a b : Aggregator) (g : View)
    → (n == m) ≡ false
    → put m b (put n a g) ≡ put n a (put m b g)
put-swap n m a b g apart =
    fun_ext (λ k. ground (arith, apart, bytes_beq_iff n k, bytes_beq_iff m k, bytes_beq_iff n m))

same_name :
    (n : Bytes) (d c : Aggregator) (g : View)
    → (spec_put n d g >>= spec_put n c)
      ≡ ((absorb (g n) d >>= λ a. absorb (some a) c) >>= λ b. ok (put n b g))
same_name n d c g = first (absorb (g n) d)
  where
    second :
        (a : Aggregator) (o : Outcome Aggregator)
        → (o >>= λ b. ok (put n b (put n a g))) ≡ (o >>= λ b. ok (put n b g))
    second a (ok b) = ap ok (put-put n a b g)
    second a fault = refl

    first :
        (o : Outcome Aggregator)
        → ((o >>= λ a. ok (put n a g)) >>= spec_put n c)
          ≡ ((o >>= λ a. absorb (some a) c) >>= λ b. ok (put n b g))
    first (ok a) = rw (==_refl n) (second a (absorb (some a) c))
    first fault = refl

other_name :
    (n m : Bytes) (d c : Aggregator) (g : View)
    → (n == m) ≡ false
    → (spec_put n d g >>= spec_put m c)
      ≡ (absorb (g n) d >>= λ a. absorb (g m) c >>= λ b. ok (put m b (put n a g)))
other_name n m d c g apart = first (absorb (g n) d)
  where
    first :
        (o : Outcome Aggregator)
        → ((o >>= λ a. ok (put n a g)) >>= spec_put m c)
          ≡ (o >>= λ a. absorb (g m) c >>= λ b. ok (put m b (put n a g)))
    first (ok a) = rw apart refl
    first fault = refl

swap_binds :
    (o k : Outcome Aggregator) (n m : Bytes) (g : View)
    → (n == m) ≡ false
    → (o >>= λ a. k >>= λ b. ok (put m b (put n a g)))
      ≡ (k >>= λ b. o >>= λ a. ok (put n a (put m b g)))
swap_binds (ok a) (ok b) n m g apart = ap ok (put-swap n m a b g apart)
swap_binds (ok a) fault n m g apart = refl
swap_binds fault (ok b) n m g apart = refl
swap_binds fault fault n m g apart = refl

spec_put-swap :
    (n m : Bytes) (d c : Aggregator) (g : View)
    → (spec_put n d g >>= spec_put m c) ≡ (spec_put m c g >>= spec_put n d)
spec_put-swap n m d c g = elim (Bool-cases (n == m)) [
  | inl same ↦
      subst (λ (k : Bytes). (spec_put n d g >>= spec_put k c) ≡ (spec_put k c g >>= spec_put n d))
        ((bytes_beq_iff n m).0 same)
        (same_name n d c g
          ∙ ap (λ (o : Outcome Aggregator). o >>= λ b. ok (put n b g)) (absorb-swap (g n) d c)
          ∙ sym (same_name n c d g))
  | inr apart ↦
      other_name n m d c g apart
      ∙ swap_binds (absorb (g n) d) (absorb (g m) c) n m g apart
      ∙ sym (other_name m n c d g (ground (arith, apart, bytes_beq_iff n m, bytes_beq_iff m n)))
]

abbrev failing : View → Outcome View
failing g = fault

bind_fault : (o : Outcome View) → (o >>= failing) ≡ fault
bind_fault (ok a) = refl
bind_fault fault = refl

bind_assoc {ℓ} :
    {A : Type ℓ} (o : Outcome A) (f h : A → Outcome A) → (o >>= λ a. f a >>= h) ≡ ((o >>= f) >>= h)
bind_assoc (ok a) f h = refl
bind_assoc fault f h = refl

aggs-swap :
    (n m : Bytes) (p q : Option Aggregator) (g : View)
    → (spec_entry (record { name = n; agg = p }) g >>= spec_entry (record { name = m; agg = q }))
      ≡ (spec_entry (record { name = m; agg = q }) g >>= spec_entry (record { name = n; agg = p }))
aggs-swap n m none none g = refl
aggs-swap n m none (some c) g = sym (bind_fault (spec_put m c g))
aggs-swap n m (some d) none g = bind_fault (spec_put n d g)
aggs-swap n m (some d) (some c) g = spec_put-swap n m d c g

spec_entry-swap :
    (x y : Entry) (g : View) → (spec_entry x g >>= spec_entry y) ≡ (spec_entry y g >>= spec_entry x)
spec_entry-swap x y g = aggs-swap x.name y.name x.agg y.agg g

spec_entries-order :
    {es es' : List Entry} → Permᴰ es es' → (g : View) → spec_entries es g ≡ spec_entries es' g
spec_entries-order Permᴰ.nil g = refl
spec_entries-order (Permᴰ.cons {a = a} {l₁ = l₁} e p) g =
    ap (λ (f : View → Outcome View). spec_entry a g >>= f) (fun_ext (λ k. spec_entries-order p k))
    ∙ rw e refl
spec_entries-order (Permᴰ.swap {a = a} {b = b} {l = l} e f) g =
    bind_assoc (spec_entry a g) (spec_entry b) (spec_entries l)
    ∙ ap (λ (o : Outcome View). o >>= spec_entries l) (spec_entry-swap a b g)
    ∙ sym (bind_assoc (spec_entry b g) (spec_entry a) (spec_entries l))
    ∙ rw (e, f) refl
spec_entries-order (Permᴰ.trans p q) g = spec_entries-order p g ∙ spec_entries-order q g

-- Whatever the order in which entries come to the server, the outcome is one: each name has the same
-- aggregator in the end, or the server aborts on a type that does not match in every order.
pub write_entries-order :
    (es es' : List Entry)
    → Permᴰ es es'
    → (s : Server) → seen (write_entries es s) ≡ seen (write_entries es' s)
write_entries-order es es' p s =
    write_entries_lem es s ∙ spec_entries-order p (view s) ∙ sym (write_entries_lem es' s)
