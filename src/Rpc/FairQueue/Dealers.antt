-- ===== src/Rpc/FairQueue/Dealers.antt =====
-- The two loops of `remove_server_dealer`, which fill a gap with the last element.
use prpc.Base.{
  ℕ, zero, suc, ◌+◌, ◌≡◌, ◌≤◌, ◌<◌, refl, ap, inl, inr, Bool, true, false, List, [], ◌∷◌, ◌++◌,
  arith, eqb, if◌then◌else◌, length, nat_eq, ◌==◌, Bool-cases,
}
use prpc.Rpc.FairQueue.{last_of, init_of, drop_dealer, drop_sid}

abbrev pub to_nat : Bool → ℕ
to_nat true = 1
to_nat false = 0

-- how often `x` stands in a vector
unfoldable pub count : ℕ → List ℕ → ℕ
count x [] = 0
count x (y ∷ ys) = to_nat (eqb y x) + count x ys

pub count-append : (x : ℕ) (ys zs : List ℕ) → count x (ys ++ zs) ≡ count x ys + count x zs
unfolding count
count-append x [] zs = omega arith
count-append x (y ∷ ys) zs = omega (arith, count-append x ys zs)

count-last-init :
    (x y : ℕ) (ys : List ℕ)
    → to_nat (eqb (last_of y ys) x) + count x (init_of y ys) ≡ count x (y ∷ ys)
unfolding count
count-last-init x y [] = refl
count-last-init x y (z ∷ ys) = omega (arith, count-last-init x z ys)

length-init : (y : ℕ) (ys : List ℕ) → length (init_of y ys) ≡ length ys
length-init y [] = refl
length-init y (z ∷ ys) = ap suc (length-init z ys)

drop_dealer_absent : (f d : ℕ) (ds : List ℕ) → count d ds ≡ 0 → drop_dealer f d ds ≡ ds
unfolding drop_dealer count
drop_dealer_absent zero d ds h = refl
drop_dealer_absent (suc f) d [] h = refl
drop_dealer_absent (suc f) d (x ∷ ds) h =
    let rest = drop_dealer_absent f d ds (omega arith) in ground (arith, h, rest)

-- The vector behind the loop: the other dealers are as many as before, and it is shorter by those
-- taken away.
pub record Dropped (d : ℕ) (ds es : List ℕ) : Type 0 where
  pub counts : (x : ℕ) → count x es ≡ (if x == d then 0 else count x ds)
  pub size : length es + count d ds ≡ length ds

swap_Dropped :
    (d x y : ℕ) (ys : List ℕ)
    → (x == d) ≡ true
    → count d (y ∷ ys) ≡ 0
    → Dropped d (x ∷ y ∷ ys) (last_of y ys ∷ init_of y ys)
unfolding count
swap_Dropped d x y ys h c = record {
  counts = λ e. ground (arith, h, c, count-last-init e y ys);
  size = ground (arith, h, c, length-init y ys);
}

-- A dealer that is registered once is taken away, and no other.
pub drop_dealer-Dropped :
    (f d : ℕ) (ds : List ℕ) → length ds ≤ f → count d ds ≤ 1 → Dropped d ds (drop_dealer f d ds)
unfolding drop_dealer count
drop_dealer-Dropped zero d [] h c = record { counts = λ x. ground arith; size = refl }
drop_dealer-Dropped zero d (x ∷ ds) h c = absurd (omega arith)
drop_dealer-Dropped (suc f) d [] h c = record { counts = λ x. ground arith; size = refl }
drop_dealer-Dropped (suc f) d (x ∷ []) h c = elim (Bool-cases (x == d)) [
  | inl same ↦ rw same (record { counts = λ e. ground (arith, same); size = ground (arith, same) })
  | inr other ↦
      rw (other, drop_dealer_absent f d [] refl)
        (record { counts = λ e. ground (arith, other); size = ground (arith, other) })
]
drop_dealer-Dropped (suc f) d (x ∷ y ∷ ys) h c = elim (Bool-cases (x == d)) [
  | inl same ↦
      let none_left : count d (y ∷ ys) ≡ 0 = ground (arith, same, c) in
      rw (same, drop_dealer_absent f d (init_of y ys) (omega (arith, count-last-init d y ys)))
        (swap_Dropped d x y ys same none_left)
  | inr other ↦
      let r = drop_dealer-Dropped f d (y ∷ ys) (omega arith) (ground (arith, other, c)) in
      rw other (record {
        counts = λ e. ground (arith, other, r.counts e);
        size = ground (arith, other, r.size);
      })
]

-- One occurrence of the id is taken away.
pub count-drop_sid :
    (sid x : ℕ) (xs : List ℕ)
    → 0 < count sid xs
    → count x (drop_sid sid xs) + to_nat (sid == x) ≡ count x xs
unfolding drop_sid count
count-drop_sid sid x [] h = absurd (omega arith)
count-drop_sid sid x (y ∷ []) h = ground (arith, h)
count-drop_sid sid x (y ∷ z ∷ zs) h = elim (Bool-cases (y == sid)) [
  | inl same ↦ rw same (ground (arith, same, count-last-init x z zs))
  | inr other ↦
      rw other (ground (arith, other, count-drop_sid sid x (z ∷ zs) (ground (arith, other, h))))
]
