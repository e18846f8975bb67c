-- ===== src/Cache/Cells.antt =====
-- The cache as a list of its entries, the one that was used last in front: where a key stands in it,
-- and what it is without an entry.
use prpc.Base.{
  ℕ, suc, ◌+◌, ◌≤◌, ◌≡◌, refl, ap, false, ◌||◌, Option, none, some, List, [], ◌∷◌, ◌++◌,
}
use prpc.Base.{arith, length, eqb, inl, inr, Bool-cases, if◌then◌else◌, Eq, ◌==◌}
use prpc.Cache.{Ptr, over}
use prpc.Cache.Links.{Cell, last_or, has}

module _ {K : Type 0} where
  abbrev pub total : List (Cell K) → ℕ
  total [] = 0
  total (x ∷ xs) = x.usage + total xs

  abbrev pub drop_last : List (Cell K) → List (Cell K)
  drop_last [] = []
  drop_last (x ∷ []) = []
  drop_last (x ∷ y ∷ xs) = x ∷ drop_last (y ∷ xs)

  -- The last entry goes where there are too many, or they are too large.
  abbrev pub trim : ℕ → ℕ → List (Cell K) → List (Cell K)
  trim max_item_count max_item_memory_usage xs =
      if over max_item_count (length xs) || over max_item_memory_usage (total xs)
      then drop_last xs
      else xs

  pub split_last :
      (x : Cell K) (xs : List (Cell K))
      → (l : Cell K) × (x ∷ xs ≡ drop_last (x ∷ xs) ++ (l ∷ []))
        × (last_or xs (some x.at) ≡ some l.at)
  split_last x [] = (x, refl, refl)
  split_last x (y ∷ xs) = let (l, e, at) = split_last y xs in (l, ap (x ∷◌) e, at)

  pub length-without :
      (ys zs : List (Cell K)) (x : Cell K) → length (ys ++ (x ∷ zs)) ≡ suc (length (ys ++ zs))
  length-without [] zs x = refl
  length-without (y ∷ ys) zs x = ap suc (length-without ys zs x)

  pub total-without :
      (ys zs : List (Cell K)) (x : Cell K) → total (ys ++ (x ∷ zs)) ≡ x.usage + total (ys ++ zs)
  total-without [] zs x = refl
  total-without (y ∷ ys) zs x = omega (arith, total-without ys zs x)

module _ {K : Type 0} ⦃equal : Eq K⦄ where
  -- The address of the node for a key.
  abbrev pub lookup : K → List (Cell K) → Option Ptr
  lookup k [] = none
  lookup k (x ∷ xs) = if x.key == k then some x.at else lookup k xs

  -- No key has two nodes.
  abbrev pub Keyed : List (Cell K) → Type 0
  Keyed [] = Unit
  Keyed (x ∷ xs) = (lookup x.key xs ≡ none) × Keyed xs

  pub lookup_split :
      (k : K) (a : Ptr) (xs : List (Cell K))
      → lookup k xs ≡ some a
      → (ys zs : List (Cell K)) × (x : Cell K) × (xs ≡ ys ++ (x ∷ zs)) × (x.key ≡ k) × (x.at ≡ a)
  lookup_split k a (x ∷ xs) h = elim (Bool-cases (x.key == k)) [
    | inl e ↦ ([], xs, x, refl, (equal.beq_iff x.key k).0 e, ground (arith, h, e))
    | inr e ↦
        let (ys, zs, z, same, key, at) = lookup_split k a xs (ground (arith, h, e)) in
        (x ∷ ys, zs, z, ap (x ∷◌) same, key, at)
  ]
  lookup_split k a [] h = absurd (ground (arith, h))

  lookup-none :
      (k : K) (ys zs : List (Cell K)) (x : Cell K)
      → lookup k (ys ++ (x ∷ zs)) ≡ none
      → ((x.key == k) ≡ false) × (lookup k (ys ++ zs) ≡ none)
  lookup-none k [] zs x h = elim (Bool-cases (x.key == k)) [
    | inl e ↦ absurd (ground (arith, h, e))
    | inr e ↦ (e, ground (arith, h, e))
  ]
  lookup-none k (y ∷ ys) zs x h = elim (Bool-cases (y.key == k)) [
    | inl e ↦ absurd (ground (arith, h, e))
    | inr e ↦ let rest = lookup-none k ys zs x (ground (arith, h, e)) in (rest.0, rw (e) rest.1)
  ]

  pub Keyed-without :
      (ys zs : List (Cell K)) (x : Cell K)
      → Keyed (ys ++ (x ∷ zs))
      → Keyed (ys ++ zs) × (lookup x.key (ys ++ zs) ≡ none)
  Keyed-without [] zs x h = (h.1, h.0)
  Keyed-without (y ∷ ys) zs x h =
      let (rest, out) = Keyed-without ys zs x h.1 in
      let (other, gone) = lookup-none y.key ys zs x h.0 in
      (
        (gone, rest),
        ground (arith, out, other, equal.beq_iff x.key y.key, equal.beq_iff y.key x.key),
      )

  pub lookup-without :
      (j : K) (ys zs : List (Cell K)) (x : Cell K)
      → Keyed (ys ++ (x ∷ zs))
      → lookup j (ys ++ (x ∷ zs)) ≡ (if x.key == j then some x.at else lookup j (ys ++ zs))
  lookup-without j [] zs x h = refl
  lookup-without j (y ∷ ys) zs x h =
      let (other, gone) = lookup-none y.key ys zs x h.0 in
      ground (
        arith,
        lookup-without j ys zs x h.1,
        other,
        equal.beq_iff x.key j,
        equal.beq_iff y.key j,
        equal.beq_iff x.key y.key,
      )

  lookup-drop_last :
      (k : K) (xs : List (Cell K)) → lookup k xs ≡ none → lookup k (drop_last xs) ≡ none
  lookup-drop_last k [] h = refl
  lookup-drop_last k (x ∷ []) h = refl
  lookup-drop_last k (x ∷ y ∷ xs) h = elim (Bool-cases (x.key == k)) [
    | inl e ↦ absurd (ground (arith, h, e))
    | inr e ↦ rw (e) (lookup-drop_last k (y ∷ xs) (rw (e) at h))
  ]

  pub lookup-trim :
      (k : K) (m n : ℕ) (xs : List (Cell K)) → lookup k xs ≡ none → lookup k (trim m n xs) ≡ none
  lookup-trim k m n xs h = elim (Bool-cases (over m (length xs) || over n (total xs))) [
    | inl e ↦ rw (e) (lookup-drop_last k xs h)
    | inr e ↦ rw (e) h
  ]

module _ {K : Type 0} where
  has-drop_last : (a : Ptr) (xs : List (Cell K)) → has a xs ≡ false → has a (drop_last xs) ≡ false
  has-drop_last a [] h = refl
  has-drop_last a (x ∷ []) h = refl
  has-drop_last a (x ∷ y ∷ xs) h = elim (Bool-cases (eqb x.at a)) [
    | inl e ↦ absurd (ground (arith, h, e))
    | inr e ↦ rw (e) (has-drop_last a (y ∷ xs) (rw (e) at h))
  ]

  pub has-trim :
      (a : Ptr) (m n : ℕ) (xs : List (Cell K)) → has a xs ≡ false → has a (trim m n xs) ≡ false
  has-trim a m n xs h = elim (Bool-cases (over m (length xs) || over n (total xs))) [
    | inl e ↦ rw (e) (has-drop_last a xs h)
    | inr e ↦ rw (e) h
  ]

  length-drop_last : (xs : List (Cell K)) → length (drop_last xs) ≤ length xs
  length-drop_last [] = omega arith
  length-drop_last (x ∷ []) = omega arith
  length-drop_last (x ∷ y ∷ xs) = omega (arith, length-drop_last (y ∷ xs))

  total-drop_last : (xs : List (Cell K)) → total (drop_last xs) ≤ total xs
  total-drop_last [] = omega arith
  total-drop_last (x ∷ []) = omega arith
  total-drop_last (x ∷ y ∷ xs) = omega (arith, total-drop_last (y ∷ xs))

  pub length-trim : (m n : ℕ) (xs : List (Cell K)) → length (trim m n xs) ≤ length xs
  length-trim m n xs = elim (Bool-cases (over m (length xs) || over n (total xs))) [
    | inl e ↦ rw (e) (length-drop_last xs)
    | inr e ↦ rw (e) (omega arith)
  ]

  pub total-trim : (m n : ℕ) (xs : List (Cell K)) → total (trim m n xs) ≤ total xs
  total-trim m n xs = elim (Bool-cases (over m (length xs) || over n (total xs))) [
    | inl e ↦ rw (e) (total-drop_last xs)
    | inr e ↦ rw (e) (omega arith)
  ]
