-- ===== src/Cache/Links.antt =====
-- The doubly linked list of the cache: what its nodes stand for, and how the list changes where a
-- node is taken out or put in front.
use prpc.Base.{ℕ, ◌≡◌, refl, ◌∙◌, Bool, true, false, ◌||◌, Option, none, some, List, [], ◌∷◌, ◌++◌}
use prpc.Base.{arith, eqb, nat_eq, inl, inr, Bool-cases}
use prpc.Base.Maps.{Map, find, assign, find-assign}
use prpc.Base.Outcome.{ok}
use prpc.Cache.{Ptr, ListNode, update, update_if, set_next, set_prev}

-- A node of the list: its address, its key and its memory usage.
pub record Cell (K : Type 0) : Type 0 where
  pub at : Ptr
  pub key : K
  pub usage : ℕ

abbrev pub Store : Type 0 → Type 0
Store K = Map Ptr (ListNode K)

module _ {K : Type 0} where
  abbrev pub has : Ptr → List (Cell K) → Bool
  has a [] = false
  has a (x ∷ xs) = eqb x.at a || has a xs

  abbrev pub first_or : List (Cell K) → Option Ptr → Option Ptr
  first_or [] q = q
  first_or (x ∷ xs) q = some x.at

  abbrev pub last_or : List (Cell K) → Option Ptr → Option Ptr
  last_or [] p = p
  last_or (x ∷ xs) p = last_or xs (some x.at)

  abbrev pub node_of : Cell K → Option Ptr → Option Ptr → ListNode K
  node_of x p q = record { key = x.key; value_memory_usage = x.usage; prev = p; next = q }

  -- Every node points to the ones beside it; `p` stands before the first and `q` after the last.
  abbrev pub Seg : Store K → Option Ptr → List (Cell K) → Option Ptr → Type 0
  Seg m p [] q = Unit
  Seg m p (x ∷ xs) q =
      (find x.at m ≡ some (node_of x p (first_or xs q)))
      × (has x.at xs ≡ false)
      × Seg m (some x.at) xs q

  -- A segment survives any change that spares its own nodes.
  pub frame :
      (m g : Store K) (p : Option Ptr) (xs : List (Cell K)) (q : Option Ptr)
      → Seg m p xs q
      → ((a : Ptr) → has a xs ≡ true → find a g ≡ find a m)
      → Seg g p xs q
  frame m g p [] q s same = tt
  frame m g p (x ∷ xs) q s same = (
    same x.at (ground arith) ∙ s.0,
    s.1,
    frame m g (some x.at) xs q s.2 (λ a i. same a (ground (arith, i))),
  )

  pub frame-assign :
      (m : Store K) (a : Ptr) (n : ListNode K) (p : Option Ptr) (xs : List (Cell K))
      (q : Option Ptr)
      → Seg m p xs q
      → has a xs ≡ false
      → Seg (assign a n m) p xs q
  frame-assign m a n p xs q s out =
      frame m (assign a n m) p xs q s λ b i. ground (arith, find-assign a b n m, apart b i)
    where
      apart : (b : Ptr) → has b xs ≡ true → eqb a b ≡ false
      apart b i = elim (Bool-cases (eqb a b)) [
        | inl e ↦ absurd (let same : a ≡ b = ground (arith, e) in ground (arith, same, out, i))
        | inr e ↦ e
      ]

  pub has-append : (a : Ptr) (xs ys : List (Cell K)) → has a (xs ++ ys) ≡ (has a xs || has a ys)
  has-append a [] ys = refl
  has-append a (x ∷ xs) ys = ground (arith, has-append a xs ys)

  same_address :
      (a b : Ptr) (xs : List (Cell K)) → has a xs ≡ false → has b xs ≡ true → eqb a b ≡ false
  same_address a b xs out i = elim (Bool-cases (eqb a b)) [
    | inl e ↦ absurd (let same : a ≡ b = ground (arith, e) in ground (arith, same, out, i))
    | inr e ↦ e
  ]

  out_left : (a : Ptr) (xs ys : List (Cell K)) → has a (xs ++ ys) ≡ false → has a xs ≡ false
  out_left a xs ys h = ground (arith, has-append a xs ys, h)

  out_right : (a : Ptr) (xs ys : List (Cell K)) → has a (xs ++ ys) ≡ false → has a ys ≡ false
  out_right a xs ys h = ground (arith, has-append a xs ys, h)

  pub out_both :
      (a : Ptr) (xs ys : List (Cell K))
      → has a xs ≡ false
      → has a ys ≡ false
      → has a (xs ++ ys) ≡ false
  out_both a xs ys h k = ground (arith, has-append a xs ys, h, k)

  pub out_cons :
      (a : Ptr) (x : Cell K) (xs : List (Cell K))
      → eqb x.at a ≡ false
      → has a xs ≡ false
      → has a (x ∷ xs) ≡ false
  out_cons a x xs h k = rw (h) k

  out_tail : (a : Ptr) (x : Cell K) (xs : List (Cell K)) → has a (x ∷ xs) ≡ false → has a xs ≡ false
  out_tail a x xs h = ground (arith, h)

  out_head :
      (a : Ptr) (x : Cell K) (xs : List (Cell K)) → has a (x ∷ xs) ≡ false → eqb x.at a ≡ false
  out_head a x xs h = ground (arith, h)

  -- No address is in both lists.
  abbrev pub Apart : List (Cell K) → List (Cell K) → Type 0
  Apart ys zs = (a : Ptr) → has a zs ≡ true → has a ys ≡ false

  Apart-head : (y : Cell K) (ys zs : List (Cell K)) → Apart (y ∷ ys) zs → has y.at zs ≡ false
  Apart-head y ys zs apart = elim (Bool-cases (has y.at zs)) [
    | inl e ↦ let k = apart y.at e in ground (arith, k)
    | inr e ↦ e
  ]

  -- The two parts of a list, and that they share no address.
  pub Seg-split :
      (m : Store K) (p : Option Ptr) (ys zs : List (Cell K)) (q : Option Ptr)
      → Seg m p (ys ++ zs) q
      → Seg m p ys (first_or zs q) × Seg m (last_or ys p) zs q × Apart ys zs
  Seg-split m p [] zs q s = (tt, s, λ a i. refl)
  Seg-split m p (y ∷ []) zs q s =
      ((s.0, refl, tt), s.2, λ a i. out_cons a y [] (same_address y.at a zs s.1 i) refl)
  Seg-split m p (y ∷ x ∷ ys) zs q s =
      let (left, right, apart) = Seg-split m (some y.at) (x ∷ ys) zs q s.2 in
      (
        (s.0, out_left y.at (x ∷ ys) zs s.1, left),
        right,
        λ a i.
            out_cons a y (x ∷ ys) (same_address y.at a zs (out_right y.at (x ∷ ys) zs s.1) i)
              (apart a i),
      )

  pub Seg-join :
      (m : Store K) (p : Option Ptr) (ys zs : List (Cell K)) (q : Option Ptr)
      → Seg m p ys (first_or zs q)
      → Seg m (last_or ys p) zs q
      → Apart ys zs
      → Seg m p (ys ++ zs) q
  Seg-join m p [] zs q left right apart = right
  Seg-join m p (y ∷ []) zs q left right apart = (left.0, Apart-head y [] zs apart, right)
  Seg-join m p (y ∷ x ∷ ys) zs q left right apart = (
    left.0,
    out_both y.at (x ∷ ys) zs left.1 (Apart-head y (x ∷ ys) zs apart),
    Seg-join m (some y.at) (x ∷ ys) zs q left.2 right (λ a i. out_tail a y (x ∷ ys) (apart a i)),
  )

  pub update_at :
      (m : Store K) (a : Ptr) (n : ListNode K) (f : ListNode K → ListNode K)
      → find a m ≡ some n
      → update a f m ≡ ok (assign a (f n) m)
  unfolding update
  update_at m a n f e = rw (update, e) refl

  -- `m` and `g` differ at most at the nodes of `xs`.
  abbrev pub SameOutside : List (Cell K) → Store K → Store K → Type 0
  SameOutside xs m g = (a : Ptr) → has a xs ≡ false → find a g ≡ find a m

  pub relink_next :
      (m : Store K) (p : Option Ptr) (ys : List (Cell K)) (q r : Option Ptr)
      → Seg m p ys q
      → (g : Store K) × (update_if (last_or ys none) (set_next r) m ≡ ok g)
        × Seg g p ys r
        × SameOutside ys m g
  relink_next m p [] q r s = (m, refl, tt, λ a i. refl)
  relink_next m p (y ∷ []) q r s = (
    assign y.at (node_of y p r) m,
    update_at m y.at (node_of y p q) (set_next r) s.0,
    (ground (arith, find-assign y.at y.at (node_of y p r) m), refl, tt),
    λ a i. ground (arith, find-assign y.at a (node_of y p r) m, i),
  )
  relink_next m p (y ∷ x ∷ ys) q r s =
      let (g, e, right, same) = relink_next m (some y.at) (x ∷ ys) q r s.2 in
      (g, e, (same y.at s.1 ∙ s.0, s.1, right), λ a i. same a (ground (arith, i)))

  pub relink_prev :
      (m : Store K) (p : Option Ptr) (zs : List (Cell K)) (q r : Option Ptr)
      → Seg m p zs q
      → (g : Store K) × (update_if (first_or zs none) (set_prev r) m ≡ ok g)
        × Seg g r zs q
        × SameOutside zs m g
  relink_prev m p [] q r s = (m, refl, tt, λ a i. refl)
  relink_prev m p (z ∷ zs) q r s = (
    assign z.at (node_of z r (first_or zs q)) m,
    update_at m z.at (node_of z p (first_or zs q)) (set_prev r) s.0,
    (
      ground (arith, find-assign z.at z.at (node_of z r (first_or zs q)) m),
      s.1,
      frame-assign m z.at (node_of z r (first_or zs q)) (some z.at) zs q s.2 s.1,
    ),
    λ a i. ground (arith, find-assign z.at a (node_of z r (first_or zs q)) m, i),
  )
