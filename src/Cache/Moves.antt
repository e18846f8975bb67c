-- ===== src/Cache/Moves.antt =====
-- `_delink_node` and `_push_node_to_front` on a cache whose list is in order.
use prpc.Base.{◌≡◌, refl, ◌∙◌, true, false, Option, none, some, List, [], ◌∷◌, ◌++◌}
use prpc.Base.{arith, eqb, nat_eq, inl, inr, Bool-cases, append-nil, if◌then◌else◌}
use prpc.Base.Maps.{find, assign, find-assign}
use prpc.Base.Outcome.{ok}
use prpc.Cache.{Ptr, LruCache, set_alone, points_to, unlink, delink_node, push_node_to_front}
use prpc.Cache.Links.{
  Cell, Store, has, first_or, last_or, node_of, Seg, frame, frame-assign, has-append, out_both,
  Apart, Seg-split, Seg-join, update_at, SameOutside, relink_next, relink_prev,
}

module _ {K : Type 0} where
  last_or-append :
      (ys zs : List (Cell K)) (p : Option Ptr) → last_or (ys ++ zs) p ≡ last_or zs (last_or ys p)
  last_or-append [] zs p = refl
  last_or-append (y ∷ ys) zs p = last_or-append ys zs (some y.at)

  -- A node that is not in a list is not its last one, and not its first one.
  not_last :
      (a : Ptr) (x : Cell K) (xs : List (Cell K))
      → has a (x ∷ xs) ≡ false
      → points_to (last_or xs (some x.at)) a ≡ false
  not_last a x [] out = ground (arith, out)
  not_last a x (y ∷ xs) out = not_last a y xs (ground (arith, out))

  -- The end pointers that are left when `x` goes.
  tail_without :
      (ys zs : List (Cell K)) (x : Cell K)
      → has x.at zs ≡ false
      → (if points_to (last_or (ys ++ (x ∷ zs)) none) x.at
          then last_or ys none
          else last_or (ys ++ (x ∷ zs)) none)
        ≡ last_or (ys ++ zs) none
  tail_without ys [] x out = rw (last_or-append ys (x ∷ []) none, append-nil) (ground arith)
  tail_without ys (z ∷ zs) x out =
      rw
        (
          last_or-append ys (x ∷ z ∷ zs) none,
          last_or-append ys (z ∷ zs) none,
          not_last x.at z zs out,
        )
        refl

  head_without :
      (ys zs : List (Cell K)) (x : Cell K)
      → has x.at ys ≡ false
      → (if points_to (first_or (ys ++ (x ∷ zs)) none) x.at
          then first_or zs none
          else first_or (ys ++ (x ∷ zs)) none)
        ≡ first_or (ys ++ zs) none
  head_without [] zs x out = ground arith
  head_without (y ∷ ys) zs x out = ground (arith, out)

  in_tail : (a : Ptr) (x : Cell K) (zs : List (Cell K)) → has a zs ≡ true → has a (x ∷ zs) ≡ true
  in_tail a x zs i = ground (arith, i)

  Apart-sym : (ys zs : List (Cell K)) → Apart ys zs → (a : Ptr) → has a ys ≡ true → has a zs ≡ false
  Apart-sym ys zs apart a i = elim (Bool-cases (has a zs)) [ inl e ↦ cc (apart a e, i) | inr e ↦ e ]

  out_parts :
      (a : Ptr) (x : Cell K) (ys zs : List (Cell K))
      → has a (ys ++ (x ∷ zs)) ≡ false
      → (has a ys ≡ false) × (eqb x.at a ≡ false) × (has a zs ≡ false)
  out_parts a x ys zs i = ground (arith, has-append a ys (x ∷ zs), i)

  -- The tail after a node is put in front.
  tail_stays :
      (a b : Ptr) (xs : List (Cell K))
      → elim (last_or xs (some b)) [ none ↦ some a | some c ↦ some c ] ≡ last_or xs (some b)
  tail_stays a b [] = refl
  tail_stays a b (x ∷ xs) = tail_stays a x.at xs

  tail_before :
      (a : Ptr) (xs : List (Cell K))
      → elim (last_or xs none) [ none ↦ some a | some c ↦ some c ] ≡ last_or xs (some a)
  tail_before a [] = refl
  tail_before a (x ∷ xs) = tail_stays a x.at xs

  out_first :
      (a : Ptr) (x : Cell K) (xs : List (Cell K)) → has a (x ∷ xs) ≡ false → eqb x.at a ≡ false
  out_first a x xs i = ground (arith, i)

  out_rest : (a : Ptr) (x : Cell K) (xs : List (Cell K)) → has a (x ∷ xs) ≡ false → has a xs ≡ false
  out_rest a x xs i = ground (arith, i)

  -- The three writes of `_delink_node`.
  unlink-Seg :
      (m : Store K) (ys zs : List (Cell K)) (x : Cell K)
      → Seg m none (ys ++ (x ∷ zs)) none
      → (g : Store K) × (unlink x.at (node_of x (last_or ys none) (first_or zs none)) m ≡ ok g)
        × Seg g none (ys ++ zs) none
        × (find x.at g ≡ some (node_of x none none))
        × SameOutside (ys ++ (x ∷ zs)) m g
  unfolding unlink
  unlink-Seg m ys zs x s =
      let (left, mid, apart) = Seg-split m none ys (x ∷ zs) none s in
      let beyond : Apart ys zs = λ a i. apart a (in_tail a x zs i) in
      let gone : has x.at ys ≡ false = apart x.at (ground arith) in
      let (m1, e1, left1, same1) = relink_next m none ys (some x.at) (first_or zs none) left in
      let right1 = frame m m1 (some x.at) zs none mid.2 (λ a i. same1 a (beyond a i)) in
      let (m2, e2, right2, same2) = relink_prev m1 (some x.at) zs none (last_or ys none) right1 in
      let left2 =
        frame m1 m2 none ys (first_or zs none) left1
          (λ a i. same2 a (Apart-sym ys zs beyond a i)) in
      let held = same2 x.at mid.1 ∙ same1 x.at gone ∙ mid.0 in
      let alone = node_of x none none in
      let both = Seg-join m2 none ys zs none left2 right2 beyond in
      (
        assign x.at alone m2,
        rw (e1, e2)
            (update_at m2 x.at (node_of x (last_or ys none) (first_or zs none)) set_alone held),
        frame-assign m2 x.at alone none (ys ++ zs) none both (out_both x.at ys zs gone mid.1),
        ground (arith, find-assign x.at x.at alone m2),
        λ a i.
            let parts = out_parts a x ys zs i in
            rw (find-assign x.at a alone m2, parts.1) (same2 a parts.2 ∙ same1 a parts.0),
      )

  -- The node `x` leaves the list, wherever it stands in it.
  pub delink_node-Seg :
      {V : Type 0} (c : LruCache K V) (ys zs : List (Cell K)) (x : Cell K)
      → Seg c.store none (ys ++ (x ∷ zs)) none
      → c.head ≡ first_or (ys ++ (x ∷ zs)) none
      → c.tail ≡ last_or (ys ++ (x ∷ zs)) none
      → (g : Store K) × (delink_node x.at c
          ≡ ok (record c {
            store = g;
            head = first_or (ys ++ zs) none;
            tail = last_or (ys ++ zs) none;
          }))
        × Seg g none (ys ++ zs) none
        × (find x.at g ≡ some (node_of x none none))
        × SameOutside (ys ++ (x ∷ zs)) c.store g
        × (has x.at (ys ++ zs) ≡ false)
  unfolding delink_node
  delink_node-Seg c ys zs x s at_head at_tail =
      let (left, mid, apart) = Seg-split c.store none ys (x ∷ zs) none s in
      let (g, e, chain, alone, same) = unlink-Seg c.store ys zs x s in
      (
        g,
        rw
            (
              delink_node,
              mid.0,
              at_head,
              at_tail,
              e,
              tail_without ys zs x mid.1,
              head_without ys zs x (apart x.at (ground arith)),
            )
            refl,
        chain,
        alone,
        same,
        out_both x.at ys zs (apart x.at (ground arith)) mid.1,
      )

  pub push_node_to_front-Seg :
      {V : Type 0} (c : LruCache K V) (xs : List (Cell K)) (x : Cell K) (p q : Option Ptr)
      → Seg c.store none xs none
      → c.head ≡ first_or xs none
      → c.tail ≡ last_or xs none
      → find x.at c.store ≡ some (node_of x p q)
      → has x.at xs ≡ false
      → (g : Store K) × (push_node_to_front x.at c
          ≡ ok (record c { store = g; head = some x.at; tail = last_or (x ∷ xs) none }))
        × Seg g none (x ∷ xs) none
        × SameOutside (x ∷ xs) c.store g
  unfolding push_node_to_front
  push_node_to_front-Seg c xs x p q s at_head at_tail held out =
      let (m1, e1, chain, same) = relink_prev c.store none xs none (some x.at) s in
      let n = node_of x none (first_or xs none) in
      (
        assign x.at n m1,
        rw
            (
              at_head,
              at_tail,
              e1,
              update_at m1 x.at (node_of x p q)
                  (λ n. record n { prev = none; next = first_or xs none }) (same x.at out ∙ held),
            )
            (rw (tail_before x.at xs) refl),
        (
          ground (arith, find-assign x.at x.at n m1),
          out,
          frame-assign m1 x.at n (some x.at) xs none chain out,
        ),
        λ a i. rw (find-assign x.at a n m1, out_first a x xs i) (same a (out_rest a x xs i)),
      )

  not_first :
      (a : Ptr) (xs : List (Cell K)) → has a xs ≡ false → points_to (first_or xs none) a ≡ false
  not_first a [] out = refl
  not_first a (x ∷ xs) out = ground (arith, out)

  not_tail :
      (a : Ptr) (xs : List (Cell K)) → has a xs ≡ false → points_to (last_or xs none) a ≡ false
  not_tail a [] out = refl
  not_tail a (x ∷ xs) out = not_last a x xs out

  -- A node that is in no list stays alone.
  pub delink_node-alone :
      {V : Type 0} (c : LruCache K V) (xs : List (Cell K)) (x : Cell K)
      → Seg c.store none xs none
      → c.head ≡ first_or xs none
      → c.tail ≡ last_or xs none
      → find x.at c.store ≡ some (node_of x none none)
      → has x.at xs ≡ false
      → delink_node x.at c
        ≡ ok (record c {
          store = assign x.at (node_of x none none) c.store;
          head = first_or xs none;
          tail = last_or xs none;
        })
  unfolding delink_node unlink
  delink_node-alone c xs x s at_head at_tail held out =
      rw
        (
          delink_node,
          held,
          update_at c.store x.at (node_of x none none) set_alone held,
          at_head,
          at_tail,
          not_first x.at xs out,
          not_tail x.at xs out,
        )
        refl
