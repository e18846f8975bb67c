-- ===== src/Thread/MpscQueue/Chain.antt =====
-- The nodes of the queue as a chain from the tail to the head, and what each write does to it.
use prpc.Base.{
  ◌≡◌, refl, sym, ap, ◌∙◌, subst, ◌⊎◌, inl, inr, Bool, true, false, ◌||◌, Option, none, some, List,
  [], ◌∷◌, ◌++◌, nat_eq, eqb, arith, Bool-cases,
}
use prpc.Base.Maps.{Map, find, assign, erase, find-assign, find-erase}
use prpc.Thread.MpscQueue.{Ptr, Node}

module _ {V : Type 0} where
  pub at_key : (a : Ptr) (x : V) (m : Map Ptr V) → find a (assign a x m) ≡ some x
  at_key a x m = ground (arith, find-assign a a x m)

  pub off_key :
      (a b : Ptr) (x : V) (m : Map Ptr V) → eqb a b ≡ false → find b (assign a x m) ≡ find b m
  off_key a b x m e = rw (find-assign a b x m, e) refl

  pub at_erased : (a : Ptr) (m : Map Ptr V) → find a (erase a m) ≡ none
  at_erased a m = ground (arith, find-erase a a m)

  pub off_erased : (a b : Ptr) (m : Map Ptr V) → eqb a b ≡ false → find b (erase a m) ≡ find b m
  off_erased a b m e = rw (find-erase a b m, e) refl

eqb_sym : (a b : Ptr) → eqb a b ≡ false → eqb b a ≡ false
eqb_sym a b e = ground (arith, e)

module _ {T : Type 0} where
  abbrev pub holds : Ptr → List (Ptr × T) → Bool
  holds a [] = false
  holds a ((b, v) ∷ xs) = eqb b a || holds a xs

  abbrev pub values : List (Ptr × T) → List T
  values [] = []
  values ((b, v) ∷ xs) = v ∷ values xs

  -- `a` is followed by `b`: it points to it, or the push of `b` is still to store that.
  abbrev pub Before : Map Ptr (Node T) → Map Ptr Ptr → Ptr → Ptr → Type 0
  Before m l a b =
      (v : Option T) × ((find a m ≡ some (record { v = v; next = some b })) × (find a l ≡ none)
        ⊎ (find a m ≡ some (record { v = v; next = none })) × (find a l ≡ some b))

  -- The nodes after `a`, up to the head.
  abbrev pub Chain : Map Ptr (Node T) → Map Ptr Ptr → Ptr → List (Ptr × T) → Ptr → Type 0
  Chain m l a [] h =
      (a ≡ h)
      × ((v : Option T) × (find a m ≡ some (record { v = v; next = none })))
      × (find a l ≡ none)
  Chain m l a ((b, v) ∷ xs) h =
      Before m l a b
      × ((n : Option Ptr) × (find b m ≡ some (record { v = some v; next = n })))
      × (holds a ((b, v) ∷ xs) ≡ false)
      × Chain m l b xs h

  abbrev pub among : Ptr → Ptr → List (Ptr × T) → Bool
  among c a xs = eqb a c || holds c xs

  pub apart :
      (a c : Ptr) (xs : List (Ptr × T)) → holds a xs ≡ false → holds c xs ≡ true → eqb a c ≡ false
  apart a c xs out i = elim (Bool-cases (eqb a c)) [
    | inl e ↦ absurd (let same : a ≡ c = ground (arith, e) in ground (arith, same, out, i))
    | inr e ↦ e
  ]

  holds_more :
      (a : Ptr) (xs : List (Ptr × T)) (n : Ptr) (v : T)
      → holds a xs ≡ false
      → eqb n a ≡ false
      → holds a (xs ++ ((n, v) ∷ [])) ≡ false
  holds_more a [] n v out e = ground (arith, e)
  holds_more a ((b, w) ∷ xs) n v out e = elim (Bool-cases (eqb b a)) [
    | inl k ↦ absurd (ground (arith, k, out))
    | inr k ↦ rw (k) (holds_more a xs n v (rw (k) at out) e)
  ]

  -- A chain survives any change that spares its nodes and the pushes behind them.
  pub Chain-frame :
      (m g : Map Ptr (Node T)) (l k : Map Ptr Ptr) (a : Ptr) (xs : List (Ptr × T)) (h : Ptr)
      → Chain m l a xs h
      → ((c : Ptr) → among c a xs ≡ true → (find c g ≡ find c m) × (find c k ≡ find c l))
      → Chain g k a xs h
  Chain-frame m g l k a [] h (last, (v, node), none_due) same =
      let here = same a (ground arith) in (last, (v, here.0 ∙ node), here.1 ∙ none_due)
  Chain-frame m g l k a ((b, v) ∷ xs) h (before, (n, node), out, rest) same =
      let here = same a (ground arith) in
      let there = same b (ground arith) in
      (
        (
          before.0,
          elim before.1 [
            | inl (e, d) ↦ inl (here.0 ∙ e, here.1 ∙ d)
            | inr (e, d) ↦ inr (here.0 ∙ e, here.1 ∙ d)
          ],
        ),
        (n, there.0 ∙ node),
        out,
        Chain-frame m g l k b xs h rest (λ c i. same c (ground (arith, i))),
      )

  -- The head is one of the nodes.
  pub head_among :
      (m : Map Ptr (Node T)) (l : Map Ptr Ptr) (a : Ptr) (xs : List (Ptr × T)) (h : Ptr)
      → Chain m l a xs h
      → among h a xs ≡ true
  head_among m l a [] h (last, node, none_due) = ground (arith, last)
  head_among m l a ((b, v) ∷ xs) h (before, node, out, rest) =
      ground (arith, head_among m l b xs h rest)

  pub Chain-exchange :
      (m : Map Ptr (Node T)) (l : Map Ptr Ptr) (a : Ptr) (xs : List (Ptr × T)) (h n : Ptr) (v : T)
      → Chain m l a xs h
      → among n a xs ≡ false
      → find n l ≡ none
      → Chain
          (assign n (record { v = some v; next = none }) m)
          (assign h n l)
          a
          (xs ++ ((n, v) ∷ []))
          n
  Chain-exchange m l a [] h n v (last, (w, node), none_due) out idle =
      let a_not_n : eqb a n ≡ false = ground (arith, out) in
      (
        (
          w,
          inr (
            off_key n a _ m (eqb_sym a n a_not_n) ∙ node,
            ap (λ h. find a (assign h n l)) (sym last) ∙ at_key a n l,
          ),
        ),
        (none, at_key n _ m),
        ground (arith, eqb_sym a n a_not_n),
        (refl, (some v, at_key n _ m), off_key h n n l (ground (arith, last, a_not_n)) ∙ idle),
      )
  Chain-exchange m l a ((b, w) ∷ xs) h n v (before, (x, node), off, rest) out idle =
      let a_not_n : eqb a n ≡ false = ground (arith, out) in
      let b_not_n : eqb b n ≡ false = ground (arith, out) in
      let a_not_h : eqb a h ≡ false = apart a h ((b, w) ∷ xs) off (head_among m l b xs h rest) in
      let more = Chain-exchange m l b xs h n v rest (ground (arith, out)) idle in
      let cell = off_key n a (record { v = some v; next = none }) m (eqb_sym a n a_not_n) in
      let due = off_key h a n l (eqb_sym a h a_not_h) in
      (
        (
          before.0,
          elim before.1 [
            | inl (e, d) ↦ inl (cell ∙ e, due ∙ d)
            | inr (e, d) ↦ inr (cell ∙ e, due ∙ d)
          ],
        ),
        (x, off_key n b _ m (eqb_sym b n b_not_n) ∙ node),
        holds_more a ((b, w) ∷ xs) n v off (eqb_sym a n a_not_n),
        more,
      )

  abbrev pub Linked :
      Map Ptr (Node T) → Map Ptr Ptr → Ptr → List (Ptr × T) → Ptr → Ptr → Ptr → Type 0
  Linked m l a xs h p n =
      (node : Node T) × (find p m ≡ some node)
      × Chain (assign p (record node { next = some n }) m) (erase p l) a xs h

  link_first :
      (m : Map Ptr (Node T)) (l : Map Ptr Ptr) (a b : Ptr) (w : T) (xs : List (Ptr × T)) (h : Ptr)
      (v x : _)
      → find a m ≡ some (record { v = v; next = none })
      → find b m ≡ some (record { v = some w; next = x })
      → holds a ((b, w) ∷ xs) ≡ false
      → Chain m l b xs h
      → Linked m l a ((b, w) ∷ xs) h a b
  link_first m l a b w xs h v x e node off rest =
      let cell : Node T = record { v = v; next = some b } in
      (
        record { v = v; next = none },
        e,
        (
          (v, inl (at_key a cell m, at_erased a l)),
          (x, off_key a b cell m (apart a b ((b, w) ∷ xs) off (ground arith)) ∙ node),
          off,
          Chain-frame m (assign a cell m) l (erase a l) b xs h rest λ c i.
              let far : eqb a c ≡ false = apart a c ((b, w) ∷ xs) off i in
              (off_key a c cell m far, off_erased a c l far),
        ),
      )

  abbrev v_of : Option (Node T) → Option T
  v_of none = none
  v_of (some n) = n.v

  b_node :
      (m : Map Ptr (Node T)) (p b n : Ptr) (w : T) (x : Option Ptr) (node : Node T)
      → find b m ≡ some (record { v = some w; next = x })
      → find p m ≡ some node
      → (y : Option Ptr) × (find b (assign p (record node { next = some n }) m)
          ≡ some (record { v = some w; next = y }))
  b_node m p b n w x node e k = elim (Bool-cases (eqb p b)) [
    | inl same ↦
        let pb : p ≡ b = ground (arith, same) in
        let value : node.v ≡ some w = ap v_of (sym k ∙ ap (λ p. find p m) pb ∙ e) in
        (
          some n,
          ap (λ p. find b (assign p (record node { next = some n }) m)) pb
              ∙ at_key b (record node { next = some n }) m
              ∙ ap (λ v. some (record { v = v; next = some n })) value,
        )
    | inr far ↦ (x, off_key p b _ m far ∙ e)
  ]

  -- The store of a push that is due, to a node of the chain.
  pub Chain-link :
      (m : Map Ptr (Node T)) (l : Map Ptr Ptr) (a : Ptr) (xs : List (Ptr × T)) (h p n : Ptr)
      → Chain m l a xs h
      → among p a xs ≡ true
      → find p l ≡ some n
      → (node : Node T) × (find p m ≡ some node)
        × Chain (assign p (record node { next = some n }) m) (erase p l) a xs h
  Chain-link m l a [] h p n (last, (w, node), none_due) i due =
      let same : a ≡ p = ground (arith, i) in cc (same, none_due, due)
  Chain-link m l a ((b, w) ∷ xs) h p n (before, (x, node), off, rest) i due =
      elim (Bool-cases (eqb a p)) [
        | inl e ↦
            let a_is_p : a ≡ p = ground (arith, e) in
            elim before.1 [
              | inl (k, d) ↦ cc (a_is_p, d, due)
              | inr (k, d) ↦
                  let nb : b ≡ n = cc (a_is_p, d, due) in
                  subst (λ p. Linked m l a ((b, w) ∷ xs) h p n) a_is_p
                    (subst (λ n. Linked m l a ((b, w) ∷ xs) h a n) nb
                      (link_first m l a b w xs h before.0 x k node off rest))
            ]
        | inr e ↦
            let (cell, there, more) = Chain-link m l b xs h p n rest (rw (e) at i) due in
            let far : eqb p a ≡ false = eqb_sym a p e in
            (
              cell,
              there,
              (
                (
                  before.0,
                  elim before.1 [
                    | inl (k, d) ↦ inl (off_key p a _ m far ∙ k, off_erased p a l far ∙ d)
                    | inr (k, d) ↦ inr (off_key p a _ m far ∙ k, off_erased p a l far ∙ d)
                  ],
                ),
                b_node m p b n w x cell node there,
                off,
                more,
              ),
            )
      ]
