-- ===== src/Thread/MpscQueue/Order.antt =====
-- First in, first out: whatever the threads do between the two writes of a push, the values come out
-- in the order of the exchanges, each once, and no step meets a deleted node.
use prpc.Base.{
  ◌≤◌, ◌≡◌, refl, sym, ap, ◌∙◌, subst, inl, inr, true, false, Option, none, some, List, [], ◌∷◌,
  ◌++◌, append-nil, nat_eq, eqb, arith, Bool-cases, Option-cases,
}
use prpc.Base.Maps.{Map, find, assign, erase, find-erase}
use prpc.Base.Outcome.{ok}
use prpc.Thread.MpscQueue.{
  Ptr, Node, MpscQueue, new_queue, exchange, link, pop, top, Event, exchanges, links_up, pops, run,
  popped, pushed,
}
use prpc.Thread.MpscQueue.Chain.{
  values, Chain, among, apart, head_among, Chain-frame, Chain-exchange, Chain-link, off_key,
  off_erased,
}

module _ {T : Type 0} where
  -- The queue stands for the nodes `xs` behind its tail.
  pub record IsQueue (q : MpscQueue T) (xs : List (Ptr × T)) : Type 0 where
    pub chain : Chain q.store q.links q.tail xs q.head
    pub known : (p n : Ptr) → find p q.links ≡ some n → among p q.tail xs ≡ true
    pub fresh : (a : Ptr) → q.unused ≤ a → (find a q.store ≡ none) × (find a q.links ≡ none)

  new_queue-IsQueue : IsQueue new_queue []
  unfolding new_queue find
  new_queue-IsQueue = record {
    chain = (refl, (none, refl), refl);
    known = λ p n e. cc e;
    fresh = λ a i. (ground (arith, i), refl);
  }

  -- An address that is not in use is not in the chain.
  outside :
      (m : Map Ptr (Node T)) (l : Map Ptr Ptr) (a : Ptr) (xs : List (Ptr × T)) (h n : Ptr)
      → Chain m l a xs h
      → find n m ≡ none
      → among n a xs ≡ false
  outside m l a [] h n (last, (v, node), due) e = elim (Bool-cases (eqb a n)) [
    | inl k ↦ let same : a ≡ n = ground (arith, k) in cc (same, node, e)
    | inr k ↦ rw (k) refl
  ]
  outside m l a ((b, w) ∷ xs) h n (before, node, off, rest) e = elim (Bool-cases (eqb a n)) [
    | inl k ↦
        let same : a ≡ n = ground (arith, k) in
        elim before.1 [ inl (f, d) ↦ cc (same, f, e) | inr (f, d) ↦ cc (same, f, e) ]
    | inr k ↦ rw (k) (outside m l b xs h n rest e)
  ]

  among_more :
      (c a : Ptr) (xs : List (Ptr × T)) (n : Ptr) (v : T)
      → among c a xs ≡ true
      → among c a (xs ++ ((n, v) ∷ [])) ≡ true
  among_more c a [] n v i = ground (arith, i)
  among_more c a ((b, w) ∷ xs) n v i = elim (Bool-cases (eqb a c)) [
    | inl k ↦ rw (k) refl
    | inr k ↦ rw (k) (among_more c b xs n v (rw (k) at i))
  ]

  different :
      (c d a : Ptr) (xs : List (Ptr × T))
      → among c a xs ≡ true
      → among d a xs ≡ false
      → eqb c d ≡ false
  different c d a xs i out = elim (Bool-cases (eqb c d)) [
    | inl e ↦ let same : c ≡ d = ground (arith, e) in cc (same, i, out)
    | inr e ↦ e
  ]

  exchange-IsQueue :
      (q : MpscQueue T) (xs : List (Ptr × T)) (v : T)
      → IsQueue q xs
      → IsQueue (exchange v q) (xs ++ ((q.unused, v) ∷ []))
  unfolding exchange
  exchange-IsQueue q xs v h =
      let (free, idle) = h.fresh q.unused (omega arith) in
      record {
        chain =
            Chain-exchange q.store q.links q.tail xs q.head q.unused v h.chain
              (outside q.store q.links q.tail xs q.head q.unused h.chain free) idle;
        known = λ p n e. elim (Bool-cases (eqb q.head p)) [
          | inl k ↦
              let same : q.head ≡ p = ground (arith, k) in
              among_more p q.tail xs q.unused v (
                subst (λ c. among c q.tail xs ≡ true) same
                  (head_among q.store q.links q.tail xs q.head h.chain))
          | inr k ↦
              among_more p q.tail xs q.unused v
                (h.known p n (sym (off_key q.head p q.unused q.links k) ∙ e))
        ];
        fresh = λ a i.
            let (gone, none_due) = h.fresh a (omega (arith, i)) in
            let far : eqb q.unused a ≡ false = ground (arith, i) in
            let beyond : eqb q.head a ≡ false =
              different q.head a q.tail xs (head_among q.store q.links q.tail xs q.head h.chain)
                (outside q.store q.links q.tail xs q.head a h.chain gone) in
            (off_key q.unused a _ q.store far ∙ gone, off_key q.head a _ q.links beyond ∙ none_due);
      }

  link-IsQueue :
      (q : MpscQueue T) (xs : List (Ptr × T)) (p : Ptr)
      → IsQueue q xs
      → (r : MpscQueue T) × (link p q ≡ ok r) × IsQueue r xs
  unfolding link
  link-IsQueue q xs p h = elim (Option-cases (find p q.links)) [
    | inl e ↦ (q, rw (link, e) refl, h)
    | inr (n, e) ↦
        let inside = h.known p n e in
        let (node, there, chain) =
          Chain-link q.store q.links q.tail xs q.head p n h.chain inside e in
        (
          record q {
            store = assign p (record node { next = some n }) q.store;
            links = erase p q.links;
          },
          rw (link, e, there) refl,
          record {
            chain = chain;
            known = λ c k d. h.known c k (still p c k q.links d);
            fresh = λ a i.
                let (gone, none_due) = h.fresh a i in
                let far =
                  different p a q.tail xs inside
                    (outside q.store q.links q.tail xs q.head a h.chain gone) in
                (off_key p a _ q.store far ∙ gone, off_erased p a q.links far ∙ none_due);
          },
        )
  ]
    where
      still : (p c k : Ptr) (l : Map Ptr Ptr) → find c (erase p l) ≡ some k → find c l ≡ some k
      still p c k l d = ground (arith, d, find-erase p c l)

  -- What the consumer may take off the queue: the oldest value, or nothing.
  data Taken (out : Option T) (xs ys : List (Ptr × T)) : Type 0 where
    nothing : out ≡ none → xs ≡ ys → Taken out xs ys
    oldest : (b : Ptr) (v : T) → out ≡ some v → xs ≡ (b, v) ∷ ys → Taken out xs ys

  pop-IsQueue :
      (q : MpscQueue T) (xs : List (Ptr × T))
      → IsQueue q xs
      → (out : Option T) × (r : MpscQueue T) × (ys : List (Ptr × T)) × (pop q ≡ ok (out, r))
        × IsQueue r ys
        × Taken out xs ys
  unfolding pop
  pop-IsQueue q [] h =
      let (last, (v, node), due) = h.chain in
      (none, q, [], rw (pop, node) refl, h, nothing refl refl)
  pop-IsQueue q ((b, w) ∷ xs) h =
      let ((v, linked), (n, node), off, rest) = h.chain in
      elim linked [
        | inr (e, d) ↦ (none, q, (b, w) ∷ xs, rw (pop, e) refl, h, nothing refl refl)
        | inl (e, d) ↦ (
          some w,
          record q { tail = b; store = erase q.tail q.store },
          xs,
          rw (pop, e, node) refl,
          record {
            chain =
                Chain-frame q.store (erase q.tail q.store) q.links q.links b xs q.head rest
                  λ c i. (off_erased q.tail c q.store (apart q.tail c ((b, w) ∷ xs) off i), refl);
            known = λ p k f. elim (Bool-cases (eqb q.tail p)) [
              | inl same ↦ let tp : q.tail ≡ p = ground (arith, same) in cc (tp, d, f)
              | inr far ↦ rw (far) at (h.known p k f)
            ];
            fresh = λ a i.
                let (gone, none_due) = h.fresh a i in
                (ground (arith, gone, find-erase q.tail a q.store), none_due);
          },
          oldest b w refl refl,
        )
      ]

  values_more :
      (xs : List (Ptr × T)) (n : Ptr) (v : T) (rest : List T)
      → values (xs ++ ((n, v) ∷ [])) ++ rest ≡ values xs ++ (v ∷ rest)
  values_more [] n v rest = refl
  values_more ((b, w) ∷ xs) n v rest = ap (λ r. w ∷ r) (values_more xs n v rest)

  after :
      (v : Option T) (xs zs ys : List (Ptr × T)) (ps out : List T)
      → Taken v xs zs
      → values zs ++ ps ≡ out ++ values ys
      → values xs ++ ps ≡ (popped v ++ out) ++ values ys
  after v xs zs ys ps out (nothing e k) same = rw (e, k) same
  after v xs zs ys ps out (oldest b w e k) same = rw (e, k) (ap (λ r. w ∷ r) same)

  run-IsQueue :
      (es : List (Event T)) (q : MpscQueue T) (xs : List (Ptr × T))
      → IsQueue q xs
      → (out : List T) × (r : MpscQueue T) × (ys : List (Ptr × T)) × (run es q ≡ ok (out, r))
        × IsQueue r ys
        × (values xs ++ pushed es ≡ out ++ values ys)
  unfolding run
  run-IsQueue [] q xs h = ([], q, xs, refl, h, append-nil (values xs))
  run-IsQueue (exchanges v ∷ es) q xs h =
      let (out, r, ys, e, held, same) =
        run-IsQueue es (exchange v q) (xs ++ ((q.unused, v) ∷ [])) (exchange-IsQueue q xs v h) in
      (out, r, ys, e, held, sym (values_more xs q.unused v (pushed es)) ∙ same)
  run-IsQueue (links_up p ∷ es) q xs h =
      let (m, k, linked) = link-IsQueue q xs p h in
      let (out, r, ys, e, held, same) = run-IsQueue es m xs linked in
      (out, r, ys, rw (run, k) e, held, same)
  run-IsQueue (pops ∷ es) q xs h =
      let (v, m, zs, k, popped_one, taken) = pop-IsQueue q xs h in
      let (out, r, ys, e, held, same) = run-IsQueue es m zs popped_one in
      (
        popped v ++ out,
        r,
        ys,
        rw (run, k, e) refl,
        held,
        after v xs zs ys (pushed es) out taken same,
      )

  -- What the consumer finds at the tail, where `rest` are the values that are still to come: the
  -- oldest, or nothing, as there is none or its push has not stored the link yet.
  pub data Offers (q : MpscQueue T) (rest : List T) : Type 0 where
    empty : rest ≡ [] → top q ≡ ok none → Offers q rest
    front : (v : T) (vs : List T) → rest ≡ v ∷ vs → top q ≡ ok (some v) → Offers q rest
    unlinked : (n : Ptr) → find q.tail q.links ≡ some n → top q ≡ ok none → Offers q rest

  top-IsQueue : (q : MpscQueue T) (xs : List (Ptr × T)) → IsQueue q xs → Offers q (values xs)
  unfolding top
  top-IsQueue q [] h = let (last, (v, node), due) = h.chain in empty refl (rw (top, node) refl)
  top-IsQueue q ((b, w) ∷ xs) h =
      let ((v, linked), (n, node), off, rest) = h.chain in
      elim linked [
        | inl (e, d) ↦ front w (values xs) refl (rw (top, e, node) refl)
        | inr (e, d) ↦ unlinked b d (rw (top, e) refl)
      ]

  -- However the pushes of the threads, each as its two writes, interleave with each other and with
  -- the pops of the consumer, no step reads a deleted node. The values come out in the order of
  -- their exchanges, each once; and the consumer then finds the oldest of the rest, unless there is
  -- none or the store that links it is still to come.
  pub run-order :
      (es : List (Event T))
      → (out : List T) × (r : MpscQueue T) × (rest : List T) × (run es new_queue ≡ ok (out, r))
        × (pushed es ≡ out ++ rest)
        × Offers r rest
  run-order es =
      let (out, r, ys, e, held, same) = run-IsQueue es new_queue [] new_queue-IsQueue in
      (out, r, values ys, e, same, top-IsQueue r ys held)
