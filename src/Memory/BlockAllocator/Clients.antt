-- ===== src/Memory/BlockAllocator/Clients.antt =====
-- Clients that give back only what they were given.
use prpc.Base.{
  ℕ, zero, suc, ◌+◌, ◌≡◌, refl, sym, ap, subst, ◌∙◌, inl, inr, some, List, [], ◌∷◌, ◌++◌, nat_eq,
  eqb, if◌then◌else◌, arith, Bool-cases, length,
}
use prpc.Base.Maps.{assign, find-assign}
use prpc.Base.Outcome.{ok-injective, ok, ◌>>=◌}
use prpc.Memory.BlockAllocator.{
  Entry, BlockAllocator, create, take_entry, with_entry, allocate, give_entry, deallocate,
}
use prpc.Memory.BlockAllocator.Partition.{
  count, block_entries, all_entries, IsAllocator, Free-assign, IsNew,
  allocate_new_block-IsAllocator, take_entry-IsAllocator,
}

-- What is left in use without `p`.
abbrev pub without : Entry → List Entry → List Entry
without p [] = []
without p (e ∷ l) = let rest = without p l in if eqb e p then l else e ∷ rest

-- The states that clients can bring about, with what they have: `pico_malloc` gives memory that is in
-- no block, and what is given back was given out.
pub data Reachable (i : ℕ) : BlockAllocator → List Entry → Type 0 where
  created : Reachable i create []
  allocated :
      (a r : BlockAllocator) (used : List Entry) (block e : Entry)
      → Reachable i a used
      → IsNew i block a
      → allocate (suc i) block 1 a ≡ ok (e, r)
      → Reachable i r (e ∷ used)
  deallocated :
      (a r : BlockAllocator) (used : List Entry) (p : Entry)
      → Reachable i a used
      → count p used ≡ 1
      → deallocate p 1 a ≡ ok r
      → Reachable i r (without p used)

count-without :
    (p e : Entry) (l : List Entry)
    → count p l ≡ 1
    → count e l ≡ (if eqb p e then 1 else 0) + count e (without p l)
count-without p e [] h = absurd (ground (arith, h))
count-without p e (d ∷ l) h = elim (Bool-cases (eqb d p)) [
  | inl k ↦ ground (arith, k)
  | inr k ↦
      let rest : count p l ≡ 1 = ground (arith, k, h) in ground (arith, k, count-without p e l rest)
]

length-without :
    (p : Entry) (l : List Entry) → count p l ≡ 1 → length l ≡ suc (length (without p l))
length-without p [] h = absurd (ground (arith, h))
length-without p (d ∷ l) h = elim (Bool-cases (eqb d p)) [
  | inl k ↦ ground (arith, k)
  | inr k ↦
      let rest : count p l ≡ 1 = ground (arith, k, h) in ground (arith, k, length-without p l rest)
]

module _ (i : ℕ) where
  with_entry-IsAllocator :
      (a : BlockAllocator) (free used : List Entry) (block : Entry)
      → IsAllocator i a free used
      → IsNew i block a
      → (r : BlockAllocator) × (e : Entry) × (rest : List Entry) × (with_entry (suc i) block a
          ≡ ok r)
        × IsAllocator i r (e ∷ rest) used
  unfolding with_entry
  with_entry-IsAllocator a (e ∷ rest) used block h new =
      (a, e, rest, simp (with_entry, h.links.0) refl, h)
  with_entry-IsAllocator a [] used block h new =
      let (r, k, held) = allocate_new_block-IsAllocator i a [] used block h new in
      let (e, rest, shape) = first_entry block i in
      (
        r,
        e,
        rest ++ [],
        rw (with_entry, h.links) k,
        subst (λ l. IsAllocator i r l used) (ap (λ l. l ++ []) shape) held,
      )
    where
      first_entry :
          (block : Entry) (i : ℕ)
          → (e : Entry) × (rest : List Entry) × (block_entries block i ≡ e ∷ rest)
      first_entry block zero = (block, [], refl)
      first_entry block (suc i) = (block + suc i, block_entries block i, refl)

  allocate-IsAllocator :
      (a : BlockAllocator) (free used : List Entry) (block : Entry)
      → IsAllocator i a free used
      → IsNew i block a
      → (e : Entry) × (r : BlockAllocator) × (rest : List Entry) × (allocate (suc i) block 1 a
          ≡ ok (e, r))
        × IsAllocator i r rest (e ∷ used)
  unfolding allocate
  allocate-IsAllocator a free used block h new =
      let (m, e, rest, k, held) = with_entry-IsAllocator a free used block h new in
      let (r, t, kept, same) = take_entry-IsAllocator i m e rest used held in
      (e, r, rest, ap (λ o. o >>= take_entry) k ∙ t, kept)

  deallocate-IsAllocator :
      (a : BlockAllocator) (free used : List Entry) (p : Entry)
      → IsAllocator i a free used
      → count p used ≡ 1
      → (r : BlockAllocator) × (deallocate p 1 a ≡ ok r)
        × IsAllocator i r (p ∷ free) (without p used)
  unfolding deallocate give_entry
  deallocate-IsAllocator a free used p h one =
      let number = h.counted ∙ length-without p used one in
      let apart : count p free ≡ 0 =
        let part = h.parted p in let bound = h.once p in omega (arith, part, bound, one) in
      (
        record a {
          next = assign p a.free_head a.next;
          free_head = some p;
          elm_num = length (without p used);
        },
        rw (give_entry, number) refl,
        record {
          links = (
            refl,
            a.free_head,
            ground (arith, find-assign p p a.free_head a.next),
            Free-assign a.next a.free_head free p a.free_head apart h.links,
          );
          counted = refl;
          parted = λ e. ground (arith, h.parted e, count-without p e used one);
          once = h.once;
        },
      )

  Reachable-IsAllocator :
      (a : BlockAllocator) (used : List Entry)
      → Reachable i a used
      → (free : List Entry) × IsAllocator i a free used
  Reachable-IsAllocator a used created = (
    [],
    record { links = refl; counted = refl; parted = λ p. omega arith; once = λ p. omega arith },
  )
  Reachable-IsAllocator _ _ (allocated b a old block e reach new k) =
      let (free, h) = Reachable-IsAllocator b old reach in
      let (d, r, rest, t, held) = allocate-IsAllocator b free old block h new in
      let same : (d, r) ≡ (e, a) = ok-injective (sym t ∙ k) in
      (rest, subst (λ o. IsAllocator i o.1 rest (o.0 ∷ old)) same held)
  Reachable-IsAllocator _ _ (deallocated b a old p reach one k) =
      let (free, h) = Reachable-IsAllocator b old reach in
      let (r, t, held) = deallocate-IsAllocator b free old p h one in
      (
        p ∷ free,
        subst (λ o. IsAllocator i o (p ∷ free) (without p old)) (ok-injective (sym t ∙ k)) held,
      )

  -- In any state that clients bring about, allocate ends without a failed check, in an entry of the
  -- blocks that no client has, and counts one more than the clients had.
  pub allocate-Reachable :
      (a : BlockAllocator) (used : List Entry) (block : Entry)
      → Reachable i a used
      → IsNew i block a
      → (e : Entry) × (r : BlockAllocator) × (allocate (suc i) block 1 a ≡ ok (e, r))
        × (count e used ≡ 0)
        × (count e (all_entries i r.blocks) ≡ 1)
        × (r.elm_num ≡ suc (length used))
  allocate-Reachable a used block reach new =
      let (free, h) = Reachable-IsAllocator a used reach in
      let (e, r, rest, k, held) = allocate-IsAllocator a free used block h new in
      let part = held.parted e in
      let bound = held.once e in
      (e, r, k, ground (arith, part, bound), ground (arith, part, bound), held.counted)

  -- In any such state, an entry that a client has can be given back, and is counted off.
  pub deallocate-Reachable :
      (a : BlockAllocator) (used : List Entry) (p : Entry)
      → Reachable i a used
      → count p used ≡ 1
      → (r : BlockAllocator) × (deallocate p 1 a ≡ ok r)
        × (a.elm_num ≡ suc r.elm_num)
        × (r.blocks ≡ a.blocks)
  unfolding deallocate give_entry
  deallocate-Reachable a used p reach one =
      let (free, h) = Reachable-IsAllocator a used reach in
      let number = h.counted ∙ length-without p used one in
      (
        record a {
          next = assign p a.free_head a.next;
          free_head = some p;
          elm_num = length (without p used);
        },
        rw (give_entry, number) refl,
        number,
        refl,
      )
