-- ===== src/Memory/BlockAllocator/Partition.antt =====
-- The entries of the blocks are those that are free and those that are given out, each once.
use prpc.Base.{
  ℕ, zero, suc, ◌+◌, ◌≤◌, ◌≡◌, refl, ap, inl, inr, false, Option, none, some, List, [], ◌∷◌, ◌++◌,
  nat_eq, eqb, if◌then◌else◌, arith, Bool-cases, length,
}
use prpc.Base.Maps.{Map, find, assign, find-assign}
use prpc.Base.Outcome.{ok}
use prpc.Memory.BlockAllocator.{Entry, BlockAllocator, link_entries, allocate_new_block, take_entry}

abbrev pub count : Entry → List Entry → ℕ
count p [] = 0
count p (e ∷ l) = let rest = count p l in if eqb e p then suc rest else rest

-- The free entries, in the order of the links.
abbrev pub Free : Map Entry (Option Entry) → Option Entry → List Entry → Type 0
Free m h [] = h ≡ none
Free m h (e ∷ l) = (h ≡ some e) × (after : Option Entry) × (find e m ≡ some after) × Free m after l

-- The entries of a block up to entry `i`, the last one first.
abbrev pub block_entries : Entry → ℕ → List Entry
block_entries block zero = block ∷ []
block_entries block (suc i) = (block + suc i) ∷ block_entries block i

-- The entries of all blocks, which have `suc i` each.
abbrev pub all_entries : ℕ → List Entry → List Entry
all_entries i [] = []
all_entries i (b ∷ blocks) = block_entries b i ++ all_entries i blocks

pub record IsAllocator (i : ℕ) (a : BlockAllocator) (free used : List Entry) : Type 0 where
  pub links : Free a.next a.free_head free
  pub counted : a.elm_num ≡ length used
  pub parted : (p : Entry) → count p free + count p used ≡ count p (all_entries i a.blocks)
  pub once : (p : Entry) → count p (all_entries i a.blocks) ≤ 1

count_append : (p : Entry) (xs ys : List Entry) → count p (xs ++ ys) ≡ count p xs + count p ys
count_append p [] ys = ground arith
count_append p (e ∷ xs) ys = ground (arith, count_append p xs ys)

-- Writing to an entry that is not free leaves the list as it is.
pub Free-assign :
    (m : Map Entry (Option Entry)) (h : Option Entry) (l : List Entry) (p : Entry)
    (x : Option Entry)
    → count p l ≡ 0
    → Free m h l
    → Free (assign p x m) h l
Free-assign m h [] p x out f = f
Free-assign m h (e ∷ l) p x out (at_e, after, link, rest) = elim (Bool-cases (eqb e p)) [
  | inl k ↦ absurd (ground (arith, k, out))
  | inr k ↦
      let far : eqb p e ≡ false = ground (arith, k) in
      let tail : count p l ≡ 0 = ground (arith, k, out) in
      (at_e, after, rw (find-assign p e x m, far) link, Free-assign m after l p x tail rest)
]

link_entries-Free :
    (m : Map Entry (Option Entry)) (h : Option Entry) (l : List Entry) (block : Entry) (i : ℕ)
    → ((p : Entry) → count p (block_entries block i) + count p l ≤ 1)
    → Free m h l
    → Free (link_entries block i (assign block h m)) (some (block + i)) (block_entries block i ++ l)
unfolding link_entries
link_entries-Free m h l block zero new f =
    let apart : count block l ≡ 0 = ground (arith, new block) in
    (
      ap some (omega arith),
      h,
      ground (arith, find-assign block block h m),
      Free-assign m h l block h apart f,
    )
link_entries-Free m h l block (suc i) new f =
    let old = link_entries-Free m h l block i (λ p. ground (arith, new p)) f in
    let e = block + suc i in
    let apart : count e (block_entries block i ++ l) ≡ 0 =
      ground (arith, new e, count_append e (block_entries block i) l) in
    (
      refl,
      some (block + i),
      ground (arith, find-assign e e (some (block + i)) (link_entries block i (assign block h m))),
      Free-assign (link_entries block i (assign block h m)) (some (block + i))
          (block_entries block i ++ l) e (some (block + i)) apart old,
    )

module _ (i : ℕ) where
  -- A block of new entries.
  abbrev pub IsNew : Entry → BlockAllocator → Type 0
  IsNew block a =
      (p : Entry) → count p (block_entries block i) + count p (all_entries i a.blocks) ≤ 1

  pub allocate_new_block-IsAllocator :
      (a : BlockAllocator) (free used : List Entry) (block : Entry)
      → IsAllocator i a free used
      → IsNew block a
      → (r : BlockAllocator) × (allocate_new_block (suc i) block a ≡ ok r)
        × IsAllocator i r (block_entries block i ++ free) used
  unfolding allocate_new_block
  allocate_new_block-IsAllocator a free used block h new = (
    record a {
      blocks = block ∷ a.blocks;
      next = link_entries block i (assign block a.free_head a.next);
      free_head = some (block + i);
    },
    refl,
    record {
      links =
          link_entries-Free a.next a.free_head free block i
            (λ p. let part = h.parted p in let bound = new p in omega (arith, part, bound)) h.links;
      counted = h.counted;
      parted = λ p.
          let part = h.parted p in
          let l = count_append p (block_entries block i) free in
          let r = count_append p (block_entries block i) (all_entries i a.blocks) in
          omega (arith, part, l, r);
      once = λ p.
          let bound = new p in
          let r = count_append p (block_entries block i) (all_entries i a.blocks) in
          omega (arith, bound, r);
    },
  )

  pub take_entry-IsAllocator :
      (a : BlockAllocator) (e : Entry) (free used : List Entry)
      → IsAllocator i a (e ∷ free) used
      → (r : BlockAllocator) × (take_entry a ≡ ok (e, r))
        × IsAllocator i r free (e ∷ used)
        × (r.blocks ≡ a.blocks)
  unfolding take_entry
  take_entry-IsAllocator a e free used h =
      let (at_e, after, link, rest) = h.links in
      (
        record a { free_head = after; elm_num = suc a.elm_num },
        rw (take_entry, at_e, link) refl,
        record {
          links = rest;
          counted = ap suc h.counted;
          parted = λ p. ground (arith, h.parted p);
          once = h.once;
        },
        refl,
      )
