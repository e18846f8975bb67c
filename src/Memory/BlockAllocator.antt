-- ===== src/Memory/BlockAllocator.antt =====
-- `BlockAllocator` of src/misc/BlockAllocator.h: entries of one size, cut from blocks, with the free ones
-- in a linked list. Entry `i` of a block has the address `block + i`; `pico_malloc` is outside, and the
-- block it gives is an argument.
pub mod Partition
pub mod Clients
use prpc.Base.{ℕ, zero, suc, ◌+◌, Option, none, some, List, [], ◌∷◌, nat_eq, eqb}
use prpc.Base.Maps.{Map, find, assign}
use prpc.Base.Outcome.{Outcome, ok, fault, ◌>>=◌, ◌>>◌, check}

abbrev pub Entry : Type 0
Entry = ℕ

-- `next` has the link of each entry that is free; `blocks` are those from `_block_head` on.
pub record BlockAllocator : Type 0 where
  pub elm_num : ℕ
  pub free_head : Option Entry
  pub blocks : List Entry
  pub next : Map Entry (Option Entry)

abbrev pub create : BlockAllocator
create = record { elm_num = 0; free_head = none; blocks = []; next = [] }

-- The loop, up to entry `i`.
unfoldable pub link_entries : Entry → ℕ → Map Entry (Option Entry) → Map Entry (Option Entry)
link_entries block zero next = next
link_entries block (suc i) next =
    assign (block + suc i) (some (block + i)) (link_entries block i next)

-- Blocks of `n` entries: without one there is no entry 0 to write to.
unfoldable pub allocate_new_block : ℕ → Entry → BlockAllocator → Outcome BlockAllocator
unfolding link_entries
allocate_new_block zero block a = fault
allocate_new_block (suc i) block a = ok (record a {
  blocks = block ∷ a.blocks;
  next = link_entries block i (assign block a.free_head a.next);
  free_head = some (block + i);
})

unfoldable pub take_entry : BlockAllocator → Outcome (Entry × BlockAllocator)
take_entry a = elim a.free_head [
  | none ↦ fault
  | some e ↦ elim (find e a.next) [
    | none ↦ fault
    | some after ↦ ok (e, record a { free_head = after; elm_num = suc a.elm_num })
  ]
]

unfoldable pub with_entry : ℕ → Entry → BlockAllocator → Outcome BlockAllocator
unfolding allocate_new_block
with_entry size block a = elim a.free_head [
  | none ↦ allocate_new_block size block a
  | some e ↦ ok a
]

unfoldable pub allocate : ℕ → Entry → ℕ → BlockAllocator → Outcome (Entry × BlockAllocator)
unfolding with_entry take_entry
allocate size block n a = check (eqb n 1) >> (with_entry size block a >>= take_entry)

unfoldable pub give_entry : Entry → BlockAllocator → Outcome BlockAllocator
give_entry p a = elim a.elm_num [
  | zero ↦ fault
  | suc k ↦ ok (record a { next = assign p a.free_head a.next; free_head = some p; elm_num = k })
]

-- `deallocate`
unfoldable pub deallocate : Entry → ℕ → BlockAllocator → Outcome BlockAllocator
unfolding give_entry
deallocate p n a = check (eqb n 1) >> give_entry p a
