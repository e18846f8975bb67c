-- ===== src/Tests/Blocks.antt =====
-- An allocator with blocks of two entries.
use prpc.Base.{◌≡◌, refl, none, some, [], ◌∷◌, arith, nat_eq}
use prpc.Base.Maps.{find, assign}
use prpc.Base.Outcome.{ok}
use prpc.Memory.BlockAllocator.{
  Entry, BlockAllocator, create, link_entries, allocate_new_block, take_entry, with_entry, allocate,
  give_entry, deallocate,
}
use prpc.Memory.BlockAllocator.Partition.{count, all_entries, IsNew}
use prpc.Memory.BlockAllocator.Clients.{Reachable, created, allocated, allocate-Reachable}

-- After the first entry of the block at 10.
abbrev first : BlockAllocator
first = record {
  elm_num = 1;
  free_head = some 10;
  blocks = 10 ∷ [];
  next = (10, none) ∷ (11, some 10) ∷ [];
}

takes_the_last : allocate 2 10 1 create ≡ ok (11, first)
unfolding allocate with_entry allocate_new_block link_entries take_entry find assign
takes_the_last = refl

fresh_block : IsNew 1 10 create
fresh_block p = ground arith

next_block : IsNew 1 20 first
next_block p = ground arith

one_in_use : Reachable 1 first (11 ∷ [])
one_in_use = allocated create first [] 10 11 created fresh_block takes_the_last

allocate-Reachable_example :
    (e : Entry) × (r : BlockAllocator) × (allocate 2 20 1 first ≡ ok (e, r))
    × (count e (11 ∷ []) ≡ 0)
    × (count e (all_entries 1 r.blocks) ≡ 1)
    × (r.elm_num ≡ 2)
allocate-Reachable_example = allocate-Reachable 1 first (11 ∷ []) 20 one_in_use next_block

gives_it_back :
    deallocate 11 1 first
    ≡ ok (record {
      elm_num = 0;
      free_head = some 11;
      blocks = 10 ∷ [];
      next = (10, none) ∷ (11, some 10) ∷ [];
    })
unfolding deallocate give_entry assign
gives_it_back = refl
