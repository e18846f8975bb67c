-- ===== src/Archive/Memory/Invariant.antt =====
-- The positions of an archive stay in order through any call, and what the growth of a buffer does
-- that was given to the archive.
use prpc.Base.{ℕ, ◌<◌, ◌≡◌, refl}
use prpc.Base.{false, arith}
use prpc.Base.{lt→ltb}
use prpc.Base.Outcome.{ok}
use prpc.Archive.{
  Allocator, MemoryArchive, capacity, view, reset, release, rewind, clear, move, reserve, move_to,
}
use prpc.Archive.Calls.{
  IsArchive, Call, run, amount, IsGiven, do_view, do_rewind, do_clear, do_reset, do_release,
  do_set_cursor, do_advance_cursor, do_set_end, do_advance_end, do_read_raw, do_read_back,
  do_reserve, do_resize, do_write_raw, do_assign, do_set_buffer, do_copy, do_move,
}
use prpc.Archive.Memory.Positions.{
  Safe-ok, set_cursor-IsArchive, advance_cursor-IsArchive, set_end-IsArchive, advance_end-IsArchive,
  set_buffer-IsArchive, read_raw-IsArchive, read_back-IsArchive, reserve-IsArchive,
  resize-IsArchive, write_raw-IsArchive, assign-IsArchive, copy-IsArchive,
}

module _ ⦃memory : Allocator⦄ where
  -- Any call that ends keeps the positions in order, whatever it names, below the sizes at which
  -- `size_t` arithmetic could wrap.
  pub run-IsArchive :
      (c : Call) (a : MemoryArchive)
      → IsArchive a
      → IsGiven c
      → capacity a < 0x4000000000000000
      → amount c < 0x4000000000000000
      → (b : MemoryArchive) → run c a ≡ ok b
      → IsArchive b
  unfolding view rewind clear reset release move
  run-IsArchive do_view a h given small fits = Safe-ok h
  run-IsArchive do_rewind a h given small fits = Safe-ok (omega arith, h.1)
  run-IsArchive do_clear a h given small fits = Safe-ok (omega arith, omega arith)
  run-IsArchive do_reset a h given small fits = Safe-ok (omega arith, omega arith)
  run-IsArchive do_release a h given small fits = Safe-ok (omega arith, omega arith)
  run-IsArchive (do_set_cursor n) a h given small fits = set_cursor-IsArchive a h n
  run-IsArchive (do_advance_cursor n) a h given small fits = advance_cursor-IsArchive a h n
  run-IsArchive (do_set_end n) a h given small fits = set_end-IsArchive a h n
  run-IsArchive (do_advance_end n) a h given small fits = advance_end-IsArchive a h n
  run-IsArchive (do_read_raw n) a h given small fits = read_raw-IsArchive a h n
  run-IsArchive (do_read_back n) a h given small fits = read_back-IsArchive a h n
  run-IsArchive (do_reserve n) a h given small fits =
      Safe-ok (reserve-IsArchive a n h (omega (arith, fits))).0
  run-IsArchive (do_resize n) a h given small fits = Safe-ok (resize-IsArchive a n h small fits)
  run-IsArchive (do_write_raw p) a h given small fits = write_raw-IsArchive a p h small fits
  run-IsArchive (do_assign is_null p) a h given small fits = assign-IsArchive a is_null p h
  run-IsArchive (do_set_buffer is_null buffer n) a h given small fits =
      set_buffer-IsArchive a h is_null buffer n
  run-IsArchive (do_copy other) a h given small fits = copy-IsArchive other a given
  run-IsArchive (do_move other) a h given small fits = Safe-ok given

  -- Growing a buffer that was given to the archive forgets what was written to it: both positions go
  -- back to the start.
  pub reserve-given :
      (a : MemoryArchive) (n : ℕ)
      → a.is_default_malloc ≡ false
      → capacity a < n
      → ((reserve n a).cursor ≡ 0) × ((reserve n a).end ≡ 0)
  unfolding reserve move_to reset
  reserve-given a n given more = rw (lt→ltb (capacity a) n more, given) (refl, refl)
