-- ===== src/Archive/Calls.antt =====
-- The calls on an archive, as data.
use prpc.Base.{ℕ, ◌≤◌, Bool, length, Bytes}
use prpc.Base.Outcome.{Outcome, ok, ◌>>=◌}
use prpc.Archive.{
  Allocator, MemoryArchive, capacity, view, reset, release, set_buffer, rewind, set_cursor,
  advance_cursor, set_end, advance_end, clear, read_raw, read_back, resize, assign, copy, move,
  reserve, write_raw,
}

-- `_buffer <= _cursor <= _end <= _border`
abbrev pub IsArchive : MemoryArchive → Type 0
IsArchive a = (a.cursor ≤ a.end) × (a.end ≤ capacity a)

-- The calls that change an archive.
pub data Call : Type 0 where
  do_view do_rewind do_clear do_reset do_release : Call
  do_set_cursor do_advance_cursor do_set_end do_advance_end do_read_raw do_read_back do_reserve
        do_resize :
      ℕ → Call
  do_write_raw : Bytes → Call
  do_assign : Bool → Bytes → Call
  do_set_buffer : Bool → Bytes → ℕ → Call
  do_copy do_move : MemoryArchive → Call

-- `copy` and `move` assign the archive they carry.
module _ ⦃memory : Allocator⦄ where
  abbrev pub run : Call → MemoryArchive → Outcome MemoryArchive
  run do_view a = ok (view a)
  run do_rewind a = ok (rewind a)
  run do_clear a = ok (clear a)
  run do_reset a = ok (reset a)
  run do_release a = ok (release a).1
  run (do_set_cursor n) a = set_cursor n a
  run (do_advance_cursor n) a = advance_cursor n a
  run (do_set_end n) a = set_end n a
  run (do_advance_end n) a = advance_end n a
  run (do_read_raw n) a = do r ← read_raw n a; ok r.1
  run (do_read_back n) a = do r ← read_back n a; ok r.1
  run (do_reserve n) a = ok (reserve n a)
  run (do_resize n) a = ok (resize n a)
  run (do_write_raw p) a = write_raw p a
  run (do_assign is_null p) a = assign is_null p a
  run (do_set_buffer is_null buffer n) a = set_buffer is_null buffer n a
  run (do_copy other) a = copy other a
  run (do_move other) a = ok (move other).0

-- The number of bytes a call names.
abbrev pub amount : Call → ℕ
amount (do_reserve n) = n
amount (do_resize n) = n
amount (do_write_raw p) = length p
amount _ = 0

-- The archive that a call assigns is one.
abbrev pub IsGiven : Call → Type 0
IsGiven (do_copy other) = IsArchive other
IsGiven (do_move other) = IsArchive other
IsGiven _ = Unit
