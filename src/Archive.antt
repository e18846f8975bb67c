-- ===== src/Archive.antt =====
-- `MemoryArchive` of src/rpc/Archive.h: a buffer with a reading position and a writing position,
-- the container of every message body. Pointers are offsets from `_buffer`; the bytes from `_buffer`
-- to `_border` are a list. A failed `SCHECK` is a fault, and so is a `memcpy` out of the buffer.
-- Deleters are called for their effect on the heap only, so of a deleter this keeps whether the
-- archive may call `realloc` on the buffer.
pub mod Calls
pub mod Memory
pub mod Serial
use prpc.Base.{ℕ, suc, ◌+◌, ◌-◌, ◌*◌, ◌/◌, ◌%◌, ◌≡◌, Bool, true, false, not, ◌&&◌, ◌||◌, List, []}
use prpc.Base.{◌++◌, length, take, drop, Bytes, ltb, leb, eqb, if◌then◌else◌}
use prpc.Base.Outcome.{Outcome, ok, fault, check, ◌>>=◌, ◌>>◌}
use Prim.Native.Nat.{min, max}

-- What the archive relies on of the allocators: a block has the size that was asked for. The bytes
-- in it are whatever memory held.
pub record Allocator : Type 0 where
  pub block : ℕ → Bytes
  pub length-block : (size : ℕ) → length (block size) ≡ size

-- `size_t` arithmetic
abbrev pub size_t_max : ℕ
size_t_max = 0x10000000000000000

pub record MemoryArchive : Type 0 where
  pub is_msg : Bool
  -- `_buffer == nullptr`
  pub is_null : Bool
  pub buffer : Bytes
  pub cursor : ℕ
  pub end : ℕ
  pub is_default_malloc : Bool

abbrev pub capacity : MemoryArchive → ℕ
capacity a = length a.buffer

abbrev pub readable_length : MemoryArchive → ℕ
readable_length a = a.end - a.cursor

-- `_cursor == _end`, in `is_exhausted` and in `empty`
abbrev pub is_exhausted : MemoryArchive → Bool
is_exhausted a = eqb a.end a.cursor

-- the constructor
unfoldable pub create : Bool → MemoryArchive
create is_msg = record {
  is_msg = is_msg;
  is_null = true;
  buffer = [];
  cursor = 0;
  end = 0;
  is_default_malloc = true;
}

-- An archive on the same memory that does not own it.
unfoldable pub view : MemoryArchive → MemoryArchive
view a = record a { is_default_malloc = false }

unfoldable pub reset : MemoryArchive → MemoryArchive
reset a = record a { is_null = true; buffer = []; cursor = 0; end = 0 }

-- `release` returns the buffer and forgets it.
unfoldable pub release : MemoryArchive → Bytes × MemoryArchive
release a = (a.buffer, record a { is_null = true; buffer = []; cursor = 0; end = 0 })

-- `set_buffer` on `capacity` bytes, the first `length` of them to be read. `is_null` tells whether
-- the pointer that is passed is null.
unfoldable pub set_buffer : Bool → Bytes → ℕ → MemoryArchive → Outcome MemoryArchive
set_buffer is_null buffer len a = do
  check (not is_null || eqb (length buffer) 0)
  check (leb len (length buffer))
  let a = reset a in
      ok (record a {
        is_default_malloc = false;
        is_null = is_null;
        buffer = buffer;
        cursor = 0;
        end = len;
      })

abbrev pub set_read_buffer : Bool → Bytes → MemoryArchive → Outcome MemoryArchive
set_read_buffer is_null buffer a = set_buffer is_null buffer (length buffer) a

abbrev pub set_write_buffer : Bool → Bytes → MemoryArchive → Outcome MemoryArchive
set_write_buffer is_null buffer a = set_buffer is_null buffer 0 a

-- `memcpy(_buffer + at, p, len)` for the `len` bytes `p`
unfoldable pub memcpy : Bytes → ℕ → Bytes → Outcome Bytes
memcpy buffer at p = do
  check (leb (at + length p) (length buffer))
  ok (take at buffer ++ p ++ drop (at + length p) buffer)

unfoldable pub rewind : MemoryArchive → MemoryArchive
rewind a = record a { cursor = 0 }

unfoldable pub set_cursor : ℕ → MemoryArchive → Outcome MemoryArchive
set_cursor cursor a = do check (leb cursor a.end); ok (record a { cursor = cursor })

unfoldable pub advance_cursor : ℕ → MemoryArchive → Outcome MemoryArchive
advance_cursor offset a = do
  check (leb offset (a.end - a.cursor))
  ok (record a { cursor = a.cursor + offset })

unfoldable pub set_end : ℕ → MemoryArchive → Outcome MemoryArchive
set_end end a = do check (leb a.cursor end && leb end (capacity a)); ok (record a { end = end })

unfoldable pub advance_end : ℕ → MemoryArchive → Outcome MemoryArchive
advance_end offset a = do
  check (leb offset (capacity a - a.end))
  ok (record a { end = a.end + offset })

unfoldable pub clear : MemoryArchive → MemoryArchive
clear a = record a { cursor = 0; end = 0 }

-- `prepare_read`
unfoldable pub prepare_read : ℕ → MemoryArchive → Outcome (Unit {0})
prepare_read size a = check (leb size (a.end - a.cursor))

unfoldable pub read_raw : ℕ → MemoryArchive → Outcome (Bytes × MemoryArchive)
read_raw len a =
    if ltb 0 len
    then (do
      prepare_read len a
      b ← advance_cursor len a
      ok (take len (drop a.cursor a.buffer), b))
    else ok ([], a)

-- The bytes, or nothing where the archive is exhausted.
unfoldable pub read_raw_uncheck : ℕ → MemoryArchive → Outcome (Bool × Bytes × MemoryArchive)
read_raw_uncheck len a =
    if ltb 0 len
    then (if is_exhausted a
        then ok (false, [], a)
        else (do (p, b) ← read_raw len a; ok (true, p, b)))
    else ok (true, [], a)

unfoldable pub read_back : ℕ → MemoryArchive → Outcome (Bytes × MemoryArchive)
read_back len a =
    if ltb 0 len
    then (do
      check (leb len (a.end - a.cursor))
      ok (take len (drop (a.end - len) a.buffer), record a { end = a.end - len }))
    else ok ([], a)

-- `newcap` rounded up to a multiple of 64
abbrev pub round_up : ℕ → ℕ
round_up newcap = (newcap + 64 - 1) % size_t_max / 64 * 64

module _ ⦃memory : Allocator⦄ where
  -- `new_size` bytes that begin with the old ones: all of them after `realloc`, and the first
  -- `cur_size` of them in a message
  unfoldable pub buf_realloc : Bytes → ℕ → ℕ → Bool → Bytes
  buf_realloc buffer cur_size new_size true =
      let n = min cur_size new_size in take n buffer ++ drop n (memory.block new_size)
  buf_realloc buffer cur_size new_size false =
      let n = min (length buffer) new_size in take n buffer ++ drop n (memory.block new_size)

  -- The branch on `_is_default_malloc`: where the buffer is not the archive's own, `reset` is called
  -- before the offsets of `_cursor` and `_end` are taken.
  unfoldable pub move_to : ℕ → Bool → MemoryArchive → MemoryArchive
  move_to newcap true a = record a {
    is_null = false;
    buffer = buf_realloc a.buffer a.end newcap a.is_msg;
  }
  move_to newcap false a =
      let buffer = take a.end a.buffer ++ drop a.end (memory.block newcap) in
      let a = record (reset a) { is_default_malloc = true } in
      record a { is_null = false; buffer = buffer }

  unfoldable pub reserve : ℕ → MemoryArchive → MemoryArchive
  reserve newcap a =
      if ltb (capacity a) newcap then move_to (round_up newcap) a.is_default_malloc a else a

  unfoldable pub resize : ℕ → MemoryArchive → MemoryArchive
  resize size a =
      let a =
        if ltb (capacity a) size then reserve (max (capacity a * 2 % size_t_max) size) a else a in
      record a { end = size; cursor = min a.cursor size }

  unfoldable pub prepare_write : ℕ → MemoryArchive → MemoryArchive
  prepare_write size a =
      if ltb (capacity a - a.end) size
      then reserve (max (capacity a * 2 % size_t_max) ((a.end + size) % size_t_max)) a
      else a

  unfoldable pub write_raw : Bytes → MemoryArchive → Outcome MemoryArchive
  write_raw p a =
      if ltb 0 (length p)
      then (do
        let a = prepare_write (length p) a in
            do
              buffer ← memcpy a.buffer a.end p
              advance_end (length p) (record a { buffer = buffer }))
      else ok a

  -- `assign` copies the bytes in, into a new block where they do not fit. `is_null` tells whether the
  -- pointer to them is null.
  unfoldable pub assign : Bool → Bytes → MemoryArchive → Outcome MemoryArchive
  assign is_null p a =
      let a =
        if a.is_null || ltb (capacity a) (length p)
        then record (reset a) {
          is_null = false;
          buffer = memory.block (length p);
          is_default_malloc = true;
        }
        else a in
      do
        check (not is_null)
        buffer ← memcpy a.buffer 0 p
        ok (record a { buffer = buffer; cursor = 0; end = length p })

  -- `operator=(const MemoryArchive&)`, the result for the target `a`
  unfoldable pub copy : MemoryArchive → MemoryArchive → Outcome MemoryArchive
  copy other a =
      let a = record (reset a) { is_msg = other.is_msg } in
      if eqb (capacity other) 0 then ok a else (do
        buffer ← memcpy (memory.block (capacity other)) 0 (take other.end other.buffer)
        ok (record a {
          is_null = false;
          buffer = buffer;
          cursor = other.cursor;
          end = other.end;
          is_default_malloc = true;
        }))

-- `operator=(MemoryArchive&&)`: the target, and the source that is left
unfoldable pub move : MemoryArchive → MemoryArchive × MemoryArchive
move other = (other, (release other).1)
