-- ===== src/Archive/Memory.antt =====
-- What a `MemoryArchive` stands for: the bytes that have been read, those that are still to be read,
-- and spare memory. Writing appends to the bytes to be read, reading takes them from the front.
pub mod Reading
pub mod Growth
pub mod Writing
pub mod Positions
pub mod Invariant
use prpc.Base.{ℕ, zero, suc, ◌+◌, ◌-◌, ◌*◌, ◌/◌, ◌%◌, ◌≤◌, ◌<◌, ◌≡◌, refl, sym, ap, ◌∙◌, subst}
use prpc.Base.{
  Bool, true, false, List, [], ◌∷◌, ◌++◌, append_assoc, arith, length, take, drop, Bytes,
}
use prpc.Base.{length-append, length-take, length-drop, take-append-drop, ltb, leb}
use prpc.Base.Outcome.{Outcome, ok, fault, check, ◌>>=◌, ◌>>◌}
use prpc.Archive.{
  MemoryArchive, capacity, memcpy, advance_cursor, advance_end, prepare_read, read_raw,
  read_raw_uncheck, read_back, is_exhausted,
}

-- `_cursor` and `_end` stand where the parts of the buffer meet.
pub record Holds (a : MemoryArchive) (front body spare : Bytes) : Type 0 where
  pub parts : a.buffer ≡ front ++ (body ++ spare)
  pub at_cursor : a.cursor ≡ length front
  pub at_end : a.end ≡ length front + length body

module _ {ℓ} {A : Type ℓ} where
  pub take-append : (xs ys : List A) → take (length xs) (xs ++ ys) ≡ xs
  take-append [] ys = refl
  take-append (x ∷ xs) ys = ap (x ∷◌) (take-append xs ys)

  pub drop-append : (xs ys : List A) → drop (length xs) (xs ++ ys) ≡ ys
  drop-append [] ys = refl
  drop-append (x ∷ xs) ys = drop-append xs ys

pub take_at : (n : ℕ) (xs ys : Bytes) → n ≡ length xs → take n (xs ++ ys) ≡ xs
take_at n xs ys e = rw (e) (take-append xs ys)

pub drop_at : (n : ℕ) (xs ys : Bytes) → n ≡ length xs → drop n (xs ++ ys) ≡ ys
drop_at n xs ys e = rw (e) (drop-append xs ys)

module _ {a : MemoryArchive} {front body spare : Bytes} (h : Holds a front body spare) where
  pub capacity_lem : capacity a ≡ length front + length body + length spare
  capacity_lem =
      ap length h.parts
      ∙ omega (arith, length-append front (body ++ spare), length-append body spare)

  pub end_at_most : a.end ≤ capacity a
  end_at_most = omega (arith, capacity_lem, h.at_end)

  pub cursor_at_most : a.cursor ≤ a.end
  cursor_at_most = omega (arith, h.at_cursor, h.at_end)
