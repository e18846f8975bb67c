-- ===== src/Archive/Memory/Growth.antt =====
-- Writing: `write_raw`, and the memory it may ask for. The room for more bytes counts what is written
-- already, so it lasts for a whole series of writes however often the buffer doubles.
use prpc.Base.{ℕ, ◌+◌, ◌-◌, ◌≤◌, ◌<◌, ◌≡◌, refl, sym, ap, ◌∙◌}
use prpc.Base.{
  Bool, true, false, [], ◌++◌, append-nil, append_assoc, arith, length, take, drop, Bytes,
}
use prpc.Base.{length-append, length-drop, lt→ltb}
use prpc.Archive.{
  Allocator, size_t_max, MemoryArchive, capacity, buf_realloc, round_up, move_to, reserve,
}
use prpc.Archive.Memory.{Holds, take_at, capacity_lem}
use Prim.Native.Nat.{min}

-- The archive owns its buffer and may write `n` more bytes: nothing comes near the top of `size_t`.
pub record Room (n : ℕ) (a : MemoryArchive) : Type 0 where
  pub owned : a.is_default_malloc ≡ true
  pub small : capacity a < 0x4000000000000000 + 64
  pub fits : a.end + n < 0x1000000000000000

-- What is kept of the old block when a new one of at least its size is taken.
kept :
    (front body spare junk : Bytes) (n : ℕ)
    → n ≡ length front + length body
    → take n (front ++ (body ++ spare)) ++ junk ≡ front ++ (body ++ junk)
kept front body spare junk n e = rw (sym (append_assoc front body spare)) (
    ap (◌++ junk) (take_at n (front ++ body) spare (e ∙ sym (length-append front body)))
    ∙ append_assoc front body junk)

min_left : (m n : ℕ) → m ≤ n → min m n ≡ m
min_left m n h = omega arith

take_all : (n : ℕ) (xs : Bytes) → n ≡ length xs → take n xs ≡ xs
take_all n xs e = ap (take n) (sym (append-nil xs)) ∙ take_at n xs [] e

module _ ⦃memory : Allocator⦄ where
  length-rest : (n size : ℕ) → length (drop n (memory.block size)) ≡ size - n
  length-rest n size =
      length-drop n (memory.block size) ∙ ap (λ (m : ℕ). m - n) (memory.length-block size)

  -- A new block for an archive begins with all that the archive holds.
  pub buf_realloc-Holds :
      {a : MemoryArchive} {front body spare : Bytes} (n : ℕ) (is_msg : Bool)
      → Holds a front body spare
      → capacity a ≤ n
      → (fresh : Bytes) × (buf_realloc a.buffer a.end n is_msg ≡ front ++ (body ++ fresh))
        × (length front + length body + length fresh ≡ n)
  unfolding buf_realloc
  buf_realloc-Holds {a} {front} {body} {spare} n true h big = (
    drop a.end (memory.block n),
    rw (min_left a.end n (omega (arith, full, h.at_end)), h.parts)
        (kept front body spare (drop a.end (memory.block n)) a.end h.at_end),
    omega (arith, length-rest a.end n, h.at_end, full),
  )
    where
      full : capacity a ≡ length front + length body + length spare
      full = capacity_lem h
  buf_realloc-Holds {a} {front} {body} {spare} n false h big = (
    spare ++ drop (capacity a) (memory.block n),
    rw (min_left (capacity a) n big, take_all (capacity a) a.buffer refl)
        (ap (◌++ drop (capacity a) (memory.block n)) h.parts
          ∙ append_assoc front (body ++ spare) (drop (capacity a) (memory.block n))
          ∙ ap (front ++◌) (append_assoc body spare (drop (capacity a) (memory.block n)))),
    omega (
      arith,
      length-append spare (drop (capacity a) (memory.block n)),
      length-rest (capacity a) n,
      full,
    ),
  )
    where
      full : capacity a ≡ length front + length body + length spare
      full = capacity_lem h

  -- After `reserve` the archive holds the same, and its capacity is the new one rounded up.
  pub reserve-Holds :
      {a : MemoryArchive} {front body spare : Bytes} (newcap : ℕ)
      → Holds a front body spare
      → a.is_default_malloc ≡ true
      → capacity a < newcap
      → newcap + 64 < size_t_max
      → (fresh : Bytes) × Holds (reserve newcap a) front body fresh
        × ((reserve newcap a).is_default_malloc ≡ true)
        × ((reserve newcap a).end ≡ a.end)
        × (capacity (reserve newcap a) ≡ round_up newcap)
  unfolding reserve move_to
  reserve-Holds {a} {front} {body} newcap h owned more fits =
      let (fresh, e, len) = buf_realloc-Holds (round_up newcap) a.is_msg h (omega arith) in
      rw (lt→ltb (capacity a) newcap more, owned)
        (
          fresh,
          record { parts = e; at_cursor = h.at_cursor; at_end = h.at_end },
          refl,
          refl,
          ap length e
              ∙ omega (arith, length-append front (body ++ fresh), length-append body fresh, len),
        )
