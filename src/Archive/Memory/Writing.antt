-- ===== src/Archive/Memory/Writing.antt =====
-- Writing: `write_raw` appends, and asks for memory where the spare bytes are not enough.
use prpc.Base.{ℕ, suc, ◌+◌, ◌-◌, ◌*◌, ◌%◌, ◌≤◌, ◌<◌, ◌≡◌, refl, sym, ap, ◌∙◌, subst}
use prpc.Base.{[], ◌∷◌, ◌++◌, append-nil, append_assoc, arith, length, take, drop, Bytes}
use prpc.Base.{length-append, length-drop, ltb, ltb→lt, lt→ltb, le→leb, Bool-cases, inl, inr}
use prpc.Base.Outcome.{ok, Returns, ◌>>=◌}
use prpc.Archive.{
  Allocator, size_t_max, MemoryArchive, capacity, memcpy, round_up, reserve, prepare_write,
  advance_end, write_raw,
}
use prpc.Archive.Memory.{Holds, take_at, capacity_lem}
use prpc.Archive.Memory.Growth.{Room, reserve-Holds}
use Prim.Native.Nat.{max}

drop_beyond : (xs ys : Bytes) (n : ℕ) → drop (length xs + n) (xs ++ ys) ≡ drop n ys
drop_beyond [] ys n = ap (λ (m : ℕ). drop m ys) (omega arith)
drop_beyond (x ∷ xs) ys n =
    let e : suc (length xs) + n ≡ suc (length xs + n) = omega arith in
    ap (λ (m : ℕ). drop m (x ∷ xs ++ ys)) e ∙ drop_beyond xs ys n

-- `memcpy` over the first of the spare bytes.
memcpy-spare :
    {a : MemoryArchive} {front body spare : Bytes} (p : Bytes)
    → Holds a front body spare
    → length p ≤ length spare
    → memcpy a.buffer a.end p ≡ ok (front ++ (body ++ p ++ drop (length p) spare))
unfolding memcpy
memcpy-spare {a} {front} {body} {spare} p h enough =
    rw (le→leb (a.end + length p) (length a.buffer) (omega (arith, capacity_lem h, h.at_end)))
      (rw (before, after) (ap ok together))
  where
    apart : a.buffer ≡ (front ++ body) ++ spare
    apart = h.parts ∙ sym (append_assoc front body spare)

    place : a.end ≡ length (front ++ body)
    place = h.at_end ∙ sym (length-append front body)

    before : take a.end a.buffer ≡ front ++ body
    before = rw (apart) (take_at a.end (front ++ body) spare place)

    after : drop (a.end + length p) a.buffer ≡ drop (length p) spare
    after = rw (apart, place) (drop_beyond (front ++ body) spare (length p))

    together :
        front ++ body ++ p ++ drop (length p) spare ≡ front ++ (body ++ p ++ drop (length p) spare)
    together =
        ap (◌++ drop (length p) spare) (append_assoc front body p)
        ∙ append_assoc front (body ++ p) (drop (length p) spare)

-- The capacity that `prepare_write` asks for, twice the old one or what is needed.
wanted : ℕ → ℕ → ℕ
wanted cap need = max (cap * 2 % size_t_max) (need % size_t_max)

wanted_lem :
    (cap need : ℕ)
    → cap < need
    → need < 0x1000000000000000
    → (cap < wanted cap need)
      × (wanted cap need + 64 < size_t_max)
      × (need ≤ round_up (wanted cap need))
      × (round_up (wanted cap need) < 0x4000000000000000 + 64)
unfolding wanted
wanted_lem cap need h k = (omega arith, omega arith, omega arith, omega arith)

module _ ⦃memory : Allocator⦄ where
  grown-Holds :
      {a : MemoryArchive} {front body spare : Bytes} (m n : ℕ)
      → Holds a front body spare
      → Room (m + n) a
      → capacity a < a.end + m
      → (fresh : Bytes) × Holds (reserve (wanted (capacity a) (a.end + m)) a) front body fresh
        × (m ≤ length fresh)
        × Room (m + n) (reserve (wanted (capacity a) (a.end + m)) a)
  grown-Holds {a} m n h room more =
      let (above, fits, enough, small) =
        wanted_lem (capacity a) (a.end + m) more (omega (arith, room.fits)) in
      let (fresh, held, owned, same, size) =
        reserve-Holds (wanted (capacity a) (a.end + m)) h room.owned above fits in
      (
        fresh,
        held,
        omega (arith, capacity_lem held, size, enough, h.at_end),
        record {
          owned = owned;
          small = omega (arith, size, small);
          fits = omega (arith, same, room.fits);
        },
      )

  prepare_write-Holds :
      {a : MemoryArchive} {front body spare : Bytes} (m n : ℕ)
      → Holds a front body spare
      → Room (m + n) a
      → (fresh : Bytes) × Holds (prepare_write m a) front body fresh
        × (m ≤ length fresh)
        × Room (m + n) (prepare_write m a)
  unfolding prepare_write wanted
  prepare_write-Holds {a} {spare} m n h room = elim (Bool-cases (ltb (capacity a - a.end) m)) [
    | inl e ↦ rw (e) (grown-Holds m n h room (omega (arith, ltb→lt (capacity a - a.end) m e)))
    | inr e ↦ rw (e) (spare, h, ground (arith, e, capacity_lem h, h.at_end), room)
  ]

  -- The archive after `p` has been written at its end.
  write_end :
      {a : MemoryArchive} {front body spare : Bytes} (p : Bytes) (n : ℕ)
      → Holds a front body spare
      → length p ≤ length spare
      → Room (length p + n) a
      → Returns
          (memcpy a.buffer a.end p >>= λ buffer.
            advance_end (length p) (record a { buffer = buffer }))
          λ b. (fresh : Bytes) × Holds b front (body ++ p) fresh × Room n b
  unfolding advance_end
  write_end {a} {front} {body} {spare} p n h enough room =
      rw
        (
          memcpy-spare p h enough,
          le→leb (length p) (length (front ++ (body ++ p ++ drop (length p) spare)) - a.end) fits,
        )
        (
          record a {
            buffer = front ++ (body ++ p ++ drop (length p) spare);
            end = a.end + length p;
          },
          refl,
          (
            drop (length p) spare,
            record {
              parts = refl;
              at_cursor = h.at_cursor;
              at_end = omega (arith, h.at_end, length-append body p);
            },
            record {
              owned = room.owned;
              small = omega (arith, size, room.small, capacity_lem h);
              fits = omega (arith, room.fits);
            },
          ),
        )
    where
      size :
          length (front ++ (body ++ p ++ drop (length p) spare))
          ≡ length front + length body + length spare
      size = omega (
        arith,
        length-append front (body ++ p ++ drop (length p) spare),
        length-append (body ++ p) (drop (length p) spare),
        length-append body p,
        length-drop (length p) spare,
      )

      fits : length p ≤ length (front ++ (body ++ p ++ drop (length p) spare)) - a.end
      fits = omega (arith, size, h.at_end)

  pub write_raw-Holds :
      {a : MemoryArchive} {front body spare : Bytes} (p : Bytes) (n : ℕ)
      → Holds a front body spare
      → Room (length p + n) a
      → Returns (write_raw p a) λ b. (fresh : Bytes) × Holds b front (body ++ p) fresh × Room n b
  unfolding write_raw
  write_raw-Holds {a} {front} {body} {spare} [] n h room = (
    a,
    refl,
    (
      spare,
      subst (λ t. Holds a front t spare) (sym (append-nil body)) h,
      record { owned = room.owned; small = room.small; fits = omega (arith, room.fits) },
    ),
  )
  write_raw-Holds (c ∷ p) n h room = rw (lt→ltb 0 (length (c ∷ p)) (omega arith)) (
      let (fresh, held, enough, after) = prepare_write-Holds (length (c ∷ p)) n h room in
      write_end (c ∷ p) n held enough after)
