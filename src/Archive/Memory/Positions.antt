-- ===== src/Archive/Memory/Positions.antt =====
-- The positions of an archive stay in order through each of its operations.
use prpc.Base.{ℕ, ◌+◌, ◌-◌, ◌*◌, ◌%◌, ◌≤◌, ◌<◌, ◌≡◌, refl, sym, ap, ◌∙◌, subst}
use prpc.Base.{Bool, true, false, ◌++◌, arith, length, take, drop, Bytes}
use prpc.Base.{
  length-append, length-take, length-drop, take-append-drop, ltb, leb, eqb, ltb→lt, leb→le,
  Bool-cases, inl, inr,
}
use prpc.Base.Outcome.{Outcome, ok, fault, ok-injective, ◌>>=◌}
use prpc.Archive.{
  Allocator, size_t_max, MemoryArchive, capacity, reset, set_buffer, memcpy, set_cursor,
  advance_cursor, set_end, advance_end, read_raw, read_back, resize, assign, copy, reserve, move_to,
  buf_realloc, round_up, prepare_write, write_raw, prepare_read,
}
use prpc.Archive.Memory.{Holds}
use prpc.Archive.Memory.Growth.{buf_realloc-Holds}
use Prim.Native.Nat.{max}
use prpc.Archive.Calls.{IsArchive}

abbrev pub Safe : Outcome MemoryArchive → Type 0
Safe r = (b : MemoryArchive) → r ≡ ok b → IsArchive b

pub Safe-ok : {a : MemoryArchive} → IsArchive a → Safe (ok a)
Safe-ok {a} h b e = subst IsArchive (ok-injective e) h

pub Safe-bind :
    (m : Outcome Bytes) (f : Bytes → Outcome MemoryArchive)
    → ((t : Bytes) → m ≡ ok t → Safe (f t))
    → Safe (m >>= f)
Safe-bind (ok t) f each b e = each t refl b e
Safe-bind fault f each b e = cc e

module _ (a : MemoryArchive) (h : IsArchive a) where
  pub set_cursor-IsArchive : (n : ℕ) → Safe (set_cursor n a)
  unfolding set_cursor
  set_cursor-IsArchive n b e = ground (arith, e, h)

  pub advance_cursor-IsArchive : (n : ℕ) → Safe (advance_cursor n a)
  unfolding advance_cursor
  advance_cursor-IsArchive n b e = ground (arith, e, h)

  pub set_end-IsArchive : (n : ℕ) → Safe (set_end n a)
  unfolding set_end
  set_end-IsArchive n b e = ground (arith, e, h)

  pub advance_end-IsArchive : (n : ℕ) → Safe (advance_end n a)
  unfolding advance_end
  advance_end-IsArchive n b e = ground (arith, e, h)

  pub set_buffer-IsArchive :
      (is_null : Bool) (buffer : Bytes) (n : ℕ) → Safe (set_buffer is_null buffer n a)
  unfolding set_buffer
  set_buffer-IsArchive is_null buffer n b e = ground (arith, e)

  pub read_raw-IsArchive : (n : ℕ) → Safe (do r ← read_raw n a; ok r.1)
  unfolding read_raw prepare_read advance_cursor
  read_raw-IsArchive n b e = ground (arith, e, h)

  pub read_back-IsArchive : (n : ℕ) → Safe (do r ← read_back n a; ok r.1)
  unfolding read_back
  read_back-IsArchive n b e = ground (arith, e, h)

-- The three parts of an archive whose positions are in order.
pub IsArchive-Holds :
    {a : MemoryArchive} → IsArchive a → (front body spare : Bytes) × Holds a front body spare
IsArchive-Holds {a} (low, high) = (
  take a.cursor a.buffer,
  take (a.end - a.cursor) (drop a.cursor a.buffer),
  drop (a.end - a.cursor) (drop a.cursor a.buffer),
  record {
    parts =
        rw (take-append-drop (a.end - a.cursor) (drop a.cursor a.buffer))
          (sym (take-append-drop a.cursor a.buffer));
    at_cursor = omega (arith, length-take a.cursor a.buffer);
    at_end = omega (
      arith,
      length-take a.cursor a.buffer,
      length-take (a.end - a.cursor) (drop a.cursor a.buffer),
      length-drop a.cursor a.buffer,
    );
  },
)

module _ ⦃memory : Allocator⦄ where
  -- The new buffer of an archive, its own or given.
  pub move_to-IsArchive :
      (a : MemoryArchive) (n : ℕ) (own : Bool)
      → IsArchive a
      → capacity a ≤ n
      → IsArchive (move_to n own a) × (n ≤ capacity (move_to n own a))
  unfolding move_to reset
  move_to-IsArchive a n true h more =
      let (front, body, spare, held) = IsArchive-Holds {a = a} h in
      let (fresh, e, size) = buf_realloc-Holds n a.is_msg held more in
      let len : length (buf_realloc a.buffer a.end n a.is_msg) ≡ n =
        ap length e
        ∙ omega (arith, length-append front (body ++ fresh), length-append body fresh, size) in
      ((h.0, omega (arith, h.1, len)), omega (arith, len))
  move_to-IsArchive a n false h more = (
    (omega arith, omega arith),
    omega (
      arith,
      length-append (take a.end a.buffer) (drop a.end (memory.block n)),
      length-take a.end a.buffer,
      length-drop a.end (memory.block n),
      memory.length-block n,
      h.1,
    ),
  )

  pub reserve-IsArchive :
      (a : MemoryArchive) (n : ℕ)
      → IsArchive a
      → n + 64 < size_t_max
      → IsArchive (reserve n a) × (n ≤ capacity (reserve n a))
  unfolding reserve
  reserve-IsArchive a n h fits = elim (Bool-cases (ltb (capacity a) n)) [
    | inl e ↦ rw (e) (
        let more : capacity a < n = ltb→lt (capacity a) n e in
        let ((low, high), size) =
          move_to-IsArchive a (round_up n) a.is_default_malloc h (omega arith) in
        ((low, high), omega (arith, size)))
    | inr e ↦ rw (e) (h, ground (arith, e))
  ]

  pub resize-IsArchive :
      (a : MemoryArchive) (n : ℕ)
      → IsArchive a
      → capacity a < 0x4000000000000000
      → n < 0x4000000000000000
      → IsArchive (resize n a)
  unfolding resize
  resize-IsArchive a n h small fits = elim (Bool-cases (ltb (capacity a) n)) [
    | inl e ↦ rw (e) (
        let ((low, high), size) =
          reserve-IsArchive a (max (capacity a * 2 % size_t_max) n) h (omega arith) in
        (omega arith, omega (arith, size)))
    | inr e ↦ rw (e) (omega arith, ground (arith, e))
  ]

  pub prepare_write-IsArchive :
      (a : MemoryArchive) (n : ℕ)
      → IsArchive a
      → capacity a < 0x4000000000000000
      → n < 0x4000000000000000
      → IsArchive (prepare_write n a)
  unfolding prepare_write
  prepare_write-IsArchive a n h small fits = elim (Bool-cases (ltb (capacity a - a.end) n)) [
    | inl e ↦
        rw (e)
          (reserve-IsArchive a (max (capacity a * 2 % size_t_max) ((a.end + n) % size_t_max)) h
            (omega (arith, h.1))).0
    | inr e ↦ rw (e) h
  ]

pub length-memcpy :
    (buffer : Bytes) (at : ℕ) (p t : Bytes) → memcpy buffer at p ≡ ok t → length t ≡ length buffer
unfolding memcpy
length-memcpy buffer at p t e = elim (Bool-cases (leb (at + length p) (length buffer))) [
  | inl b ↦
      let room = leb→le (at + length p) (length buffer) b in
      let same : take at buffer ++ p ++ drop (at + length p) buffer ≡ t =
        ok-injective (rw (b) at e) in
      ap length (sym same)
      ∙ omega (
        arith,
        length-append (take at buffer ++ p) (drop (at + length p) buffer),
        length-append (take at buffer) p,
        length-take at buffer,
        length-drop (at + length p) buffer,
      )
  | inr b ↦ cc (b, e)
]

pub memcpy_fits :
    (buffer : Bytes) (at : ℕ) (p t : Bytes) → memcpy buffer at p ≡ ok t → at + length p ≤ length t
memcpy_fits buffer at p t e = elim (Bool-cases (leb (at + length p) (length buffer))) [
  | inl b ↦ omega (arith, leb→le (at + length p) (length buffer) b, length-memcpy buffer at p t e)
  | inr b ↦ unfold memcpy in cc (b, e)
]

module _ ⦃memory : Allocator⦄ where
  pub write_raw-IsArchive :
      (a : MemoryArchive) (p : Bytes)
      → IsArchive a
      → capacity a < 0x4000000000000000
      → length p < 0x4000000000000000
      → Safe (write_raw p a)
  unfolding write_raw
  write_raw-IsArchive a p h small fits = elim (Bool-cases (ltb 0 (length p))) [
    | inl l ↦
        let a = prepare_write (length p) a in
        let g : IsArchive a = prepare_write-IsArchive _ (length p) h small fits in
        rw (l) (
          Safe-bind (memcpy a.buffer a.end p) _ λ t c.
            let same = length-memcpy a.buffer a.end p t c in
            advance_end-IsArchive (record a { buffer = t }) (g.0, omega (arith, g.1, same))
              (length p))
    | inr l ↦ rw (l) (Safe-ok h)
  ]

  pub assign-IsArchive :
      (a : MemoryArchive) (is_null : Bool) (p : Bytes) → IsArchive a → Safe (assign is_null p a)
  unfolding assign
  assign-IsArchive a true p h = λ b e. cc e
  assign-IsArchive a false p h =
      Safe-bind (memcpy _ 0 p) _ λ t c. Safe-ok (omega arith, omega (arith, memcpy_fits _ 0 p t c))

  pub copy-IsArchive : (other a : MemoryArchive) → IsArchive other → Safe (copy other a)
  unfolding copy reset
  copy-IsArchive other a h = elim (Bool-cases (eqb (capacity other) 0)) [
    | inl e ↦ rw (e) (Safe-ok (omega arith, omega arith))
    | inr e ↦ rw (e) (
        Safe-bind (memcpy (memory.block (capacity other)) 0 (take other.end other.buffer)) _ λ t c.
          Safe-ok (
            h.0,
            omega (
              arith,
              h.1,
              memory.length-block (capacity other),
              length-memcpy (memory.block (capacity other)) 0 (take other.end other.buffer) t c,
            ),
          ))
  ]
