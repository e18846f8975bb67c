-- ===== src/Archive/Memory/Reading.antt =====
-- Reading: `read_raw` and `read_back`.
use prpc.Base.{ℕ, ◌+◌, ◌-◌, ◌≤◌, ◌<◌, ◌≡◌, refl, sym, ap, ◌∙◌, true}
use prpc.Base.{[], ◌∷◌, ◌++◌, append_assoc, arith, length, take, drop, Bytes}
use prpc.Base.{length-append, length-take, take-append-drop, subst}
use prpc.Base.Outcome.{ok, fault}
use prpc.Archive.{
  MemoryArchive, advance_cursor, prepare_read, read_raw, read_raw_uncheck, read_back,
}
use prpc.Archive.Memory.{Holds, take_at, drop_at}

-- The archive after `p` has been read.
abbrev pub past : MemoryArchive → Bytes → MemoryArchive
past a p = record a { cursor = a.cursor + length p }

-- The bytes that `memcpy` takes are the ones to be read.
bytes_at_cursor :
    {a : MemoryArchive} {front : Bytes} (p body : Bytes) {spare : Bytes}
    → Holds a front (p ++ body) spare
    → take (length p) (drop a.cursor a.buffer) ≡ p
bytes_at_cursor {a} {front} p body {spare} h =
    rw (h.parts, drop_at a.cursor front (p ++ body ++ spare) h.at_cursor, append_assoc)
      (take_at (length p) p (body ++ spare) refl)

pub past-Holds :
    {a : MemoryArchive} {front : Bytes} (p body : Bytes) {spare : Bytes}
    → Holds a front (p ++ body) spare
    → Holds (past a p) (front ++ p) body spare
past-Holds {front} p body {spare} h = record {
  parts =
      h.parts
      ∙ ap (front ++◌) (append_assoc p body spare)
      ∙ sym (append_assoc front p (body ++ spare));
  at_cursor = omega (arith, h.at_cursor, length-append front p);
  at_end = omega (arith, h.at_end, length-append front p, length-append p body);
}

read_raw_some :
    {a : MemoryArchive} {front : Bytes} (c : ℕ) (p body : Bytes) {spare : Bytes}
    → Holds a front (c ∷ p ++ body) spare
    → read_raw (length (c ∷ p)) a ≡ ok (c ∷ p, past a (c ∷ p))
unfolding read_raw prepare_read advance_cursor
read_raw_some {a} {front} c p body {spare} h =
    ground
      (arith, bytes_at_cursor (c ∷ p) body h, h.at_cursor, h.at_end, length-append (c ∷ p) body)

pub read_raw-Holds :
    {a : MemoryArchive} {front : Bytes} (p body : Bytes) {spare : Bytes}
    → Holds a front (p ++ body) spare
    → read_raw (length p) a ≡ ok (p, past a p)
unfolding read_raw
read_raw-Holds {a} [] body h =
    let e : a.cursor ≡ a.cursor + 0 = omega arith in
    ap (λ (c : ℕ). ok ([], record a { cursor = c })) e
read_raw-Holds (c ∷ p) body h = read_raw_some c p body h

pub read_raw-fault :
    {a : MemoryArchive} {front body spare : Bytes} (n : ℕ)
    → Holds a front body spare
    → length body < n
    → read_raw n a ≡ fault
unfolding read_raw prepare_read
read_raw-fault n h short = ground (arith, h.at_cursor, h.at_end)

-- For an archive that holds `body` to be read, `read_raw` of any length gives that many of its first
-- bytes and leaves the others, and ends the process where there are not so many.
pub read_raw-take :
    {a : MemoryArchive} {front body spare : Bytes} (n : ℕ)
    → Holds a front body spare
    → (n ≤ length body
        → (b : MemoryArchive) × (read_raw n a ≡ ok (take n body, b))
          × Holds b (front ++ take n body) (drop n body) spare)
      × (length body < n → read_raw n a ≡ fault)
read_raw-take {a} {front} {body} {spare} n h = (enough, read_raw-fault n h)
  where
    split : Holds a front (take n body ++ drop n body) spare
    split = subst (λ t. Holds a front t spare) (sym (take-append-drop n body)) h

    enough :
        n ≤ length body
        → (b : MemoryArchive) × (read_raw n a ≡ ok (take n body, b))
          × Holds b (front ++ take n body) (drop n body) spare
    enough small =
        let same : length (take n body) ≡ n = omega (arith, length-take n body) in
        (
          past a (take n body),
          subst (λ m. read_raw m a ≡ ok (take n body, past a (take n body))) same
              (read_raw-Holds (take n body) (drop n body) split),
          past-Holds (take n body) (drop n body) split,
        )

pub read_raw_uncheck-Holds :
    {a : MemoryArchive} {front : Bytes} (p body : Bytes) {spare : Bytes}
    → Holds a front (p ++ body) spare
    → read_raw_uncheck (length p) a ≡ ok (true, p, past a p)
unfolding read_raw_uncheck
read_raw_uncheck-Holds {a} [] body h =
    let e : a.cursor ≡ a.cursor + 0 = omega arith in
    ap (λ (c : ℕ). ok (true, [], record a { cursor = c })) e
read_raw_uncheck-Holds (c ∷ p) body h =
    ground (arith, read_raw-Holds (c ∷ p) body h, h.at_cursor, h.at_end, length-append (c ∷ p) body)

-- `read_back` takes the last bytes that were written, and they become spare memory.
abbrev pub unwritten : MemoryArchive → Bytes → MemoryArchive
unwritten a p = record a { end = a.end - length p }

bytes_at_end :
    {a : MemoryArchive} {front : Bytes} (body p : Bytes) {spare : Bytes}
    → Holds a front (body ++ p) spare
    → take (length p) (drop (a.end - length p) a.buffer) ≡ p
bytes_at_end {a} {front} body p {spare} h =
    rw (apart, drop_at (a.end - length p) (front ++ body) (p ++ spare) start)
      (take_at (length p) p spare refl)
  where
    apart : a.buffer ≡ (front ++ body) ++ (p ++ spare)
    apart =
        h.parts
        ∙ ap (front ++◌) (append_assoc body p spare)
        ∙ sym (append_assoc front body (p ++ spare))

    start : a.end - length p ≡ length (front ++ body)
    start = omega (arith, h.at_end, length-append front body, length-append body p)

pub unwritten-Holds :
    {a : MemoryArchive} {front : Bytes} (body p : Bytes) {spare : Bytes}
    → Holds a front (body ++ p) spare
    → Holds (unwritten a p) front body (p ++ spare)
unwritten-Holds {front} body p {spare} h = record {
  parts = h.parts ∙ ap (front ++◌) (append_assoc body p spare);
  at_cursor = h.at_cursor;
  at_end = omega (arith, h.at_end, length-append body p);
}

pub read_back-Holds :
    {a : MemoryArchive} {front : Bytes} (body p : Bytes) {spare : Bytes}
    → Holds a front (body ++ p) spare
    → read_back (length p) a ≡ ok (p, unwritten a p)
unfolding read_back
read_back-Holds {a} body [] h =
    let e : a.end ≡ a.end - 0 = omega arith in ap (λ (c : ℕ). ok ([], record a { end = c })) e
read_back-Holds body (c ∷ p) h =
    ground (arith, bytes_at_end body (c ∷ p) h, h.at_cursor, h.at_end, length-append body (c ∷ p))
