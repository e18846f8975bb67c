-- ===== src/Master/Path/Split.antt =====
-- The split of a path at its last '/' (`key_of`, `parent_of`) against `join`.
use prpc.Base.{
  length-append, ◌<◌, ℕ, suc, ◌≡◌, refl, ap, inl, inr, ◌≢◌, Bool, true, false, ◌&&◌, not, none,
  some, [], ◌∷◌, ◌++◌, arith, Bytes, eqb, eqb_iff, take, drop, length, Option-cases,
}
use prpc.Master.Path.{
  ends_segment, check_segments, check_valid_path, find_last_of, key_of, parent_of, join,
}

abbrev pub slash_free : Bytes → Bool
slash_free [] = true
slash_free (c ∷ s) = not (eqb c b'/') && slash_free s

-- A key of the tree: one segment of a path.
pub record IsSegment (s : Bytes) : Type 0 where
  pub nonempty : s ≢ []
  pub free : slash_free s ≡ true

pub find_last_of-slash_free : (s : Bytes) → slash_free s ≡ true → find_last_of s ≡ none
unfolding find_last_of
find_last_of-slash_free [] h = refl
find_last_of-slash_free (c ∷ s) h = ground (arith, find_last_of-slash_free s)

pub slash_free_of_none : (s : Bytes) → find_last_of s ≡ none → slash_free s ≡ true
unfolding find_last_of
slash_free_of_none [] h = refl
slash_free_of_none (c ∷ s) h = ground (arith, slash_free_of_none s)

pub find_last_of-join :
    (q k : Bytes) → slash_free k ≡ true → find_last_of (join q k) ≡ some (length q)
unfolding join find_last_of
find_last_of-join [] k h = rw (find_last_of-slash_free k h)
find_last_of-join (c ∷ q) k h = ground (arith, find_last_of-join q k h)

take-length : (q r : Bytes) → take (length q) (q ++ r) ≡ q
take-length [] r = refl
take-length (c ∷ q) r = ap (◌∷◌ c) (take-length q r)

drop-length : (q k : Bytes) (c : ℕ) → drop (suc (length q)) (q ++ c ∷ k) ≡ k
drop-length [] k c = refl
drop-length (d ∷ q) k c = drop-length q k c

pub key_of-join : (q k : Bytes) → slash_free k ≡ true → key_of (join q k) ≡ k
unfolding key_of join
key_of-join q k h = rw (find_last_of-join q k h, key_of) (drop-length q k b'/')

pub parent_of-join : (q k : Bytes) → slash_free k ≡ true → parent_of (join q k) ≡ q
unfolding parent_of join
parent_of-join q k h = rw (find_last_of-join q k h, parent_of) (take-length q _)

split_at : (s : Bytes) (p : ℕ) → find_last_of s ≡ some p → take p s ++ b'/' ∷ drop (suc p) s ≡ s
unfolding find_last_of
split_at [] p h = cc
split_at (c ∷ s) p h = elim (Option-cases (find_last_of s)) [
  | inl e ↦ ground (arith, e, eqb_iff c b'/')
  | inr (i, e) ↦ ground (arith, e, split_at s i)
]

drop-slash_free : (s : Bytes) (p : ℕ) → find_last_of s ≡ some p → slash_free (drop (suc p) s) ≡ true
unfolding find_last_of
drop-slash_free [] p h = refl
drop-slash_free (c ∷ s) p h = elim (Option-cases (find_last_of s)) [
  | inl e ↦ ground (arith, e, slash_free_of_none s)
  | inr (i, e) ↦ ground (arith, e, drop-slash_free s i)
]

-- A valid path has a '/', so that `find_last_of` is not `npos`.
find_last_of_valid : (s : Bytes) → check_valid_path s ≡ true → (p : ℕ) × (find_last_of s ≡ some p)
unfolding check_valid_path find_last_of
find_last_of_valid [] h = cc
find_last_of_valid (c ∷ s) h = elim (Option-cases (find_last_of s)) [
  | inl e ↦ (0, ground (arith, e))
  | inr (i, e) ↦ (suc i, ground (arith, e))
]

check_segments-join : (q : Bytes) → check_segments (join q []) ≡ false
unfolding check_segments ends_segment join
check_segments-join [] = refl
check_segments-join (c ∷ q) = ground (arith, check_segments-join q)

pub valid-segments : (s : Bytes) → check_valid_path s ≡ true → check_segments s ≡ true
unfolding check_valid_path
valid-segments [] h = cc
valid-segments (c ∷ s) h = ground (arith, h)

module _ (s : Bytes) (valid : check_valid_path s ≡ true) where
  pub join-parent-key : join (parent_of s) (key_of s) ≡ s
  unfolding join parent_of key_of
  join-parent-key =
      let (p, e) = find_last_of_valid s valid in rw (e, parent_of, key_of) (split_at s p e)

  pub key_of-IsSegment : IsSegment (key_of s)
  unfolding key_of
  key_of-IsSegment =
      let (p, e) = find_last_of_valid s valid in
      record {
        nonempty = λ z.
            ground (
              arith,
              check_segments-join (parent_of s),
              join-parent-key,
              valid-segments s valid,
              z,
            );
        free = rw (e, key_of) (drop-slash_free s p e);
      }

  pub length-parent_of : length (parent_of s) < length s
  unfolding join
  length-parent_of =
      omega (arith, ap length join-parent-key, length-append (parent_of s) (b'/' ∷ key_of s))

pub length-join : (q k : Bytes) → length q < length (join q k)
unfolding join
length-join q k = omega (arith, length-append q (b'/' ∷ k))

check_segments-append :
    (q r : Bytes)
    → check_segments q ≡ true
    → check_segments r ≡ true
    → check_segments (q ++ r) ≡ true
unfolding check_segments ends_segment
check_segments-append [] r h k = k
check_segments-append (c ∷ []) r h k = ground (arith, h, k)
check_segments-append (c ∷ d ∷ q) r h k = ground (arith, h, check_segments-append (d ∷ q) r)

check_segments-slash_free : (s : Bytes) → slash_free s ≡ true → check_segments s ≡ true
unfolding check_segments
check_segments-slash_free [] h = refl
check_segments-slash_free (c ∷ s) h = ground (arith, check_segments-slash_free s)

check_segments-segment : (k : Bytes) → IsSegment k → check_segments (b'/' ∷ k) ≡ true
unfolding check_segments ends_segment
check_segments-segment [] k = absurd (k.nonempty refl)
check_segments-segment (c ∷ s) k = ground (arith, k.free, check_segments-slash_free (c ∷ s))

-- The paths of the tree are closed under children.
pub join-valid :
    (q k : Bytes) → check_valid_path q ≡ true → IsSegment k → check_valid_path (join q k) ≡ true
unfolding join check_valid_path
join-valid [] k h g = cc
join-valid (c ∷ q) k h g =
    ground (arith, h, check_segments-append (c ∷ q) (b'/' ∷ k), check_segments-segment k g)

pub join_root-valid : (k : Bytes) → IsSegment k → check_valid_path (join [] k) ≡ true
unfolding join check_valid_path
join_root-valid k g = check_segments-segment k g
