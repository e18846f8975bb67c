-- ===== src/Master/Path/Segments.antt =====
-- `master_check_valid_path` against a grammar of paths.
use prpc.Base.{
  ◌≡◌, refl, ap, inl, inr, ◌≢◌, ◌↔◌, true, false, List, [], ◌∷◌, ◌++◌, arith, Bytes, eqb, eqb_iff,
  Bool-cases,
}
use prpc.Master.Path.Split.{IsSegment, slash_free, valid-segments}
use prpc.Master.Path.{ends_segment, check_segments, check_valid_path}

-- `/a/b/c` of `a`, `b` and `c`
abbrev pub unsplit : List Bytes → Bytes
unsplit [] = []
unsplit (k ∷ ks) = b'/' ∷ k ++ unsplit ks

abbrev pub AllSegments : List Bytes → Type 0
AllSegments [] = Unit {0}
AllSegments (k ∷ ks) = IsSegment k × AllSegments ks

-- one or more segments, each behind a '/'
pub record IsPath (p : Bytes) : Type 0 where
  pub first : Bytes
  pub others : List Bytes
  pub segments : AllSegments (first ∷ others)
  pub spelled : p ≡ unsplit (first ∷ others)

check_segments-prefix :
    (k r : Bytes) → slash_free k ≡ true → check_segments r ≡ true → check_segments (k ++ r) ≡ true
unfolding check_segments
check_segments-prefix [] r h g = g
check_segments-prefix (c ∷ k) r h g = ground (arith, check_segments-prefix k r)

check_segments-one :
    (k r : Bytes) → IsSegment k → check_segments r ≡ true → check_segments (b'/' ∷ k ++ r) ≡ true
unfolding check_segments ends_segment
check_segments-one [] r g h = absurd (g.nonempty refl)
check_segments-one (c ∷ k) r g h = ground (arith, g.free, check_segments-prefix (c ∷ k) r g.free h)

check_segments-unsplit : (ks : List Bytes) → AllSegments ks → check_segments (unsplit ks) ≡ true
unfolding check_segments
check_segments-unsplit [] a = refl
check_segments-unsplit (k ∷ ks) a =
    check_segments-one k (unsplit ks) a.0 (check_segments-unsplit ks a.1)

-- A rest of a path: the end of a segment, and the segments behind it.
record Rest (s : Bytes) : Type 0 where
  here : Bytes
  others : List Bytes
  free : slash_free here ≡ true
  segments : AllSegments others
  spelled : s ≡ here ++ unsplit others

next_segment :
    (s here : Bytes) (others : List Bytes)
    → ends_segment s ≡ false
    → s ≡ here ++ unsplit others
    → here ≢ []
unfolding ends_segment
next_segment s [] [] h e = λ _. ground (arith, h, e)
next_segment s [] (k ∷ ks) h e = λ _. ground (arith, h, e)
next_segment s (c ∷ k) ks h e = λ z. cc

split-Rest : (s : Bytes) → check_segments s ≡ true → Rest s
unfolding check_segments
split-Rest [] h = record { here = []; others = []; free = refl; segments = tt; spelled = refl }
split-Rest (c ∷ s) h =
    let r : Rest s = split-Rest s (ground (arith, h)) in
    elim (Bool-cases (eqb c b'/')) [
      | inl e ↦ record {
        here = [];
        others = r.here ∷ r.others;
        free = refl;
        segments = (
          record {
            nonempty = next_segment s r.here r.others (ground (arith, h, e)) r.spelled;
            free = r.free;
          },
          r.segments,
        );
        spelled = ground (arith, r.spelled, (eqb_iff c b'/').0 e);
      }
      | inr e ↦ record {
        here = c ∷ r.here;
        others = r.others;
        free = ground (arith, e, r.free);
        segments = r.segments;
        spelled = ap (◌∷◌ c) r.spelled;
      }
    ]

rest-IsPath :
    (p here : Bytes) (others : List Bytes)
    → check_valid_path p ≡ true
    → slash_free here ≡ true
    → AllSegments others
    → p ≡ here ++ unsplit others
    → IsPath p
unfolding check_valid_path
rest-IsPath p [] [] h f a e = absurd (ground (arith, (rw e at h)))
rest-IsPath p [] (k ∷ ks) h f a e = record { first = k; others = ks; segments = a; spelled = e }
rest-IsPath p (c ∷ s) ks h f a e = absurd (ground (arith, f, (rw e at h)))

path-valid :
    (k : Bytes) (ks : List Bytes)
    → AllSegments (k ∷ ks)
    → check_valid_path (unsplit (k ∷ ks)) ≡ true
unfolding check_valid_path
path-valid k ks a = check_segments-unsplit (k ∷ ks) a

-- The check accepts the paths of the grammar, and nothing else.
pub check_valid_path_iff : (p : Bytes) → (check_valid_path p ≡ true) ↔ IsPath p
check_valid_path_iff p = (
  λ h.
      let r = split-Rest p (valid-segments p h) in
      rest-IsPath p r.here r.others h r.free r.segments r.spelled,
  λ g. rw g.spelled (path-valid g.first g.others g.segments),
)
