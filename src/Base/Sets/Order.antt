-- ===== src/Base/Sets/Order.antt =====
-- The order of `std::string`, and that a set of strings stays sorted by it.
use prpc.Base.Tests.{Bytes, bytes_beq, bytes_beq_iff}
use prpc.Base.Sets.{lex_lt, insert, remove}
use mathlib.Core.Path.{◌≡◌, refl}
use mathlib.Core.Bool.{true, false}
use mathlib.Core.List.{List, [], ◌∷◌}
use native.Mathlib.Omega.{arith}

pub lex_lt_irrefl : (s : Bytes) → lex_lt s s ≡ false
unfolding lex_lt
lex_lt_irrefl [] = refl
lex_lt_irrefl (c ∷ s) = ground (arith, lex_lt_irrefl s)

pub lex_lt_trans : (s t u : Bytes) → lex_lt s t ≡ true → lex_lt t u ≡ true → lex_lt s u ≡ true
unfolding lex_lt
lex_lt_trans s [] u h g = cc
lex_lt_trans s (d ∷ t) [] h g = cc
lex_lt_trans [] (d ∷ t) (e ∷ u) h g = refl
lex_lt_trans (c ∷ s) (d ∷ t) (e ∷ u) h g = ground (arith, h, g, lex_lt_trans s t u)

-- two strings that are not the same are in order one way
pub lex_lt_total : (s t : Bytes) → bytes_beq s t ≡ false → lex_lt s t ≡ false → lex_lt t s ≡ true
unfolding lex_lt
lex_lt_total [] [] h g = cc
lex_lt_total [] (d ∷ t) h g = cc
lex_lt_total (c ∷ s) [] h g = refl
lex_lt_total (c ∷ s) (d ∷ t) h g = ground (arith, h, g, lex_lt_total s t)

abbrev pub Above : Bytes → List Bytes → Type 0
Above k [] = Unit {0}
Above k (j ∷ s) = (lex_lt k j ≡ true) × Above k s

-- strictly increasing
abbrev pub IsSorted : List Bytes → Type 0
IsSorted [] = Unit {0}
IsSorted (k ∷ s) = Above k s × IsSorted s

Above-mono : (i j : Bytes) (s : List Bytes) → lex_lt i j ≡ true → Above j s → Above i s
Above-mono i j [] h a = tt
Above-mono i j (k ∷ s) h a = (lex_lt_trans i j k h a.0, Above-mono i j s h a.1)

insert-Above : (i k : Bytes) (s : List Bytes) → lex_lt i k ≡ true → Above i s → Above i (insert k s)
unfolding insert
insert-Above i k [] h a = (h, tt)
insert-Above i k (j ∷ s) h a = ground (arith, h, a, insert-Above i k s)

pub insert-IsSorted : (k : Bytes) (s : List Bytes) → IsSorted s → IsSorted (insert k s)
unfolding insert
insert-IsSorted k [] a = (tt, tt)
insert-IsSorted k (j ∷ s) a = ground (
  arith,
  a,
  insert-IsSorted k s,
  lex_lt_total k j,
  bytes_beq_iff k j,
  bytes_beq_iff j k,
  insert-Above j k s,
  Above-mono k j s,
)

remove-Above : (i k : Bytes) (s : List Bytes) → Above i s → Above i (remove k s)
unfolding remove
remove-Above i k [] a = tt
remove-Above i k (j ∷ s) a = ground (arith, a, remove-Above i k s)

pub remove-IsSorted : (k : Bytes) (s : List Bytes) → IsSorted s → IsSorted (remove k s)
unfolding remove
remove-IsSorted k [] a = tt
remove-IsSorted k (j ∷ s) a = ground (arith, a, remove-IsSorted k s, remove-Above j k s)
