-- ===== src/Base/Sets.antt =====
-- `std::set<std::string>`: the list of its members in the order of their bytes.
pub mod Order
use mathlib.Core.Path.{◌≡◌, refl}
use mathlib.Core.Bool.{Bool, true, false, ◌&&◌, ◌||◌}
use mathlib.Core.List.{List, [], ◌∷◌}
use native.Mathlib.Omega.{arith}
use prpc.Base.Tests.{Bytes, bytes_beq, bytes_beq_iff, ltb, eqb, if◌then◌else◌}

-- `std::string::operator<`
unfoldable pub lex_lt : Bytes → Bytes → Bool
lex_lt s [] = false
lex_lt [] (d ∷ t) = true
lex_lt (c ∷ s) (d ∷ t) = ltb c d || (eqb c d && lex_lt s t)

unfoldable pub contains : Bytes → List Bytes → Bool
contains k [] = false
contains k (j ∷ s) = bytes_beq j k || contains k s

-- `insert(k)`, which changes nothing where the member is there
unfoldable pub insert : Bytes → List Bytes → List Bytes
insert k [] = k ∷ []
insert k (j ∷ s) =
    let rest = insert k s in
    if bytes_beq j k then j ∷ s else if lex_lt k j then k ∷ j ∷ s else j ∷ rest

-- `erase(k)`; members are unique
unfoldable pub remove : Bytes → List Bytes → List Bytes
remove k [] = []
remove k (j ∷ s) = let rest = remove k s in if bytes_beq j k then rest else j ∷ rest

pub contains-insert :
    (k j : Bytes) (s : List Bytes) → contains j (insert k s) ≡ (bytes_beq k j || contains j s)
unfolding contains insert
contains-insert k j [] = refl
contains-insert k j (i ∷ s) =
    ground (arith, contains-insert k j s, bytes_beq_iff k j, bytes_beq_iff i k, bytes_beq_iff i j)

pub contains-remove :
    (k j : Bytes) (s : List Bytes)
    → contains j (remove k s) ≡ (if bytes_beq k j then false else contains j s)
unfolding contains remove
contains-remove k j [] = ground arith
contains-remove k j (i ∷ s) =
    ground (arith, contains-remove k j s, bytes_beq_iff k j, bytes_beq_iff i k, bytes_beq_iff i j)
