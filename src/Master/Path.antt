-- ===== src/Master/Path.antt =====
-- Paths of the metadata tree: `master_check_valid_path` of src/rpc/Master.cpp, the split of a path
-- at its last '/', and the generated keys of `master_gen`.
pub mod Segments
pub mod Split
pub mod Keys
use prpc.Base.{
  ℕ, zero, suc, ◌+◌, ◌-◌, ◌*◌, ◌/◌, ◌%◌, ◌<◌, ◌≡◌, refl, Bool, true, false, ◌&&◌, ◌||◌, not, Option,
  none, some, List, [], ◌∷◌, ◌++◌, arith, Bytes, eqb, ltb, if◌then◌else◌, take, drop, length,
}

-- `i + 1 == path.size() || path[i + 1] == '/'`, read off what follows `path[i]`
unfoldable pub ends_segment : Bytes → Bool
ends_segment [] = true
ends_segment (c ∷ s) = eqb c b'/'

-- the loop of `master_check_valid_path`
unfoldable pub check_segments : Bytes → Bool
check_segments [] = true
check_segments (c ∷ s) =
    let rest = check_segments s in if eqb c b'/' && ends_segment s then false else rest

unfoldable pub check_valid_path : Bytes → Bool
unfolding check_segments ends_segment
check_valid_path [] = false
check_valid_path (c ∷ s) = if eqb c b'/' then check_segments (c ∷ s) else false

-- `path.find_last_of('/')`, with `npos` as `none`
unfoldable pub find_last_of : Bytes → Option ℕ
find_last_of [] = none
find_last_of (c ∷ s) = elim (find_last_of s) [
  | some i ↦ some (suc i)
  | none ↦ if eqb c b'/' then some 0 else none
]

-- `path.substr(p + 1)`; `npos + 1` is 0
unfoldable pub key_of : Bytes → Bytes
key_of path = elim (find_last_of path) [ some p ↦ drop (suc p) path | none ↦ path ]

-- `path.substr(0, p)`
unfoldable pub parent_of : Bytes → Bytes
parent_of path = elim (find_last_of path) [ some p ↦ take p path | none ↦ path ]

-- `parent + "/" + key`
unfoldable pub join : Bytes → Bytes → Bytes
join parent key = parent ++ b'/' ∷ key

-- the decimal digits of `n` in front of `rest`; one round of fuel for a digit
unfoldable pub digits : ℕ → ℕ → Bytes → Bytes
digits zero n rest = rest
digits (suc f) n rest =
    let more = digits f (n / 10) ((b'0' + n % 10) ∷ rest) in
    if ltb n 10 then (b'0' + n) ∷ rest else more

-- `std::to_string` of a non-negative `int`
unfoldable pub to_string : ℕ → Bytes
unfolding digits
to_string n = digits (suc n) n []

-- `while (key.length() < 10) key = '0' + key`, on fuel
unfoldable pub pad : ℕ → Bytes → Bytes
pad zero key = key
pad (suc f) key = let more = pad f (b'0' ∷ key) in if ltb (length key) 10 then more else key

-- the key for the counter's value `n`; ten rounds pad any key
unfoldable pub gen_key : ℕ → Bytes
unfolding to_string pad
gen_key n = b'_' ∷ pad 10 (to_string n)
