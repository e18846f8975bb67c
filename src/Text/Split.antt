-- ===== src/Text/Split.antt =====
-- `split` and `split_lines` of src/misc/StringUtility.h. A `char*` is the text up to its '\0'; a token
-- is the text that its pointer and length give, and the second result is the buffer afterwards.
pub mod Tokens
use prpc.Base.{
  ℕ, zero, suc, ◌≡◌, Bool, true, false, ◌||◌, not, Option, none, some, List, [], ◌∷◌, ◌++◌, Bytes,
  eqb, if◌then◌else◌, length,
}
use prpc.Base.Outcome.{Outcome, ok, fault, ◌>>=◌, ◌>>◌, check}

-- the inner loop: the token, and the text from where it stops
unfoldable pub scan : (ℕ → Bool) → Bytes → Bytes × Bytes
scan stops [] = ([], [])
scan stops (c ∷ s) =
    let (token, rest) = scan stops s in if stops c then ([], c ∷ s) else (c ∷ token, rest)

-- the outer loop, on a round of fuel for each token
unfoldable pub tokens : ℕ → (ℕ → Bool) → Bytes → List Bytes × Bytes
unfolding scan
tokens zero stops s = ([], s)
tokens (suc f) stops s =
    let (token, rest) = scan stops s in
    elim rest [
      | [] ↦ (token ∷ [], token)
      | c ∷ rest' ↦
          let (output, buffer) = tokens f stops rest' in (token ∷ output, token ++ 0 ∷ buffer)
    ]

abbrev pub is_delim : ℕ → ℕ → Bool
is_delim delim c = eqb c delim

abbrev pub is_delim_or_newline : ℕ → ℕ → Bool
is_delim_or_newline delim c = eqb c delim || eqb c 10

-- A null pointer gives no token.
unfoldable pub split : ℕ → Option Bytes → Outcome (List Bytes × Bytes)
unfolding tokens
split delim none = check (not (eqb delim 0)) >> ok ([], [])
split delim (some s) = check (not (eqb delim 0)) >> ok (tokens (suc (length s)) (is_delim delim) s)

unfoldable pub split_lines : ℕ → Option Bytes → Outcome (List Bytes × Bytes)
unfolding tokens
split_lines delim none = check (not (eqb delim 0)) >> ok ([], [])
split_lines delim (some s) =
    check (not (eqb delim 0)) >> ok (tokens (suc (length s)) (is_delim_or_newline delim) s)
