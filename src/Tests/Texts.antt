-- ===== src/Tests/Texts.antt =====
-- Runs of the text helpers: src/misc/StringUtility.h.
use prpc.Base.{◌≡◌, refl, some, [], ◌∷◌, Bytes, arith}
use prpc.Base.Outcome.{ok, Returns}
use prpc.Text.Split.Tokens.{Splits, split-Splits, split_lines-Splits}
use prpc.Text.Split.{is_delim, is_delim_or_newline, split, split_lines, tokens, scan}

-- "a,b"
abbrev text : Bytes
text = b'a' ∷ b',' ∷ b',' ∷ b'b' ∷ []

three_tokens :
    split b',' (some text) ≡ ok ((b'a' ∷ []) ∷ [] ∷ (b'b' ∷ []) ∷ [], b'a' ∷ 0 ∷ 0 ∷ b'b' ∷ [])
unfolding split tokens scan
three_tokens = refl

split-Splits_example : Returns (split b',' (some text)) (Splits (is_delim b',') text)
split-Splits_example = split-Splits b',' text (λ h. absurd (omega arith))

split_lines-Splits_example :
    Returns (split_lines b';' (some text)) (Splits (is_delim_or_newline b';') text)
split_lines-Splits_example = split_lines-Splits b';' text (λ h. absurd (omega arith))
