-- ===== src/Text/Split/Tokens.antt =====
-- What the tokens and the buffer are.
use prpc.Base.{
  ℕ, zero, suc, ◌≡◌, ◌≤◌, ◌<◌, refl, sym, ap, subst, ◌∙◌, ◌≢◌, inl, inr, Bool, true, false, some,
  List, [], ◌∷◌, ◌++◌, map, Bytes, eqb, if◌then◌else◌, length, arith, Bool-cases, append-nil,
}
use prpc.Base.Outcome.{Returns}
use prpc.Text.Split.{scan, tokens, is_delim, is_delim_or_newline, split, split_lines}

-- The tokens one after another, with `c` between them.
abbrev pub joined : ℕ → List Bytes → Bytes
joined c [] = []
joined c (t ∷ []) = t
joined c (t ∷ u ∷ ts) = t ++ c ∷ joined c (u ∷ ts)

abbrev pub free_of : (ℕ → Bool) → Bytes → Bool
free_of stops [] = true
free_of stops (c ∷ s) = if stops c then false else free_of stops s

abbrev pub AllFree : (ℕ → Bool) → List Bytes → Type 0
AllFree stops [] = Unit {0}
AllFree stops (t ∷ ts) = (free_of stops t ≡ true) × AllFree stops ts

abbrev pub zeroed : (ℕ → Bool) → Bytes → Bytes
zeroed stops s = map (λ c. if stops c then 0 else c) s

-- The text is the token and the rest, and the rest is empty or begins with a stop.
record Scanned (stops : ℕ → Bool) (s : Bytes) (out : Bytes × Bytes) : Type 0 where
  spelled : s ≡ out.0 ++ out.1
  free : free_of stops out.0 ≡ true
  shorter : length out.1 ≤ length s
  stopped : (c : ℕ) (r : Bytes) → out.1 ≡ c ∷ r → stops c ≡ true

scan-Scanned : (stops : ℕ → Bool) (s : Bytes) → Scanned stops s (scan stops s)
unfolding scan
scan-Scanned stops [] = record {
  spelled = refl;
  free = refl;
  shorter = omega arith;
  stopped = λ c r h. cc;
}
scan-Scanned stops (d ∷ s) = elim (Bool-cases (stops d)) [
  | inl here ↦
      rw here record {
        spelled = refl;
        free = refl;
        shorter = omega arith;
        stopped = λ c r h. cc (h, here);
      }
  | inr further ↦
      let i = scan-Scanned stops s in
      rw further record {
        spelled = ap (◌∷◌ d) i.spelled;
        free = rw further i.free;
        shorter = omega (arith, i.shorter);
        stopped = i.stopped;
      }
]

nonzero : (delim : ℕ) → delim ≢ 0 → eqb delim 0 ≡ false
nonzero delim h = ground (arith, h)

-- What a split text looks like: in the buffer a 0 stands for each stop, and it is the tokens, each
-- ended by a 0.
pub record Splits (stops : ℕ → Bool) (s : Bytes) (out : List Bytes × Bytes) : Type 0 where
  pub free : AllFree stops out.0
  pub buffer : out.1 ≡ zeroed stops s
  pub in_place : out.1 ≡ joined 0 out.0
  pub some_token : out.0 ≢ []

zeroed-free : (stops : ℕ → Bool) (t : Bytes) → free_of stops t ≡ true → zeroed stops t ≡ t
zeroed-free stops [] h = refl
zeroed-free stops (c ∷ t) h = elim (Bool-cases (stops c)) [
  | inl here ↦ absurd (cc ((rw here at h)))
  | inr further ↦ rw further (ap (◌∷◌ c) (zeroed-free stops t (rw further at h)))
]

zeroed-append :
    (stops : ℕ → Bool) (s t : Bytes) → zeroed stops (s ++ t) ≡ zeroed stops s ++ zeroed stops t
zeroed-append stops [] t = refl
zeroed-append stops (c ∷ s) t = ap (◌∷◌ (if stops c then 0 else c)) (zeroed-append stops s t)

joined-more :
    (c : ℕ) (t : Bytes) (ts : List Bytes) → ts ≢ [] → joined c (t ∷ ts) ≡ t ++ c ∷ joined c ts
joined-more c t [] h = absurd (h refl)
joined-more c t (u ∷ ts) h = refl

module _ (f : ℕ) (stops : ℕ → Bool) (s token : Bytes) where
  round : Bytes × Bytes → List Bytes × Bytes
  round out = elim out.1 [
    | [] ↦ (out.0 ∷ [], out.0)
    | c ∷ r ↦ (out.0 ∷ (tokens f stops r).0, out.0 ++ 0 ∷ (tokens f stops r).1)
  ]

  tokens-round : tokens (suc f) stops s ≡ round (scan stops s)
  unfolding tokens round
  tokens-round = refl

  last-Splits :
      scan stops s ≡ (token, [])
      → Scanned stops s (token, [])
      → Splits stops s (tokens (suc f) stops s)
  unfolding round
  last-Splits e i = subst (Splits stops s) (sym (tokens-round ∙ ap round e)) record {
    free = (i.free, tt);
    buffer =
        sym (ap (zeroed stops) (i.spelled ∙ append-nil token) ∙ zeroed-free stops token i.free);
    in_place = refl;
    some_token = λ h. cc;
  }

  more-Splits :
      (c : ℕ) (r : Bytes)
      → scan stops s ≡ (token, c ∷ r)
      → Scanned stops s (token, c ∷ r)
      → Splits stops r (tokens f stops r)
      → Splits stops s (tokens (suc f) stops s)
  unfolding round
  more-Splits c r e i p = subst (Splits stops s) (sym (tokens-round ∙ ap round e)) record {
    free = (i.free, p.free);
    buffer =
        ap (λ (b : Bytes). token ++ 0 ∷ b) p.buffer
        ∙ sym (
            ap (zeroed stops) i.spelled
            ∙ zeroed-append stops token (c ∷ r)
            ∙ rw (zeroed-free stops token i.free, i.stopped c r refl) refl);
    in_place =
        ap (λ (b : Bytes). token ++ 0 ∷ b) p.in_place
        ∙ sym (joined-more 0 token (tokens f stops r).0 p.some_token);
    some_token = λ h. cc;
  }

tokens-Splits :
    (f : ℕ) (stops : ℕ → Bool) (s : Bytes) → length s < f → Splits stops s (tokens f stops s)
tokens-Splits zero stops s h = absurd (omega arith)
tokens-Splits (suc f) stops s h =
    by_rest (scan stops s).0 (scan stops s).1 refl (scan-Scanned stops s) (tokens-Splits f stops)
  where
    by_rest :
        (token rest : Bytes)
        → scan stops s ≡ (token, rest)
        → Scanned stops s (token, rest)
        → ((r : Bytes) → length r < f → Splits stops r (tokens f stops r))
        → Splits stops s (tokens (suc f) stops s)
    by_rest token [] e i again = last-Splits f stops s token e i
    by_rest token (c ∷ r) e i again =
        more-Splits f stops s token c r e i (again r (omega (arith, i.shorter)))

-- With a delimiter other than 0, `split` gives the tokens of the text: none of them has the delimiter
-- in it, and the buffer, which is the text with a 0 for each delimiter, is the tokens with a 0 between
-- each two, so that each pointer is a C string of its token.
pub split-Splits :
    (delim : ℕ) (s : Bytes) → delim ≢ 0 → Returns (split delim (some s)) (Splits (is_delim delim) s)
unfolding split
split-Splits delim s h = (
  tokens (suc (length s)) (is_delim delim) s,
  rw (nonzero delim h) refl,
  tokens-Splits (suc (length s)) (is_delim delim) s (omega arith),
)

-- The same of `split_lines`, with a newline as a delimiter too.
pub split_lines-Splits :
    (delim : ℕ) (s : Bytes)
    → delim ≢ 0
    → Returns (split_lines delim (some s)) (Splits (is_delim_or_newline delim) s)
unfolding split_lines
split_lines-Splits delim s h = (
  tokens (suc (length s)) (is_delim_or_newline delim) s,
  rw (nonzero delim h) refl,
  tokens-Splits (suc (length s)) (is_delim_or_newline delim) s (omega arith),
)
