-- ===== src/Base/Outcome.antt =====
-- The result of code that may abort: a failed `SCHECK` ends the process.
use mathlib.Core.Path.{◌≡◌, sym, ap, ◌∙◌, subst}
use mathlib.Core.Bool.{Bool, true, false}

-- `fault` is the abort of a failed check, or an access that the language leaves undefined.
pub data Outcome {ℓ} (A : Type ℓ) : Type ℓ where
  ok : A → Outcome A
  fault : Outcome A

infixl 5 ◌>>=◌ ◌>>◌
abbrev pub ◌>>=◌ {ℓ κ} : {A : Type ℓ} {B : Type κ} → Outcome A → (A → Outcome B) → Outcome B
ok a >>= f = f a
fault >>= f = fault

abbrev pub ◌>>◌ {ℓ} : {B : Type ℓ} → Outcome (Unit {0}) → Outcome B → Outcome B
m >> k = m >>= λ _. k

-- `SCHECK(b)`
abbrev pub check : Bool → Outcome (Unit {0})
check true = ok tt
check false = fault

-- The run ends without a fault, in a result of which `P` holds.
abbrev pub Returns {ℓ κ} : {A : Type ℓ} → Outcome A → (A → Type κ) → Type (ℓ ⊔ κ)
Returns {A} m P = (a : A) × (m ≡ ok a) × P a

value_or {ℓ} : {A : Type ℓ} → A → Outcome A → A
value_or d (ok a) = a
value_or d fault = d

-- `P` holds of the result that a run is seen to have.
pub Returns-at {ℓ κ} :
    {A : Type ℓ} {P : A → Type κ} {m : Outcome A} → Returns m P → (a : A) → m ≡ ok a → P a
unfolding value_or
Returns-at {P = P} (b, e, p) a h = subst P (ap (value_or b) (sym e ∙ h)) p

pub ok-injective {ℓ} : {A : Type ℓ} {a b : A} → ok a ≡ ok b → a ≡ b
unfolding value_or
ok-injective {a} e = ap (value_or a) e
