-- ===== src/Prelude/Outcomes.antt =====
-- Calls that may throw: a value, or what was thrown.
use mathlib.Core.Bool.{Bool, true, false}
use mathlib.Core.Path.{◌≡◌, refl}

pub data Outcome {ℓ} (E : Type 0) (A : Type ℓ) : Type ℓ where
  ok : A → Outcome E A
  err : E → Outcome E A

module _ {ℓ κ} {E : Type 0} {A : Type ℓ} {B : Type κ} where
  infixl 5 ◌>>=◌
  abbrev pub ◌>>=◌ : Outcome E A → (A → Outcome E B) → Outcome E B
  ok value >>= next = next value
  err thrown >>= next = err thrown

infixl 5 ◌>>◌
abbrev pub ◌>>◌ {κ} : {E : Type 0} {B : Type κ} → Outcome E (Unit {0}) → Outcome E B → Outcome E B
first >> second = first >>= λ _. second

-- An assertion, or a test that throws where it fails.
abbrev pub check : {E : Type 0} → Bool → E → Outcome E (Unit {0})
check true thrown = ok tt
check false thrown = err thrown

pub bind-ok :
    {E : Type 0} {A B : Type 0} (x : Outcome E A) (next : A → Outcome E B) (b : B)
    → x >>= next ≡ ok b
    → (a : A) × (x ≡ ok a) × (next a ≡ ok b)
bind-ok (ok a) next b h = (a, refl, h)
bind-ok (err e) next b h = cc
