-- ===== src/Prelude/Options.antt =====
-- Chains of optional results.
use mathlib.Core.Path.{◌≡◌, refl, subst}
use mathlib.Core.Bool.{Bool, true, false}
use mathlib.Core.Option.{Option, none, some}

infixl 5 ◌>>=◌ ◌>>◌
abbrev pub ◌>>=◌ {ℓ κ} : {A : Type ℓ} {B : Type κ} → Option A → (A → Option B) → Option B
none >>= f = none
some a >>= f = f a

abbrev pub ◌>>◌ {ℓ} : {B : Type ℓ} → Option (Unit {0}) → Option B → Option B
m >> k = m >>= λ _. k

abbrev pub guard : Bool → Option (Unit {0})
guard true = some tt
guard false = none

-- The answer, if there is one, satisfies `P`.
abbrev pub Answers {ℓ κ} : {A : Type ℓ} → (A → Type κ) → Option A → Type κ
Answers P none = Unit
Answers P (some x) = P x

pub Answers->>= {ℓ κ μ} :
    {A : Type ℓ} {B : Type κ} (P : B → Type μ) (o : Option A) (f : A → Option B)
    → ((a : A) → o ≡ some a → Answers P (f a))
    → Answers P (o >>= f)
Answers->>= P none f h = tt
Answers->>= P (some a) f h = h a refl

-- What holds of every answer holds of this one.
pub Answers-some {ℓ κ} :
    {A : Type ℓ} (P : A → Type κ) {o : Option A} {a : A} → Answers P o → o ≡ some a → P a
Answers-some P h e = subst (Answers P) e h
