-- ===== src/Base/Maybe.antt =====
-- `Option` as the monad of code that may fault: `none` is undefined behaviour, or a failed check.
use mathlib.Core.Path.{◌≡◌, refl}
use mathlib.Core.Bool.{Bool, true, false}
use mathlib.Core.Option.{Option, none, some}

infixl 5 ◌>>=◌ ◌>>◌
abbrev pub ◌>>=◌ {ℓ κ} : {A : Type ℓ} {B : Type κ} → Option A → (A → Option B) → Option B
none >>= f = none
some a >>= f = f a

abbrev pub ◌>>◌ {ℓ} : {B : Type ℓ} → Option (Unit {0}) → Option B → Option B
m >> k = m >>= λ _. k

-- `ENSURE(condition)`: it throws in a build with `DOUBLE_CHECKS`, and does nothing in any other.
abbrev pub ensure : Bool → Bool → Option (Unit {0})
ensure true false = none
ensure true true = some tt
ensure false condition = some tt

-- What a chain that ends well went through.
pub bind_some {ℓ κ} :
    {A : Type ℓ} {B : Type κ} (m : Option A) (f : A → Option B) {b : B}
    → (m >>= f) ≡ some b
    → (a : A) × (m ≡ some a) × (f a ≡ some b)
bind_some none f h = cc
bind_some (some a) f h = (a, refl, h)

pub ensure-true : (checks condition : Bool) → condition ≡ true → ensure checks condition ≡ some tt
ensure-true false condition e = refl
ensure-true true condition e = rw e refl
