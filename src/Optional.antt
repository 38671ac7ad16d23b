-- ===== src/Optional.antt =====
-- Chains of tests that give up at the first that fails: `continue` in a loop, or a `ValidationError`.
use tributo_broker_redis.Base.{◌≡◌, refl, subst, Bool, true, false, Option, none, some}

infixl 10 ◌>>=◌ ◌>>◌
abbrev pub ◌>>=◌ : {A B : Type 0} → Option A → (A → Option B) → Option B
none >>= f = none
some a >>= f = f a

abbrev pub ◌>>◌ : {B : Type 0} → Option (Unit {0}) → Option B → Option B
m >> n = m >>= λ _. n

abbrev pub require : Bool → Option (Unit {0})
require true = some tt
require false = none

-- Whatever `m` gives has `Q`.
pub record Yields {A : Type 0} (Q : A → Type 0) (m : Option A) : Type 0 where
  pub holds : (a : A) → m ≡ some a → Q a

module _ {A B : Type 0} {Q : B → Type 0} where
  pub bind-Yields :
      (m : Option A) (f : A → Option B)
      → ((a : A) → m ≡ some a → Yields Q (f a))
      → Yields Q (m >>= f)
  bind-Yields none f h = record { holds = λ b e. cc }
  bind-Yields (some a) f h = h a refl

pub some-Yields : {A : Type 0} {Q : A → Type 0} (a : A) → Q a → Yields Q (some a)
some-Yields {Q = Q} a q = record { holds = λ b e. let same : a ≡ b = cc in subst Q same q }

pub test_of_require : (b : Bool) → require b ≡ some tt → b ≡ true
test_of_require true e = refl
test_of_require false e = cc
