-- ===== src/Common/Partial.antt =====
-- Chains of steps that may fail, and what holds of their results.
use mathlib.Core.Option.{Option, none, some, some-injective}
use mathlib.Core.Path.{◌≡◌, refl, subst}

infixl 5 ◌>>=◌ ◌>>◌
unfoldable pub ◌>>=◌ {ℓ κ} : {A : Type ℓ} {B : Type κ} → Option A → (A → Option B) → Option B
none >>= f = none
some a >>= f = f a

abbrev pub ◌>>◌ {ℓ κ} : {A : Type ℓ} {B : Type κ} → Option A → Option B → Option B
m >> n = m >>= λ _. n

-- The result has the property, if there is one.
pub record Returns {ℓ κ} {A : Type ℓ} (P : A → Type κ) (m : Option A) : Type (ℓ ⊔ κ) where
  pub at : (a : A) → m ≡ some a → P a

pub Returns-some {ℓ κ} : {A : Type ℓ} (P : A → Type κ) (a : A) → P a → Returns P (some a)
Returns-some P a h = record { at = λ b e. subst P (some-injective a b e) h }

pub Returns-bind {ℓ κ μ ν} :
    {A : Type ℓ} {B : Type κ} (P : A → Type μ) (Q : B → Type ν) (m : Option A) (f : A → Option B)
    → Returns P m
    → ((a : A) → P a → Returns Q (f a))
    → Returns Q (m >>= f)
unfolding ◌>>=◌
Returns-bind P Q none f h k = record { at = λ b e. cc }
Returns-bind P Q (some a) f h k = k a (h.at a refl)

pub bind_of_some {ℓ κ} :
    {A : Type ℓ} {B : Type κ} (m : Option A) (f : A → Option B) (a : A)
    → m ≡ some a
    → (m >>= f) ≡ f a
unfolding ◌>>=◌
bind_of_some m f a h = rw h

-- The other direction: what a chain returns, its second step returns for what its first one does.
pub some_of_bind {ℓ κ} :
    {A : Type ℓ} {B : Type κ} (m : Option A) (f : A → Option B) (b : B)
    → (m >>= f) ≡ some b
    → (a : A) × (m ≡ some a) × (f a ≡ some b)
unfolding ◌>>=◌
some_of_bind none f b h = absurd (cc)
some_of_bind (some a) f b h = (a, refl, h)
