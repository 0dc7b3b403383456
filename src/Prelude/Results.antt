-- ===== src/Prelude/Results.antt =====
-- Chains of calls that may fail, and what such a chain returns.
use mathlib.Core.Path.{◌≡◌, refl, ap, ◌∙◌}
use mathlib.Core.Bool.{Bool, true, false}
use mathlib.Core.Option.{Option, none, some}
use tezos_master_lib_p2p.Prelude.Tests.{if◌then◌else◌}

infixl 5 ◌>>=◌
abbrev pub ◌>>=◌ {ℓ κ} : {A : Type ℓ} {B : Type κ} → Option A → (A → Option B) → Option B
none >>= k = none
some x >>= k = k x

-- The call gives a result, which has the property.
abbrev pub Returns {ℓ κ} : {A : Type ℓ} → (A → Type κ) → Option A → Type (ℓ ⊔ κ)
Returns {A = A} P o = (r : A) × (o ≡ some r) × P r

pub some-Returns {ℓ κ} : {A : Type ℓ} {P : A → Type κ} (x : A) → P x → Returns P (some x)
some-Returns x h = (x, refl, h)

pub bind-Returns {ℓ κ μ ν} :
    {A : Type ℓ} {B : Type κ} {P : A → Type μ} {Q : B → Type ν} {o : Option A} {f : A → Option B}
    → Returns P o
    → ((r : A) → P r → Returns Q (f r))
    → Returns Q (o >>= f)
bind-Returns {f = f} (r, e, h) k = let (s, e', h') = k r h in (s, ap (λ t. t >>= f) e ∙ e', h')

-- What holds of both branches holds of the conditional.
pub if-holds {ℓ κ} :
    {A : Type ℓ} (P : A → Type κ) (b : Bool) (x y : A) → P x → P y → P (if b then x else y)
if-holds P true x y hx hy = hx
if-holds P false x y hx hy = hy

-- A call whose every result makes the chain fail.
pub bind-fails {ℓ κ} :
    {A : Type ℓ} {B : Type κ} {f : A → Option B} (o : Option A)
    → ((x : A) → f x ≡ none)
    → (o >>= f) ≡ none
bind-fails none h = refl
bind-fails (some x) h = h x
