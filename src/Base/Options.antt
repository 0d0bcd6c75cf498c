-- ===== src/Base/Options.antt =====
-- What is known of a computation that has a result.
use mathlib.Core.Option
use mathlib.Core.Option.{Option, none, some}
use mathlib.Core.Path.{◌≡◌, refl}

-- A mapped option that is there comes from one that is there.
pub map_inverse {ℓ κ} :
    {A : Type ℓ} {B : Type κ} (f : A → B) (o : Option A) (b : B)
    → Option.map f o ≡ some b
    → (a : A) × (o ≡ some a) × (f a ≡ b)
map_inverse f none b e = absurd (cc e)
map_inverse f (some a) b e = (a, refl, cc e)
