-- ===== src/Env/Reading.antt =====
-- Which environments are read back from their own text.
use pony.Prelude.{◌≡◌, refl, ap, ◌↔◌, some}
use pony.Prelude.Text.{Text, Unicode, to_lowercase}
use pony.Env.{Env, production, experimental, dev, ru, wl, custom, as_str, from_str}

-- The environment's text is in lower case.
abbrev pub IsLower : Unicode → Env → Type 0
IsLower u (custom name) = to_lowercase u name ≡ name
IsLower u production = Unit
IsLower u experimental = Unit
IsLower u dev = Unit
IsLower u ru = Unit
IsLower u wl = Unit

pub from_str-as_str_custom :
    (u : Unicode) (name : Text)
    → from_str u (as_str (custom name)) ≡ some (custom (to_lowercase u name))
unfolding from_str as_str to_lowercase
from_str-as_str_custom u name = refl

custom_injective : (a b : Text) → some (custom a) ≡ some (custom b) → a ≡ b
custom_injective a b h = cc

-- An environment is read back from its own text exactly when that text is in lower case: every
-- built-in environment, and a custom one whose name `to_lowercase` leaves alone.
pub from_str-as_str_iff : (u : Unicode) (e : Env) → (from_str u (as_str e) ≡ some e) ↔ IsLower u e
unfolding from_str as_str to_lowercase
from_str-as_str_iff u (custom name) =
    (λ h. custom_injective _ _ h, λ h. ap (λ n. some (custom n)) h)
from_str-as_str_iff u production = (λ h. tt, λ h. refl)
from_str-as_str_iff u experimental = (λ h. tt, λ h. refl)
from_str-as_str_iff u dev = (λ h. tt, λ h. refl)
from_str-as_str_iff u ru = (λ h. tt, λ h. refl)
from_str-as_str_iff u wl = (λ h. tt, λ h. refl)
