-- ===== src/Env.antt =====
-- src/memory/env.rs: the environment that a node or a connection belongs to.
pub mod Reading
use pony.Prelude.{
  ℕ, ◌≡◌, refl, ◌↔◌, Bool, true, false, ◌||◌, List, [], ◌∷◌, ◌++◌, Option, none, some, arith,
  if◌then◌else◌, PartialEq, ◌==◌, list_eq, nat_eq, list_eqb, list_eqb_iff,
}
use pony.Prelude.Text.{Text, codes, Unicode, to_lowercase, strip_prefix}

pub data Env : Type 0 where
  production experimental dev ru wl : Env
  custom : Text → Env

-- `as_str`, `as_bytes` and `Display` give the same text.
unfoldable pub as_str : Env → Text
as_str dev = codes "dev"
as_str ru = codes "ru"
as_str wl = codes "wl"
as_str experimental = codes "experimental"
as_str production = codes "production"
as_str (custom name) = codes "custom" ++ name

-- `FromStr`, on the text in lower case.
from_lowercase : Text → Option Env
from_lowercase s =
    if s == codes "experimental" || s == codes "exp"
    then some experimental
    else if s == codes "development" || s == codes "dev"
    then some dev
    else if s == codes "production" || s == codes "prod"
    then some production
    else if s == codes "ru"
    then some ru
    else if s == codes "wl"
    then some wl
    else elim (strip_prefix (codes "custom") s) [ some name ↦ some (custom name) | none ↦ none ]

unfoldable pub from_str : Unicode → Text → Option Env
unfolding from_lowercase strip_prefix
from_str u s = from_lowercase (to_lowercase u s)

-- `From<&str>`
unfoldable pub from_text : Unicode → Text → Env
from_text u s = elim (from_str u s) [ some e ↦ e | none ↦ experimental ]

-- `PartialEq`
abbrev pub env_eqb : Env → Env → Bool
env_eqb production production = true
env_eqb experimental experimental = true
env_eqb dev dev = true
env_eqb ru ru = true
env_eqb wl wl = true
env_eqb (custom a) (custom b) = list_eqb a b
env_eqb _ _ = false

custom_iff : (a b : Text) → (list_eqb a b ≡ true) ↔ (custom a ≡ custom b)
custom_iff a b = ground (arith, list_eqb_iff a b)

pub env_eqb_iff : (a b : Env) → (env_eqb a b ≡ true) ↔ (a ≡ b)
env_eqb_iff (custom a) (custom b) = custom_iff a b
env_eqb_iff a b = ground arith

instance abbrev pub env_eq : PartialEq Env
env_eq = record { eqb = env_eqb; eqb_iff = env_eqb_iff }
