-- ===== src/Prelude/Text.antt =====
-- Text as its code points, and the operations of `str` that the program uses.
use Prim.Native.Char.{code}
use Prim.Native.String.{String}
use Prim.Native.Nat.{ℕ, ◌+◌, ◌-◌}
use mathlib.Core.Bool.{◌&&◌}
use mathlib.Core.Option.{Option, none, some}
use mathlib.Core.List.{List, [], ◌∷◌, ◌++◌}
use pony.Prelude.Tests.{leb, ltb, nat_eqb, if◌then◌else◌}

abbrev pub Text : Type 0
Text = List ℕ

-- The code points of a literal.
abbrev pub codes : String → Text
codes String.[] = []
codes (String.◌∷◌ c s) = code c ∷ codes s

-- What `to_lowercase` and `to_uppercase` make of a code point above ASCII (Unicode's tables).
pub record Unicode : Type 0 where
  pub lower : ℕ → Text
  pub upper : ℕ → Text

abbrev pub lower_char : Unicode → ℕ → Text
lower_char u c =
    if ltb c 128 then (if leb b'A' c && leb c b'Z' then c + 32 else c) ∷ [] else u.lower c

abbrev pub upper_char : Unicode → ℕ → Text
upper_char u c =
    if ltb c 128 then (if leb b'a' c && leb c b'z' then c - 32 else c) ∷ [] else u.upper c

-- `str::to_lowercase`
unfoldable pub to_lowercase : Unicode → Text → Text
to_lowercase u [] = []
to_lowercase u (c ∷ s) = lower_char u c ++ to_lowercase u s

-- `str::to_uppercase`
unfoldable pub to_uppercase : Unicode → Text → Text
to_uppercase u [] = []
to_uppercase u (c ∷ s) = upper_char u c ++ to_uppercase u s

-- `str::strip_prefix`
unfoldable pub strip_prefix : Text → Text → Option Text
strip_prefix [] s = some s
strip_prefix (c ∷ p) [] = none
strip_prefix (c ∷ p) (d ∷ s) = if nat_eqb c d then strip_prefix p s else none
