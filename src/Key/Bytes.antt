-- ===== src/Key/Bytes.antt =====
-- The bytes of a code: the i16 of the days, the checksum, and the groups of characters.
use pony.Prelude.{
  ℕ, zero, suc, ◌+◌, ◌%◌, ◌≤◌, ◌<◌, ◌≡◌, ◌≢◌, ◌⊎◌, refl, ap, sym, ◌∙◌, List, [], ◌∷◌, ◌++◌, arith,
  length, set, get_or, All,
}
use mathlib.Core.List.{append_assoc, append-nil}
use pony.Prelude.Int.{ℤ, pos, negsuc, pos_part, neg_part}
use pony.Prelude.Text.{Text, Unicode, to_uppercase}
use pony.Key.{
  to_be_bytes, from_be_bytes, fold_bytes, checksum, chunks_from, join, format, without_dashes,
}

-- The integers of an i16.
abbrev pub IsI16 : ℤ → Type 0
IsI16 d = (pos_part d < 32768) × (neg_part d ≤ 32768)

abbrev pub IsByte : ℕ → Type 0
IsByte b = b < 256

pub from_be_bytes-to_be_bytes : (d : ℤ) → IsI16 d → from_be_bytes (to_be_bytes d) ≡ d
unfolding from_be_bytes to_be_bytes
from_be_bytes-to_be_bytes (pos n) h = ground arith
from_be_bytes-to_be_bytes (negsuc n) h = ground arith

pub to_be_bytes-IsByte : (d : ℤ) → IsI16 d → All IsByte (to_be_bytes d)
unfolding to_be_bytes
to_be_bytes-IsByte (pos n) h = omega arith
to_be_bytes-IsByte (negsuc n) h = omega arith

pub length-to_be_bytes : (d : ℤ) → length (to_be_bytes d) ≡ 2
unfolding to_be_bytes
length-to_be_bytes d = refl

-- The checksum is the sum of the bytes, modulo 256.
sum : List ℕ → ℕ
sum [] = 0
sum (b ∷ bs) = b + sum bs

fold_bytes-eq : (acc : ℕ) (bs : List ℕ) → acc < 256 → fold_bytes acc bs ≡ (acc + sum bs) % 256
unfolding sum
fold_bytes-eq acc [] h = omega arith
fold_bytes-eq acc (b ∷ bs) h = omega (arith, fold_bytes-eq ((acc + b) % 256) bs (omega arith))

checksum-eq : (bs : List ℕ) → checksum bs ≡ sum bs % 256
unfolding checksum
checksum-eq bs = omega (arith, fold_bytes-eq 0 bs (omega arith))

pub checksum-IsByte : (bs : List ℕ) → IsByte (checksum bs)
checksum-IsByte bs = omega (arith, checksum-eq bs)

sum-set : (bs : List ℕ) (i v : ℕ) → i < length bs → sum (set bs i v) + get_or bs i 0 ≡ sum bs + v
unfolding sum
sum-set [] i v h = absurd (omega arith)
sum-set (b ∷ bs) zero v h = omega arith
sum-set (b ∷ bs) (suc i) v h = omega (arith, sum-set bs i v (omega arith))

-- Any change of a single byte changes the checksum.
pub checksum-set_ne :
    (bs : List ℕ) (i v : ℕ)
    → i < length bs
    → IsByte v
    → IsByte (get_or bs i 0)
    → v ≢ get_or bs i 0
    → checksum (set bs i v) ≢ checksum bs
checksum-set_ne bs i v h hv hb ne e =
    ne (omega (arith, sum-set bs i v h, checksum-eq bs, checksum-eq (set bs i v)))

-- Text without dashes.
abbrev pub NoDash : Text → Type 0
NoDash s = All (λ c. c ≢ b'-') s

without_dashes-append :
    (s t : Text) → without_dashes (s ++ t) ≡ without_dashes s ++ without_dashes t
unfolding without_dashes
without_dashes-append [] t = refl
without_dashes-append (c ∷ s) t = ground (arith, without_dashes-append s t)

pub without_dashes_self : (s : Text) → NoDash s → without_dashes s ≡ s
unfolding without_dashes
without_dashes_self [] h = refl
without_dashes_self (c ∷ s) h = ground (arith, without_dashes_self s h.1)

without_dashes-join_cons :
    (g : Text) (gs : List Text)
    → without_dashes (join (b'-' ∷ []) (g ∷ gs))
      ≡ without_dashes g ++ without_dashes (join (b'-' ∷ []) gs)
unfolding join without_dashes
without_dashes-join_cons g [] = sym (append-nil (without_dashes g))
without_dashes-join_cons g (h ∷ gs) = without_dashes-append g _

without_dashes-chunks :
    (n : ℕ) (g s : Text)
    → without_dashes (join (b'-' ∷ []) (chunks_from n g s)) ≡ without_dashes (g ++ s)
unfolding chunks_from join
without_dashes-chunks n g [] = rw (append-nil g)
without_dashes-chunks zero g (c ∷ s) =
    without_dashes-join_cons g (chunks_from 4 (c ∷ []) s)
    ∙ ap (λ t. without_dashes g ++ t) (without_dashes-chunks 4 (c ∷ []) s)
    ∙ sym (without_dashes-append g (c ∷ s))
without_dashes-chunks (suc n) g (c ∷ s) =
    without_dashes-chunks n (g ++ c ∷ []) s ∙ ap without_dashes (append_assoc g (c ∷ []) s)

-- Taking the dashes out of the groups gives the text that was grouped.
pub without_dashes-format : (s : Text) → NoDash s → without_dashes (format s) ≡ s
unfolding format without_dashes
without_dashes-format [] h = refl
without_dashes-format (c ∷ s) h = without_dashes-chunks 4 (c ∷ []) s ∙ without_dashes_self (c ∷ s) h

-- A character that base32 uses.
abbrev pub IsBase32 : ℕ → Type 0
IsBase32 c = ((b'A' ≤ c) × (c ≤ b'Z')) ⊎ ((b'2' ≤ c) × (c ≤ b'7'))

pub NoDash-of_IsBase32 : (s : Text) → All IsBase32 s → NoDash s
NoDash-of_IsBase32 [] h = tt
NoDash-of_IsBase32 (c ∷ s) h = (omega arith, NoDash-of_IsBase32 s h.1)

pub to_uppercase_of_IsBase32 : (u : Unicode) (s : Text) → All IsBase32 s → to_uppercase u s ≡ s
unfolding to_uppercase
to_uppercase_of_IsBase32 u [] h = refl
to_uppercase_of_IsBase32 u (c ∷ s) h = ground (arith, to_uppercase_of_IsBase32 u s h.1)
