-- ===== src/Key/Tampering.antt =====
-- A code of which one byte has been changed.
use pony.Prelude.{
  ℕ, zero, suc, ◌<◌, ◌≡◌, ◌≢◌, refl, ap, false, List, [], ◌∷◌, ◌++◌, none, some, arith, nat_eqb,
  sym, ◌∙◌, length-append, length, set, get_or, All,
}
use native.Mathlib.Decide.{dec_lt}
use pony.Prelude.Int.{ℤ}
use pony.Prelude.Text.{Text, Unicode, to_uppercase}
use pony.Key.{Crypto, checksum, without_dashes, signed_payload, code_bytes, parse_bytes, parse}
use pony.Key.Bytes.{IsByte, IsI16, checksum-set_ne}
use pony.Key.Codes.{
  IsLawful, take_of_length, drop_of_length, length-signed_payload_of, signed_payload-IsByte,
}

set-append_left : (xs ys : List ℕ) (i v : ℕ) → i < length xs → set (xs ++ ys) i v ≡ set xs i v ++ ys
set-append_left [] ys i v h = absurd (omega arith)
set-append_left (x ∷ xs) ys zero v h = refl
set-append_left (x ∷ xs) ys (suc i) v h = ap (◌∷◌ x) (set-append_left xs ys i v (omega arith))

set-append_last : (xs : List ℕ) (c v : ℕ) → set (xs ++ c ∷ []) (length xs) v ≡ xs ++ v ∷ []
set-append_last [] c v = refl
set-append_last (x ∷ xs) c v = ap (◌∷◌ x) (set-append_last xs c v)

get_or-append_left :
    (xs ys : List ℕ) (i : ℕ) → i < length xs → get_or (xs ++ ys) i 0 ≡ get_or xs i 0
get_or-append_left [] ys i h = absurd (omega arith)
get_or-append_left (x ∷ xs) ys zero h = refl
get_or-append_left (x ∷ xs) ys (suc i) h = get_or-append_left xs ys i (omega arith)

get_or-append_last : (xs : List ℕ) (c : ℕ) → get_or (xs ++ c ∷ []) (length xs) 0 ≡ c
get_or-append_last [] c = refl
get_or-append_last (x ∷ xs) c = get_or-append_last xs c

get_or-IsByte : (xs : List ℕ) (i : ℕ) → All IsByte xs → IsByte (get_or xs i 0)
get_or-IsByte [] i h = omega arith
get_or-IsByte (x ∷ xs) zero h = h.0
get_or-IsByte (x ∷ xs) (suc i) h = get_or-IsByte xs i h.1

length-set : (xs : List ℕ) (i v : ℕ) → length (set xs i v) ≡ length xs
length-set [] i v = refl
length-set (x ∷ xs) zero v = refl
length-set (x ∷ xs) (suc i) v = ap suc (length-set xs i v)

nat_eqb_of_ne : (a b : ℕ) → a ≢ b → nat_eqb a b ≡ false
nat_eqb_of_ne a b h = ground arith

module _ (crypto : Crypto) (u : Unicode) (secret : List ℕ) where
  parse_bytes-bad_checksum :
      (xs : List ℕ) (c : ℕ)
      → length xs ≡ 15
      → checksum xs ≢ c
      → parse_bytes crypto u (xs ++ c ∷ []) secret ≡ none
  unfolding parse_bytes
  parse_bytes-bad_checksum xs c h ne = rw (
    length-append xs (c ∷ []),
    h,
    take_of_length 15 xs (c ∷ []) h,
    drop_of_length 15 xs (c ∷ []) h,
    nat_eqb_of_ne _ _ ne,
  )

  parse_bytes-set :
      (xs : List ℕ) (i v : ℕ)
      → length xs ≡ 15
      → All IsByte xs
      → i < 16
      → IsByte v
      → v ≢ get_or (xs ++ checksum xs ∷ []) i 0
      → parse_bytes crypto u (set (xs ++ checksum xs ∷ []) i v) secret ≡ none
  parse_bytes-set xs i v h bytes lt hv ne = elim (dec_lt i 15) [
    | yes inside ↦
        let in_xs : i < length xs = omega arith in
        let changed : v ≢ get_or xs i 0 =
          rw (get_or-append_left xs (checksum xs ∷ []) i in_xs) at ne in
        rw (set-append_left xs (checksum xs ∷ []) i v in_xs) (
          parse_bytes-bad_checksum (set xs i v) (checksum xs) (length-set xs i v ∙ h)
            (checksum-set_ne xs i v in_xs hv (get_or-IsByte xs i bytes) changed))
    | no outside ↦
        let last : i ≡ length xs = omega arith in
        let changed : v ≢ checksum xs = rw (last, get_or-append_last xs (checksum xs)) at ne in
        rw (last, set-append_last xs (checksum xs) v)
          (parse_bytes-bad_checksum xs v h (λ e. changed (sym e)))
  ]

-- A text that decodes to the bytes of a code with one of its sixteen bytes replaced by another is
-- no code, under any secret, if base32 and HMAC-SHA256 behave as documented.
pub parse-set :
    (crypto : Crypto)
    → IsLawful crypto
    → (u : Unicode) (random : List ℕ) (days : ℤ) (distributor secret : List ℕ) → length random ≡ 6
    → All IsByte random
    → IsI16 days
    → length distributor ≡ 4
    → All IsByte distributor
    → (i v : ℕ) → i < 16
    → IsByte v
    → v ≢ get_or (code_bytes crypto u random days distributor secret) i 0
    → (s : Text) (secret' : List ℕ)
    → crypto.decode (to_uppercase u (without_dashes s))
      ≡ some (set (code_bytes crypto u random days distributor secret) i v)
    → parse crypto u s secret' ≡ none
unfolding parse code_bytes
parse-set crypto lawful u random days distributor secret six rb i16 four db i v lt hv ne s secret'
      e =
    rw (e, parse)
      (parse_bytes-set crypto u secret' (signed_payload crypto u random days distributor secret) i v
        (length-signed_payload_of crypto lawful u random days distributor secret six rb i16 four db)
        (signed_payload-IsByte crypto lawful u random days distributor secret six rb i16 four db) lt
        hv ne)
