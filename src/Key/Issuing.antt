-- ===== src/Key/Issuing.antt =====
-- The code of a new key.
use pony.Prelude.{
  ℕ, ◌≡◌, refl, true, false, not, List, [], ◌∷◌, some, arith, nat_eqb_iff, length, any, All,
  Bool-cases, inl, inr,
}
use pony.Prelude.Int.{ℤ}
use pony.Prelude.Text.{Unicode}
use pony.Key.{Crypto, valid, distributor_byte, distributor, validate, is_valid, new_key}
use pony.Key.Bytes.{IsByte, IsI16}
use pony.Key.Codes.{IsLawful, parse-new_code}

distributor_byte-IsByte : (b : ℕ) → distributor_byte b ≡ true → IsByte b
unfolding distributor_byte
distributor_byte-IsByte b h = ground arith

any-IsByte : (bytes : List ℕ) → any (λ b. not (distributor_byte b)) bytes ≡ false → All IsByte bytes
any-IsByte [] h = tt
any-IsByte (b ∷ bytes) h = ground (arith, distributor_byte-IsByte b, any-IsByte bytes)

distributor_lem :
    (text bytes : List ℕ) → distributor text ≡ some bytes → (length bytes ≡ 4) × All IsByte bytes
unfolding distributor
distributor_lem text bytes h = elim (Bool-cases (any (λ b. not (distributor_byte b)) text)) [
  | inl bad ↦ ground arith
  | inr good ↦ ground (arith, any-IsByte text good, nat_eqb_iff (length text) 4)
]

-- The code of a key that is made for a distributor that `Distributor::new` accepts is valid under
-- the secret it was made with, and holds the key's days and its distributor: for every i16 of days
-- and six random bytes, if base32 and HMAC-SHA256 behave as documented.
pub validate-new_key :
    (crypto : Crypto)
    → IsLawful crypto
    → (u : Unicode) (random : List ℕ) (days : ℤ) (text bytes secret : List ℕ) (id now : ℕ)
    → length random ≡ 6
    → All IsByte random
    → IsI16 days
    → distributor text ≡ some bytes
    → (is_valid crypto u (new_key crypto u id now random days bytes secret).code secret ≡ true)
      × (validate crypto u (new_key crypto u id now random days bytes secret).code secret
          ≡ valid (days, bytes))
unfolding new_key validate is_valid
validate-new_key crypto lawful u random days text bytes secret id now six random_bytes i16
      accepted =
    let (four, dist_bytes) = distributor_lem text bytes accepted in
    let parsed =
      parse-new_code crypto lawful u random days bytes secret six random_bytes i16 four
        dist_bytes in
    (rw (is_valid, parsed) refl, rw (validate, parsed) refl)
