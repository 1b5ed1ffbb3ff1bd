-- ===== src/Key/Codes.antt =====
-- A code that was made with a secret is read back with it.
use pony.Prelude.{
  ℕ, ◌≤◌, ◌≡◌, refl, ap, sym, ◌∙◌, List, [], ◌∷◌, ◌++◌, some, arith, list_eq, nat_eq, length, take,
  drop, All, All-append, length-append, take-append, drop-append, ==_refl,
}
use mathlib.Core.List.{append-nil}
use pony.Prelude.Int.{ℤ}
use pony.Prelude.Text.{Unicode, to_uppercase}
use pony.Key.{
  Crypto, to_be_bytes, from_be_bytes, checksum, without_dashes, signed_payload, code_bytes,
  new_code, parse_bytes, parse,
}
use pony.Key.Bytes.{
  IsByte, IsI16, IsBase32, from_be_bytes-to_be_bytes, to_be_bytes-IsByte, length-to_be_bytes,
  checksum-IsByte, without_dashes-format, NoDash-of_IsBase32, to_uppercase_of_IsBase32,
}

-- What the crates promise: an HMAC-SHA256 has 32 bytes, base32 uses its alphabet, and decoding
-- undoes encoding.
pub record IsLawful (crypto : Crypto) : Type 0 where
  pub length-sign : (payload secret : List ℕ) → length (crypto.sign payload secret) ≡ 32
  pub sign-IsByte : (payload secret : List ℕ) → All IsByte (crypto.sign payload secret)
  pub encode-IsBase32 : (bytes : List ℕ) → All IsBase32 (crypto.encode bytes)
  pub decode-encode :
      (bytes : List ℕ) → All IsByte bytes → crypto.decode (crypto.encode bytes) ≡ some bytes

module _ {A : Type 0} where
  pub take_of_length : (n : ℕ) (xs ys : List A) → length xs ≡ n → take n (xs ++ ys) ≡ xs
  take_of_length n xs ys e = rw (← e) (take-append xs ys)

  pub drop_of_length : (n : ℕ) (xs ys : List A) → length xs ≡ n → drop n (xs ++ ys) ≡ ys
  drop_of_length n xs ys e = rw (← e) (drop-append xs ys)

  pub length-take_of_le : (n : ℕ) (xs : List A) → n ≤ length xs → length (take n xs) ≡ n
  length-take_of_le ℕ.zero xs h = refl
  length-take_of_le (ℕ.suc n) [] h = absurd (omega arith)
  length-take_of_le (ℕ.suc n) (x ∷ xs) h = ap ℕ.suc (length-take_of_le n xs (omega arith))

  take-length : (n : ℕ) (xs : List A) → length xs ≡ n → take n xs ≡ xs
  take-length n xs e = ap (take n) (sym (append-nil xs)) ∙ take_of_length n xs [] e

  pub All-take {κ} : (P : A → Type κ) (n : ℕ) (xs : List A) → All P xs → All P (take n xs)
  All-take P ℕ.zero xs h = tt
  All-take P (ℕ.suc n) [] h = tt
  All-take P (ℕ.suc n) (x ∷ xs) h = (h.0, All-take P n xs h.1)

module _ (crypto : Crypto) (lawful : IsLawful crypto) (u : Unicode) (random : List ℕ) (days : ℤ)
    (distributor secret : List ℕ) (six : length random ≡ 6) (random_bytes : All IsByte random)
    (i16 : IsI16 days) (four : length distributor ≡ 4) (dist_bytes : All IsByte distributor) where
  payload : List ℕ
  payload = random ++ to_be_bytes days ++ distributor

  sig : List ℕ
  sig = take 3 (crypto.sign payload secret)

  length-head : length (random ++ to_be_bytes days) ≡ 8
  length-head = omega (arith, length-append random (to_be_bytes days), length-to_be_bytes days)

  length-payload : length payload ≡ 12
  unfolding payload
  length-payload =
      omega (arith, length-append (random ++ to_be_bytes days) distributor, length-head)

  length-sig : length sig ≡ 3
  unfolding sig
  length-sig =
      length-take_of_le 3 (crypto.sign payload secret)
        (omega (arith, lawful.length-sign payload secret))

  length-signed_payload : length (payload ++ sig) ≡ 15
  length-signed_payload = omega (arith, length-append payload sig, length-payload, length-sig)

  bytes : List ℕ
  bytes = (payload ++ sig) ++ checksum (payload ++ sig) ∷ []

  code_bytes-eq : code_bytes crypto u random days distributor secret ≡ bytes
  unfolding code_bytes signed_payload payload sig bytes
  code_bytes-eq = refl

  pub length-code_bytes : length (code_bytes crypto u random days distributor secret) ≡ 16
  unfolding bytes
  length-code_bytes = rw code_bytes-eq (
      omega (
        arith,
        length-append (payload ++ sig) (checksum (payload ++ sig) ∷ []),
        length-signed_payload,
      ))

  pub length-signed_payload_of :
      length (signed_payload crypto u random days distributor secret) ≡ 15
  unfolding signed_payload payload sig
  length-signed_payload_of = length-signed_payload

  pub signed_payload-IsByte : All IsByte (signed_payload crypto u random days distributor secret)
  unfolding signed_payload
  signed_payload-IsByte =
      All-append IsByte (random ++ to_be_bytes days ++ distributor) _
        (All-append IsByte (random ++ to_be_bytes days) distributor
          (All-append IsByte random _ random_bytes (to_be_bytes-IsByte days i16)) dist_bytes)
        (All-take IsByte 3 _ (lawful.sign-IsByte _ secret))

  pub code_bytes-IsByte : All IsByte (code_bytes crypto u random days distributor secret)
  unfolding code_bytes
  code_bytes-IsByte =
      All-append IsByte (signed_payload crypto u random days distributor secret) _
        signed_payload-IsByte
        (checksum-IsByte (signed_payload crypto u random days distributor secret), tt)

  length-bytes : length bytes ≡ 16
  length-bytes = rw (← code_bytes-eq) length-code_bytes

  parse_bytes-code_bytes : parse_bytes crypto u bytes secret ≡ some (days, distributor)
  unfolding parse_bytes checksum bytes payload to_be_bytes sig from_be_bytes
  parse_bytes-code_bytes = rw (
    length-bytes,
    take_of_length 15 (payload ++ sig) (checksum (payload ++ sig) ∷ []) length-signed_payload,
    drop_of_length 15 (payload ++ sig) (checksum (payload ++ sig) ∷ []) length-signed_payload,
    take_of_length 12 payload sig length-payload,
    drop_of_length 12 payload sig length-payload,
    take-length 3 sig length-sig,
    take_of_length 8 (random ++ to_be_bytes days) distributor length-head,
    drop_of_length 8 (random ++ to_be_bytes days) distributor length-head,
    drop_of_length 6 random (to_be_bytes days) six,
    ==_refl (checksum (payload ++ sig)),
    ==_refl sig,
    from_be_bytes-to_be_bytes days i16,
  )

  encoded : All IsBase32 (crypto.encode (code_bytes crypto u random days distributor secret))
  encoded = lawful.encode-IsBase32 (code_bytes crypto u random days distributor secret)

  decoded :
      crypto.decode
        (to_uppercase u (without_dashes (new_code crypto u random days distributor secret)))
      ≡ some bytes
  unfolding new_code
  decoded =
      rw
        (
          to_uppercase_of_IsBase32 u _ encoded,
          without_dashes-format _ (NoDash-of_IsBase32 _ encoded),
          to_uppercase_of_IsBase32 u _ encoded,
          lawful.decode-encode _ code_bytes-IsByte,
        )
        (ap some code_bytes-eq)

  -- A code made by `Code::new` is read back by `Code::parse` with the same secret, as the days and
  -- the distributor that it was made of: for every i16 of days, four bytes of distributor and six
  -- random bytes, if base32 and HMAC-SHA256 behave as documented.
  pub parse-new_code :
      parse crypto u (new_code crypto u random days distributor secret) secret
      ≡ some (days, distributor)
  unfolding parse
  parse-new_code = rw (decoded, parse) parse_bytes-code_bytes
