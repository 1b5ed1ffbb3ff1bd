-- ===== src/Key.antt =====
-- src/memory/key.rs: access keys and their codes. A code is 16 bytes in base32, in groups of five
-- characters: six random bytes, the days as a big-endian i16, the distributor, three bytes of an
-- HMAC of these twelve, and a checksum of the fifteen.
-- HMAC-SHA256 (`sign`) and base32 are crates: they are the parameter `Crypto`.
pub mod Bytes
pub mod Codes
pub mod Tampering
pub mod Issuing
use pony.Prelude.{
  ℕ, zero, suc, ◌+◌, ◌-◌, ◌*◌, ◌/◌, ◌%◌, Bool, true, false, not, ◌&&◌, ◌||◌, List, [], ◌∷◌, ◌++◌,
  Option, none, some, ltb, leb, nat_eqb, if◌then◌else◌, length, take, drop, get_or, keep, list_eqb,
  list_eq, nat_eq, any,
}
use pony.Prelude.Int.{ℤ, pos, negsuc, sub_ℕ}
use pony.Prelude.Text.{Text, Unicode, to_uppercase}

pub record Crypto : Type 0 where
  -- the HMAC of the bytes under the secret, 32 bytes
  pub sign : List ℕ → List ℕ → List ℕ
  pub encode : List ℕ → Text
  pub decode : Text → Option (List ℕ)

-- i16: the two's complement word, and its bytes.
abbrev pub word_of : ℤ → ℕ
word_of (pos n) = n % 65536
word_of (negsuc n) = 65535 - n % 65536

abbrev pub signed16 : ℕ → ℤ
signed16 w = if ltb w 32768 then pos w else negsuc (65535 - w)

unfoldable pub to_be_bytes : ℤ → List ℕ
to_be_bytes days = word_of days / 256 ∷ word_of days % 256 ∷ []

unfoldable pub from_be_bytes : List ℕ → ℤ
from_be_bytes bs = signed16 (get_or bs 0 0 * 256 + get_or bs 1 0)

-- `fold(0u8, |acc, b| acc.wrapping_add(*b))`
abbrev fold_bytes : ℕ → List ℕ → ℕ
fold_bytes acc [] = acc
fold_bytes acc (b ∷ bs) = fold_bytes ((acc + b) % 256) bs

unfoldable pub checksum : List ℕ → ℕ
checksum bytes = fold_bytes 0 bytes

-- `chunks(5)`: `n` more characters fit into the group that is being filled.
chunks_from : ℕ → Text → Text → List Text
chunks_from n group [] = group ∷ []
chunks_from zero group (c ∷ s) = group ∷ chunks_from 4 (c ∷ []) s
chunks_from (suc n) group (c ∷ s) = chunks_from n (group ++ c ∷ []) s

chunks : Text → List Text
chunks [] = []
chunks (c ∷ s) = chunks_from 4 (c ∷ []) s

join : Text → List Text → Text
join sep [] = []
join sep (g ∷ []) = g
join sep (g ∷ h ∷ gs) = g ++ (sep ++ join sep (h ∷ gs))

unfoldable pub format : Text → Text
unfolding chunks chunks_from join
format s = join (b'-' ∷ []) (chunks s)

-- `replace("-", "")`
unfoldable pub without_dashes : Text → Text
without_dashes s = keep (λ c. not (nat_eqb c b'-')) s

pub data CodeError : Type 0 where
  invalid_format invalid_checksum : CodeError

pub data Checked (A : Type 0) : Type 0 where
  valid : A → Checked A
  invalid : CodeError → Checked A

module _ (crypto : Crypto) (u : Unicode) where
  -- The fifteen bytes that are summed.
  unfoldable pub signed_payload : List ℕ → ℤ → List ℕ → List ℕ → List ℕ
  signed_payload random days distributor secret =
      let payload = random ++ to_be_bytes days ++ distributor in
      payload ++ take 3 (crypto.sign payload secret)

  unfoldable pub code_bytes : List ℕ → ℤ → List ℕ → List ℕ → List ℕ
  code_bytes random days distributor secret =
      let payload = signed_payload random days distributor secret in
      payload ++ checksum payload ∷ []

  -- `Code::new`, given its random bytes
  unfoldable pub new_code : List ℕ → ℤ → List ℕ → List ℕ → Text
  new_code random days distributor secret =
      format (to_uppercase u (crypto.encode (code_bytes random days distributor secret)))

  -- What `parse` makes of the decoded bytes.
  unfoldable pub parse_bytes : List ℕ → List ℕ → Option (ℤ × List ℕ)
  parse_bytes bytes secret =
      if not (nat_eqb (length bytes) 16)
      then none
      else let data_with_sig = take 15 bytes in
        let check_byte = drop 15 bytes in
        if not (nat_eqb (checksum data_with_sig) (get_or check_byte 0 0))
        then none
        else let payload = take 12 data_with_sig in
          let sig = drop 12 data_with_sig in
          if not (list_eqb (take 3 (crypto.sign payload secret)) (take 3 sig))
          then none
          else some (from_be_bytes (drop 6 (take 8 payload)), drop 8 payload)

  -- `Code::parse`
  unfoldable pub parse : Text → List ℕ → Option (ℤ × List ℕ)
  parse s secret = elim (crypto.decode (to_uppercase u (without_dashes s))) [
    | none ↦ none
    | some bytes ↦ parse_bytes bytes secret
  ]

  -- `Code::is_valid`
  unfoldable pub is_valid : Text → List ℕ → Bool
  is_valid s secret = elim (parse s secret) [ none ↦ false | some _ ↦ true ]

  -- `Code::validate`
  unfoldable pub validate : Text → List ℕ → Checked (ℤ × List ℕ)
  validate s secret = elim (parse s secret) [ some r ↦ valid r | none ↦ invalid invalid_checksum ]

  -- `Code::from_str`
  pub from_str : Text → Checked Text
  from_str s = elim (crypto.decode (to_uppercase u (without_dashes s))) [
    | none ↦ invalid invalid_format
    | some bytes ↦
        if not (nat_eqb (length bytes) 16) then invalid invalid_format else valid (to_uppercase u s)
  ]

-- `Distributor::new`: four upper-case ASCII letters or digits.
unfoldable pub distributor_byte : ℕ → Bool
distributor_byte b = (leb b'A' b && leb b b'Z') || (leb b'0' b && leb b b'9')

unfoldable pub distributor : List ℕ → Option (List ℕ)
unfolding distributor_byte
distributor bytes =
    if not (nat_eqb (length bytes) 4)
    then none
    else if any (λ b. not (distributor_byte b)) bytes
    then none
    else some bytes

-- A stored key.
pub record Key : Type 0 where
  pub id : ℕ
  pub code : Text
  pub days : ℤ
  pub activated : Bool
  pub subscription_id : Option ℕ
  pub created_at : ℕ
  pub modified_at : ℕ
  pub distributor_bytes : List ℕ

-- `Key::new`, given the uuid, the time and the random bytes
unfoldable pub new_key : Crypto → Unicode → ℕ → ℕ → List ℕ → ℤ → List ℕ → List ℕ → Key
new_key crypto u id now random days bytes secret = record {
  id = id;
  code = new_code crypto u random days bytes secret;
  days = days;
  activated = false;
  subscription_id = none;
  created_at = now;
  modified_at = now;
  distributor_bytes = bytes;
}

unfoldable pub activate : ℕ → ℕ → Key → Key
activate now sub_id k = record k {
  activated = true;
  subscription_id = some sub_id;
  modified_at = now;
}
