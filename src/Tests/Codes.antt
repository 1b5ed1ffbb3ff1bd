-- ===== src/Tests/Codes.antt =====
-- A code of thirty days, made with a secret.
use pony.Prelude.{true, ℕ, ◌≡◌, ◌≢◌, refl, arith, List, [], ◌∷◌, none, some, All, set, get_or}
use pony.Prelude.Int.{pos}
use pony.Prelude.Text.{Text, to_uppercase}
use pony.Handlers.Keys.{
  KeyReq, FreshKey, created, usable, post_key_handler, get_key_validate_handler,
  post_key_handler_lem,
}
use pony.Key.{
  distributor, distributor_byte, new_key, new_code, code_bytes, signed_payload, to_be_bytes,
  checksum, without_dashes, parse,
}
use pony.Key.Bytes.{IsByte}
use pony.Key.Codes.{parse-new_code}
use pony.Key.Tampering.{parse-set}
use pony.Tests.Crates.{unicode, crypto, crypto-IsLawful}

abbrev random : List ℕ
random = 1 ∷ 2 ∷ 3 ∷ 4 ∷ 5 ∷ 250 ∷ []

abbrev frkn : List ℕ
frkn = 70 ∷ 82 ∷ 75 ∷ 78 ∷ []

abbrev secret : List ℕ
secret = 9 ∷ []

random-IsByte : All IsByte random
random-IsByte = ground arith

frkn-IsByte : All IsByte frkn
frkn-IsByte = ground arith

parse-new_code_example :
    parse crypto unicode (new_code crypto unicode random (pos 30) frkn secret) secret
    ≡ some (pos 30, frkn)
parse-new_code_example =
    parse-new_code crypto crypto-IsLawful unicode random (pos 30) frkn secret refl random-IsByte
      (omega arith, omega arith) refl frkn-IsByte

-- The code above with its first byte replaced.
abbrev tampered : Text
tampered = crypto.encode (set (code_bytes crypto unicode random (pos 30) frkn secret) 0 2)

changed : 2 ≢ get_or (code_bytes crypto unicode random (pos 30) frkn secret) 0 0
unfolding code_bytes signed_payload to_be_bytes checksum
changed = ground arith

decoded :
    crypto.decode (to_uppercase unicode (without_dashes tampered))
    ≡ some (set (code_bytes crypto unicode random (pos 30) frkn secret) 0 2)
unfolding code_bytes signed_payload to_be_bytes checksum to_uppercase without_dashes
decoded = refl

parse-set_example : parse crypto unicode tampered secret ≡ none
parse-set_example =
    parse-set crypto crypto-IsLawful unicode random (pos 30) frkn secret refl random-IsByte
      (omega arith, omega arith) refl frkn-IsByte 0 2 (omega arith) (omega arith) changed tampered
      secret decoded

-- FRKN is a distributor.
accepted : distributor frkn ≡ some frkn
unfolding distributor distributor_byte
accepted = refl

abbrev month : KeyReq
month = record { days = pos 30; distributor = none }

abbrev fresh_key : FreshKey
fresh_key = record { id = 1; random = random }

post_key_handler_lem_example :
    ((post_key_handler crypto unicode secret 1000 fresh_key true month []).1
      ≡ created (new_key crypto unicode 1 1000 random (pos 30) frkn secret))
    × (get_key_validate_handler crypto unicode secret
          (new_key crypto unicode 1 1000 random (pos 30) frkn secret).code
          (post_key_handler crypto unicode secret 1000 fresh_key true month []).0
        ≡ usable (new_key crypto unicode 1 1000 random (pos 30) frkn secret))
post_key_handler_lem_example =
    post_key_handler_lem crypto unicode secret 1000 fresh_key month frkn [] crypto-IsLawful refl
      random-IsByte (omega arith, omega arith) accepted
