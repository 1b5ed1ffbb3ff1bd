-- ===== src/Handlers/Keys.antt =====
-- src/bin/api/http/handlers/key.rs: making a key, and asking about one. The table of the keys in
-- the database is a map by code; `saved` is whether the database takes a row.
use pony.Prelude.{
  ℕ, ◌≡◌, refl, ap, ◌∙◌, Bool, true, false, List, Option, none, some, nat_eq, list_eq, length, All,
  if◌then◌else◌, ==_refl,
}
use pony.Prelude.Int.{ℤ}
use pony.Prelude.Map.{Map, lookup, insert, lookup-insert}
use pony.Prelude.Text.{Text, Unicode, codes}
use pony.Subscription.{Uuid, DateTime}
use pony.Key.{Crypto, Key, new_key, distributor, is_valid}
use pony.Key.Bytes.{IsByte, IsI16}
use pony.Key.Codes.{IsLawful}
use pony.Key.Issuing.{validate-new_key}

abbrev pub Keys : Type 0
Keys = Map Text Key

-- The body of the request; `days` is an i16.
pub record KeyReq : Type 0 where
  pub days : ℤ
  pub distributor : Option Text

-- `rejected` is the error "invalid distributor".
pub data KeyReply : Type 0 where
  rejected not_valid not_found not_created : KeyReply
  created already_activated usable : Key → KeyReply

-- What is drawn for a key.
pub record FreshKey : Type 0 where
  pub id : Uuid
  pub random : List ℕ

abbrev pub distributor_or_default : Option Text → Text
distributor_or_default none = codes "FRKN"
distributor_or_default (some d) = d

new_key-activated :
    (crypto : Crypto) (u : Unicode) (id now : ℕ) (random : List ℕ) (days : ℤ) (d secret : List ℕ)
    → (new_key crypto u id now random days d secret).activated ≡ false
unfolding new_key
new_key-activated crypto u id now random days d secret = refl

module _ (crypto : Crypto) (u : Unicode) (secret : List ℕ) where
  unfoldable pub insert_key : Bool → Key → Keys → Keys × KeyReply
  insert_key saved key keys =
      if saved then (insert key.code key keys, created key) else (keys, not_created)

  unfoldable pub post_key_handler : DateTime → FreshKey → Bool → KeyReq → Keys → Keys × KeyReply
  post_key_handler now fresh saved req keys =
      elim (distributor (distributor_or_default req.distributor)) [
        | none ↦ (keys, rejected)
        | some d ↦
            insert_key saved (new_key crypto u fresh.id now fresh.random req.days d secret) keys
      ]

  unfoldable pub get_key_validate_handler : Text → Keys → KeyReply
  get_key_validate_handler code keys =
      if is_valid crypto u code secret
      then elim (lookup code keys) [
        | none ↦ not_found
        | some key ↦ if key.activated then already_activated key else usable key
      ]
      else not_valid

  -- A key whose distributor is accepted and which the database takes is made, and is found usable
  -- under its code afterwards, if base32 and HMAC-SHA256 behave as documented.
  pub post_key_handler_lem :
      (now : DateTime) (fresh : FreshKey) (req : KeyReq) (d : List ℕ) (keys : Keys)
      → IsLawful crypto
      → length fresh.random ≡ 6
      → All IsByte fresh.random
      → IsI16 req.days
      → distributor (distributor_or_default req.distributor) ≡ some d
      → ((post_key_handler now fresh true req keys).1
          ≡ created (new_key crypto u fresh.id now fresh.random req.days d secret))
        × (get_key_validate_handler
              (new_key crypto u fresh.id now fresh.random req.days d secret).code
              (post_key_handler now fresh true req keys).0
            ≡ usable (new_key crypto u fresh.id now fresh.random req.days d secret))
  unfolding post_key_handler insert_key get_key_validate_handler
  post_key_handler_lem now fresh req d keys lawful six bytes i16 accepted =
      let key : Key = new_key crypto u fresh.id now fresh.random req.days d secret in
      let valid : is_valid crypto u key.code secret ≡ true =
        (validate-new_key crypto lawful u fresh.random req.days
          (distributor_or_default req.distributor) d secret fresh.id now six bytes i16
          accepted).0 in
      let run : post_key_handler now fresh true req keys ≡ (insert key.code key keys, created key) =
        rw (post_key_handler, accepted) refl in
      let found : lookup key.code (insert key.code key keys) ≡ some key =
        rw (lookup-insert key.code key.code key keys, ==_refl key.code) refl in
      let idle : key.activated ≡ false =
        new_key-activated crypto u fresh.id now fresh.random req.days d secret in
      (
        ap (λ r. r.1) run,
        ap (λ r. get_key_validate_handler key.code r.0) run
            ∙ rw (get_key_validate_handler, valid, found, idle) refl,
      )
