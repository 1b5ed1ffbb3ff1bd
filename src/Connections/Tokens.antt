-- ===== src/Connections/Tokens.antt =====
-- Which connection a Hysteria2 token belongs to.
use pony.Prelude.{
  ◌≡◌, ◌≢◌, ◌↔◌, true, false, [], ◌∷◌, none, some, arith, nat_eqb, nat_eqb_iff, nat_eq, Bool-cases,
  inl, inr,
}
use pony.Prelude.Map.{Map, lookup, HasUniqueKeys}
use pony.Subscription.{Uuid}
use pony.Connection.{Proto, wg, ss, xray, h2, mt, BaseOps}
use pony.Connections.{has_token, validate_token}

has_token_iff : (token : Uuid) (p : Proto) → (has_token token p ≡ true) ↔ (p ≡ h2 token)
has_token_iff token (h2 t) = ground arith
has_token_iff token (wg p) = ground arith
has_token_iff token (ss p) = ground arith
has_token_iff token (xray p) = ground arith
has_token_iff token (mt p) = ground arith

module _ {C : Type 0} ⦃o : BaseOps C⦄ where
  lookup_ne :
      (i j : Uuid) (m : Map Uuid C) {c : C}
      → lookup i m ≡ none
      → lookup j m ≡ some c
      → nat_eqb i j ≡ false
  lookup_ne i j m a b = elim (Bool-cases (nat_eqb i j)) [
    | inl e ↦ cc (a, b, (nat_eqb_iff i j).0 e)
    | inr e ↦ e
  ]

  -- In a store without double keys a token belongs to the connection whose uuid is returned.
  pub validate_token_sound :
      (token id : Uuid) (m : Map Uuid C)
      → HasUniqueKeys m
      → validate_token token m ≡ some id
      → (c : C) × (lookup id m ≡ some c) × (o.get_proto c ≡ h2 token)
  unfolding validate_token lookup
  validate_token_sound token id [] h e = cc
  validate_token_sound token id ((j, c) ∷ m) h e =
      elim (Bool-cases (has_token token (o.get_proto c))) [
        | inl here ↦ (c, ground arith, (has_token_iff token (o.get_proto c)).0 here)
        | inr there ↦
            let (d, found, has) =
              validate_token_sound token id m h.1 (rw (there, validate_token) at e) in
            (d, rw (lookup_ne j id m h.0 found) found, has)
      ]

  pub validate_token_complete :
      (token : Uuid) (m : Map Uuid C) (id : Uuid) (c : C)
      → validate_token token m ≡ none
      → lookup id m ≡ some c
      → o.get_proto c ≢ h2 token
  unfolding validate_token lookup
  validate_token_complete token [] id c e l = ground arith
  validate_token_complete token ((j, d) ∷ m) id c e l =
      ground (arith, has_token_iff token (o.get_proto d), validate_token_complete token m id c)
