-- ===== src/Subscriptions/Store.antt =====
-- What the store of subscriptions holds after an operation.
use pony.Prelude.{
  ◌≡◌, ◌↔◌, Bool, true, none, some, arith, nat_eq, nat_eqb, nat_eqb_iff, list_eq, list_eqb_iff,
  option_eqb_iff, if◌then◌else◌, Option-cases, inl, inr,
}
use pony.Prelude.Int.{int_eq}
use pony.Prelude.Map.{Map, lookup, lookup-insert}
use pony.Subscription.{Uuid, Subscription, subscription_eqb, bool_eqb}
use pony.Connections.{already_exist, ok}
use pony.Subscriptions.{add}

bool_eqb_iff : (a b : Bool) → (bool_eqb a b ≡ true) ↔ (a ≡ b)
bool_eqb_iff a b = ground arith

subscription_eqb-eq : (a b : Subscription) → subscription_eqb a b ≡ true → a ≡ b
unfolding subscription_eqb
subscription_eqb-eq a b h = ground (
  arith,
  option_eqb_iff a.expires_at b.expires_at,
  option_eqb_iff a.referred_by b.referred_by,
  list_eqb_iff a.refer_code b.refer_code,
  bool_eqb_iff a.is_deleted b.is_deleted,
  option_eqb_iff a.limit_bytes b.limit_bytes,
  option_eqb_iff a.downlink_bytes b.downlink_bytes,
)

subscription_eqb_refl : (s : Subscription) → subscription_eqb s s ≡ true
unfolding subscription_eqb
subscription_eqb_refl s = ground (
  arith,
  option_eqb_iff s.expires_at s.expires_at,
  option_eqb_iff s.referred_by s.referred_by,
  list_eqb_iff s.refer_code s.refer_code,
  bool_eqb_iff s.is_deleted s.is_deleted,
  option_eqb_iff s.limit_bytes s.limit_bytes,
  option_eqb_iff s.downlink_bytes s.downlink_bytes,
)

-- After `add` the store holds the given subscription under its id, whatever it held there before,
-- and every other entry as before; the status is `Ok` exactly when the id was free, and
-- `AlreadyExist` exactly when the very same subscription was stored.
pub add_lem :
    (new : Subscription) (m : Map Uuid Subscription) (j : Uuid)
    → (lookup j (add new m).0 ≡ (if nat_eqb new.id j then some new else lookup j m))
      × (((add new m).1 ≡ ok new.id) ↔ (lookup new.id m ≡ none))
      × (((add new m).1 ≡ already_exist new.id) ↔ (lookup new.id m ≡ some new))
unfolding add
add_lem new m j = elim (Option-cases (lookup new.id m)) [
  | inl free ↦ ground (arith, lookup-insert new.id j new m)
  | inr (old, held) ↦ ground (
    arith,
    lookup-insert new.id j new m,
    nat_eqb_iff new.id j,
    subscription_eqb-eq old new,
    subscription_eqb_refl new,
  )
]
