-- ===== src/Subscriptions.antt =====
-- src/memory/storage/subscription.rs: the store of the subscriptions, a HashMap by uuid.
pub mod Store
use pony.Prelude.{
  ℕ, Bool, true, false, List, [], ◌∷◌, Option, none, some, nat_eq, list_eq, list_eqb, if◌then◌else◌,
  find, keep, any, length, option_eqb,
}
use pony.Prelude.Map.{Map, lookup, insert, remove}
use pony.Prelude.Text.{Text}
use pony.Subscription.{Uuid, Subscription, subscription_eqb, refer_code_of, referred_by_of}
use pony.Connections.{Status, already_exist, updated, ok}

-- `values()`
abbrev pub values : Map Uuid Subscription → List Subscription
values [] = []
values ((id, s) ∷ m) = s ∷ values m

unfoldable pub count_invited_by : Text → Map Uuid Subscription → ℕ
count_invited_by refer_code m =
    length (keep (λ s. option_eqb (referred_by_of s) (some refer_code)) (values m))

unfoldable pub find_by_refer_code : Text → Map Uuid Subscription → Option Subscription
find_by_refer_code code m = find (λ s. list_eqb (refer_code_of s) code) (values m)

unfoldable pub exist_refer_code : Text → Map Uuid Subscription → Bool
exist_refer_code code m = any (λ s. list_eqb (refer_code_of s) code) (values m)

unfoldable pub add : Subscription → Map Uuid Subscription → Map Uuid Subscription × Status
add new m = elim (lookup new.id m) [
  | some existing ↦
      if subscription_eqb existing new
      then (m, already_exist new.id)
      else (insert new.id new m, updated new.id)
  | none ↦ (insert new.id new m, ok new.id)
]

unfoldable pub delete : Uuid → Map Uuid Subscription → Map Uuid Subscription
delete id m = remove id m

unfoldable pub update : Subscription → Map Uuid Subscription → Map Uuid Subscription
update s m = insert s.id s m
