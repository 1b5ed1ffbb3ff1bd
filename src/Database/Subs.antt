-- ===== src/Database/Subs.antt =====
-- src/bin/api/postgres/subscription.rs: the table of the subscriptions, and the reading of a row,
-- src/memory/subscription.rs. A query of one row that finds none is an error: `none`.
pub mod Days
use pony.Prelude.{
  Bool, true, false, not, List, [], ◌∷◌, Option, none, some, ltb, leb, nat_eq, if◌then◌else◌,
}
use pony.Prelude.Int.{ℤ}
use pony.Prelude.Map.{Map, lookup, insert, adjust}
use pony.Prelude.Text.{Text}
use pony.Subscription.{Uuid, DateTime, Chrono, Subscription}
use pony.Database.Times.{Columns, timestamps}

-- A row, without its primary key.
pub record SubColumns : Type 0 where
  pub expires_at : Option DateTime
  pub referred_by : Option Text
  pub refer_code : Text
  pub created_at : DateTime
  pub updated_at : DateTime
  pub is_deleted : Bool
  pub limit_bytes : Option ℤ
  pub downlink_bytes : Option ℤ

abbrev pub SubTable : Type 0
SubTable = Map Uuid SubColumns

-- `From<Row> for Subscription`
unfoldable pub sub_of_row : Uuid → SubColumns → Subscription
sub_of_row id row = record {
  id = id;
  expires_at = row.expires_at;
  referred_by = row.referred_by;
  refer_code = row.refer_code;
  created_at = row.created_at;
  updated_at = row.updated_at;
  is_deleted = row.is_deleted;
  limit_bytes = row.limit_bytes;
  downlink_bytes = row.downlink_bytes;
}

-- `ORDER BY created_at DESC`
insert_by_created_at : Subscription → List Subscription → List Subscription
insert_by_created_at s [] = s ∷ []
insert_by_created_at s (r ∷ rs) =
    if ltb s.created_at r.created_at then r ∷ insert_by_created_at s rs else s ∷ r ∷ rs

unfoldable pub all_subs : SubTable → List Subscription
unfolding insert_by_created_at
all_subs [] = []
all_subs ((id, row) ∷ rows) =
    let rest = all_subs rows in
    if row.is_deleted then rest else insert_by_created_at (sub_of_row id row) rest

returned : Uuid → SubTable → SubTable × Option Subscription
returned id rows = elim (lookup id rows) [
  | some row ↦ (rows, some (sub_of_row id row))
  | none ↦ (rows, none)
]

-- `Some(exp) if exp > now => exp, _ => now`
unfoldable pub base_of : DateTime → Option DateTime → DateTime
base_of now none = now
base_of now (some exp) = if ltb now exp then exp else now

-- The statements; `now` is the clock of the program, or of the database for the columns that the
-- INSERT leaves to their defaults.
module _ (cs : Columns) (now : DateTime) where
  unfoldable pub default_row : Subscription → SubColumns
  default_row new_sub = record {
    expires_at = timestamps cs new_sub.expires_at;
    referred_by = new_sub.referred_by;
    refer_code = cs.refer_code new_sub.refer_code;
    created_at = cs.timestamp now;
    updated_at = cs.timestamp now;
    is_deleted = false;
    limit_bytes = none;
    downlink_bytes = none;
  }

  unfoldable pub create_sub_row : Subscription → SubTable → SubTable × Option Subscription
  unfolding default_row returned
  create_sub_row new_sub rows = elim (lookup new_sub.id rows) [
    | some _ ↦ (rows, none)
    | none ↦ returned new_sub.id (insert new_sub.id (default_row new_sub) rows)
  ]

  set_columns : DateTime → Option Text → Text → SubColumns → SubColumns
  set_columns expires_at referred_by ref_code row = record row {
    expires_at = some (cs.timestamp expires_at);
    referred_by = referred_by;
    updated_at = cs.timestamp now;
    refer_code = cs.refer_code ref_code;
  }

  unfoldable pub update_subscription_row :
      Uuid → DateTime → Option Text → Text → SubTable → SubTable × Option Subscription
  unfolding set_columns returned
  update_subscription_row id expires_at referred_by ref_code rows =
      returned id (adjust id (set_columns expires_at referred_by ref_code) rows)

  set_expiry : DateTime → SubColumns → SubColumns
  set_expiry new_expires_at row = record row {
    expires_at = some (cs.timestamp new_expires_at);
    updated_at = cs.timestamp now;
  }

  unfoldable pub add_days_row : Chrono → Uuid → ℤ → SubTable → SubTable × Option Subscription
  unfolding set_expiry returned
  add_days_row chrono sub_id days rows = elim (lookup sub_id rows) [
    | none ↦ (rows, none)
    | some row ↦
        returned sub_id
          (adjust sub_id (set_expiry (chrono.plus_days (base_of now row.expires_at) days)) rows)
  ]
