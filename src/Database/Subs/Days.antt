-- ===== src/Database/Subs/Days.antt =====
-- Days that are added to a subscription, in the memory and in the table.
use pony.Prelude.{◌<◌, ◌≤◌, ◌≡◌, refl, none, some, arith, nat_eq, Option}
use pony.Prelude.Int.{ℤ}
use pony.Prelude.Map.{lookup, lookup-adjust_self}
use pony.Subscription.{Uuid, DateTime, Chrono, Subscription, set_expires_at}
use pony.Sync.World.{Outside}
use pony.Sync.Operations.{prolong}
use pony.Database.Times.{Columns}
use pony.Database.Subs.{
  returned, set_expiry, SubColumns, SubTable, sub_of_row, base_of, add_days_row,
}

-- The expiry that the table holds afterwards.
pub add_days_row_lem :
    (cs : Columns) (now : DateTime) (chrono : Chrono) (id : Uuid) (days : ℤ) (rows : SubTable)
    (row : SubColumns)
    → lookup id rows ≡ some row
    → (add_days_row cs now chrono id days rows).1
      ≡ some (
          sub_of_row id (record row {
            expires_at = some (cs.timestamp (chrono.plus_days (base_of now row.expires_at) days));
            updated_at = cs.timestamp now;
          }))
unfolding add_days_row returned set_expiry
add_days_row_lem cs now chrono id days rows row stored =
    rw
      (
        add_days_row,
        stored,
        returned,
        lookup-adjust_self id
            (set_expiry cs now (chrono.plus_days (base_of now row.expires_at) days)) rows row
            stored,
      )
      refl

abbrev pub returned_expiry : Option Subscription → Option DateTime
returned_expiry none = none
returned_expiry (some r) = r.expires_at

module _ (o : Outside) (cs : Columns) (now later : DateTime) (chrono : Chrono) (days : ℤ)
    (rows : SubTable) (s : Subscription) (row : SubColumns) (exp : DateTime) (live : later < exp)
    (sm : s.expires_at ≡ some exp) (sr : row.expires_at ≡ some exp)
    (stored : lookup s.id rows ≡ some row) where
  row_expiry :
      returned_expiry (add_days_row cs later chrono s.id days rows).1
      ≡ some (cs.timestamp (chrono.plus_days exp days))
  unfolding sub_of_row base_of
  row_expiry =
      let from : base_of later row.expires_at ≡ exp = rw sr (ground arith) in
      rw (add_days_row_lem cs later chrono s.id days rows row stored, from) refl

  -- A subscription that is still to expire gets the same expiry in the memory and in the table, up
  -- to what the column keeps, if both had the same, the clock of the second reading is not behind
  -- that of the first, and the new expiry is still ahead.
  pub add_days_row-prolong :
      now ≤ later
      → now < chrono.plus_days exp days
      → ((prolong o now chrono days s).expires_at ≡ some (chrono.plus_days exp days))
        × (returned_expiry (add_days_row cs later chrono s.id days rows).1
            ≡ some (cs.timestamp (chrono.plus_days exp days)))
  unfolding prolong set_expires_at
  add_days_row-prolong order ahead = (ground arith, row_expiry)

  -- If the new expiry is past, as it can be after a negative number of days, the memory keeps the
  -- old one and the table takes the new one.
  pub add_days_row-past :
      now ≤ later
      → chrono.plus_days exp days ≤ now
      → ((prolong o now chrono days s).expires_at ≡ some exp)
        × (returned_expiry (add_days_row cs later chrono s.id days rows).1
            ≡ some (cs.timestamp (chrono.plus_days exp days)))
  unfolding prolong set_expires_at
  add_days_row-past order past = (ground arith, row_expiry)
