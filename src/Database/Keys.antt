-- ===== src/Database/Keys.antt =====
-- src/bin/api/postgres/keys.rs: the table of the keys, and the reading of a row, src/memory/key.rs.
-- A row with no valid distributor, at which the program panics, is `none`.
use pony.Prelude.{
  ℕ, Bool, true, false, ◌||◌, List, [], ◌∷◌, Option, none, some, nat_eqb, nat_eq, list_eq,
  if◌then◌else◌, find, any, ◌==◌, ◌≡◌, refl, ap, map, Bool-cases, inl, inr, ==_refl, arith,
}
use pony.Prelude.Int.{ℤ}
use pony.Prelude.Text.{Text}
use pony.Subscription.{Uuid, DateTime}
use pony.Key.{Key, distributor, activate}
use pony.Database.Times.{Columns}

pub record KeyRow : Type 0 where
  pub id : Uuid
  pub code : Text
  pub activated : Bool
  pub created_at : DateTime
  pub modified_at : DateTime
  pub subscription_id : Option Uuid
  pub days : ℤ
  pub distributor : Text

-- `From<Row> for Key`
unfoldable pub key_of_row : KeyRow → Option Key
key_of_row row = elim (distributor row.distributor) [
  | none ↦ none
  | some bytes ↦ some (record {
    id = row.id;
    code = row.code;
    days = row.days;
    activated = row.activated;
    subscription_id = row.subscription_id;
    created_at = row.created_at;
    modified_at = row.modified_at;
    distributor_bytes = bytes;
  })
]

unfoldable pub find_key_row : Text → List KeyRow → Option KeyRow
find_key_row code rows = find (λ r. r.code == code) rows

-- `get`: the first row, or none.
unfoldable pub get_key : Text → List KeyRow → Option Key
get_key code rows = elim (find_key_row code rows) [ none ↦ none | some row ↦ key_of_row row ]

module _ (cs : Columns) where
  -- The values of the INSERT statement; `as_str` of a distributor is its four characters.
  unfoldable pub row_of_key : Key → KeyRow
  row_of_key key = record {
    id = key.id;
    code = key.code;
    activated = key.activated;
    created_at = cs.timestamp key.created_at;
    modified_at = cs.timestamp key.modified_at;
    subscription_id = key.subscription_id;
    days = key.days;
    distributor = key.distributor_bytes;
  }

  -- `false`: the uuid or the code is there already.
  unfoldable pub insert_key_row : Key → List KeyRow → List KeyRow × Bool
  insert_key_row key rows =
      if any (λ r. nat_eqb r.id key.id || r.code == key.code) rows
      then (rows, false)
      else (row_of_key key ∷ rows, true)

  -- The UPDATE statement: `WHERE id = $3`
  activated_row : DateTime → Key → KeyRow → KeyRow
  activated_row now key r =
      if nat_eqb r.id key.id
      then record r {
        activated = true;
        subscription_id = key.subscription_id;
        modified_at = cs.timestamp now;
      }
      else r

  unfoldable pub activate_key_row : DateTime → Key → List KeyRow → List KeyRow
  unfolding activated_row
  activate_key_row now key rows = map (activated_row now key) rows

module _ (cs : Columns) (now written : DateTime) (sub_id : Uuid) (key : Key) where
  find_activated :
      (code : Text) (rows : List KeyRow)
      → any (λ r. nat_eqb r.id key.id || r.code == key.code) rows ≡ false
      → find_key_row code (activate_key_row cs written (activate now sub_id key) rows)
        ≡ find_key_row code rows
  unfolding find_key_row activate_key_row activate
  find_activated code [] h = refl
  find_activated code (r ∷ rows) h = ground (arith, find_activated code rows)

  insert_key_row_lem :
      (rows : List KeyRow)
      → (insert_key_row cs key rows).1 ≡ true
      → (any (λ r. nat_eqb r.id key.id || r.code == key.code) rows ≡ false)
        × ((insert_key_row cs key rows).0 ≡ row_of_key cs key ∷ rows)
  unfolding insert_key_row
  insert_key_row_lem rows taken =
      elim (Bool-cases (any (λ r. nat_eqb r.id key.id || r.code == key.code) rows)) [
        | inl found ↦
            let bad : false ≡ true = rw (insert_key_row, found) at taken in
            absurd (ground (arith, bad))
        | inr free ↦ (free, rw (insert_key_row, free) refl)
      ]

  nat_eqb_refl : (n : ℕ) → nat_eqb n n ≡ true
  nat_eqb_refl n = ground arith

  activated : KeyRow
  activated = record (row_of_key cs key) {
    activated = true;
    subscription_id = some sub_id;
    modified_at = cs.timestamp written;
  }

  activated_row_lem :
      activated_row cs written (activate now sub_id key) (row_of_key cs key) ≡ activated
  unfolding activated_row row_of_key activate activated
  activated_row_lem = rw (activated_row, nat_eqb_refl key.id) refl

  -- A key that the table takes is found under its code, once it is activated for a subscription,
  -- with that subscription, its times as the columns keep them; other codes are found as before.
  pub get_key-activate :
      (rows : List KeyRow)
      → (insert_key_row cs key rows).1 ≡ true
      → distributor key.distributor_bytes ≡ some key.distributor_bytes
      → (get_key key.code
            (activate_key_row cs written (activate now sub_id key) (insert_key_row cs key rows).0)
          ≡ some (record key {
            activated = true;
            subscription_id = some sub_id;
            created_at = cs.timestamp key.created_at;
            modified_at = cs.timestamp written;
          }))
        × ((code : Text)
            → (key.code == code) ≡ false
            → get_key code (
                activate_key_row cs written
                  (activate now sub_id key)
                  (insert_key_row cs key rows).0)
              ≡ get_key code rows)
  unfolding get_key key_of_row row_of_key find_key_row activate_key_row activated
  get_key-activate rows taken valid =
      let (free, run) = insert_key_row_lem rows taken in
      (
        rw
            (
              run,
              get_key,
              find_key_row,
              activated_row_lem,
              activated,
              ==_refl key.code,
              key_of_row,
              valid,
            )
            refl,
        (λ code other.
            rw (run, get_key, find_key_row, activated_row_lem, activated, other)
              (ap (λ f. elim f [ none ↦ none | some row ↦ key_of_row row ])
                (find_activated code rows free))),
      )
