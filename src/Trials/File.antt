-- ===== src/Trials/File.antt =====
-- src/bin/api/email.rs: the file of the trials, a line for each, and how a start of the service
-- reads it (src/bin/api/main.rs). The texts of a time and of a uuid are made and read by crates;
-- `written` says whether the file is opened and written. The file is taken to be readable UTF-8.
pub mod Lines
pub mod Restart
use pony.Prelude.{
  ℕ, Bool, true, false, ◌&&◌, List, [], ◌∷◌, ◌++◌, Option, none, some, nat_eqb, list_eq, nat_eq,
  if◌then◌else◌,
}
use pony.Prelude.Map.{Map, insert}
use pony.Prelude.Text.{Text}
use pony.Subscription.{Uuid, DateTime}

pub record TrialText : Type 0 where
  pub to_rfc3339 : DateTime → Text
  pub parse : Text → Option DateTime
  pub uuid : Uuid → Text

-- The file, if there is one, and the map by HMAC.
pub record EmailStore : Type 0 where
  pub email_file : Option Text
  pub store : Map Text DateTime

abbrev pub starts_with_lf : Text → Bool
starts_with_lf [] = false
starts_with_lf (c ∷ s) = nat_eqb c 10

abbrev pub push_char : ℕ → List Text → List Text
push_char c [] = (c ∷ []) ∷ []
push_char c (line ∷ lines) = (c ∷ line) ∷ lines

-- `next_line` until there is none: a line ends with LF or CR LF, the last one may lack it.
unfoldable pub next_lines : Text → List Text
next_lines [] = []
next_lines (c ∷ s) =
    let rest = next_lines s in
    if nat_eqb c 10
    then [] ∷ rest
    else if nat_eqb c 13 && starts_with_lf s
    then rest
    else push_char c rest

-- `line.split(',')`
unfoldable pub split_commas : Text → List Text
split_commas [] = [] ∷ []
split_commas (c ∷ s) =
    let rest = split_commas s in if nat_eqb c b',' then [] ∷ rest else push_char c rest

abbrev pub contents : Option Text → Text
contents none = []
contents (some s) = s

module _ (t : TrialText) where
  unfoldable pub trial_line : DateTime → Text → Uuid → Text → Text
  trial_line time email_hmac sub_id ref_by =
      t.to_rfc3339 time
      ++ b',' ∷ (email_hmac ++ b',' ∷ (t.uuid sub_id ++ b',' ∷ (ref_by ++ 10 ∷ [])))

  -- `save_trial_hmac`, with the HMAC; `false` is an error.
  unfoldable pub save_trial : Bool → Text → Uuid → DateTime → Text → EmailStore → EmailStore × Bool
  save_trial written email_hmac sub_id time ref_by st =
      let store = insert email_hmac time st.store in
      if written
      then (
        record {
          email_file = some (contents st.email_file ++ trial_line time email_hmac sub_id ref_by);
          store = store;
        },
        true,
      )
      else (record st { store = store }, false)

  unfoldable pub read_trial : List Text → Map Text DateTime → Map Text DateTime
  read_trial (time ∷ email_hmac ∷ parts) map = elim (t.parse time) [
    | none ↦ map
    | some ts ↦ insert email_hmac ts map
  ]
  read_trial (part ∷ []) map = map
  read_trial [] map = map

  unfoldable pub read_trials : List Text → Map Text DateTime → Map Text DateTime
  read_trials [] map = map
  read_trials (line ∷ lines) map = read_trials lines (read_trial (split_commas line) map)

  unfoldable pub load_trials : EmailStore → EmailStore
  load_trials st = elim st.email_file [
    | none ↦ st
    | some s ↦ record st { store = read_trials (next_lines s) [] }
  ]

  -- `EmailStore::new` and `load_trials` of the next start, with the file as it is.
  unfoldable pub restart : EmailStore → EmailStore
  restart st = load_trials (record { email_file = st.email_file; store = [] })
