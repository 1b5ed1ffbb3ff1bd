-- ===== src/Trials/File/Restart.antt =====
-- What the service knows of the trials after it was started again.
use pony.Prelude.{
  ℕ, ◌≡◌, ◌||◌, refl, ap, sym, ◌∙◌, true, false, List, [], ◌∷◌, ◌++◌, Option, none, some, nat_eqb,
  nat_eq, list_eq, All-append,
}
use pony.Prelude.Map.{Map, insert}
use mathlib.Core.List.{append_assoc}
use pony.Prelude.Text.{Text}
use pony.Subscription.{Uuid, DateTime}
use pony.Trials.File.{
  TrialText, EmailStore, next_lines, split_commas, contents, trial_line, save_trial, read_trial,
  read_trials, load_trials, restart,
}
use pony.Trials.File.Lines.{
  ends_with_lf, IsUnbroken, HasNoComma, next_lines-append, next_lines-unbroken, split_commas-append,
}

-- A time is read back as written, and the texts of times and uuids have no line breaks and commas.
pub record IsLawful (t : TrialText) : Type 0 where
  pub parse-to_rfc3339 : (time : DateTime) → t.parse (t.to_rfc3339 time) ≡ some time
  pub time-IsUnbroken : (time : DateTime) → IsUnbroken (t.to_rfc3339 time)
  pub time-HasNoComma : (time : DateTime) → HasNoComma (t.to_rfc3339 time)
  pub uuid-IsUnbroken : (id : Uuid) → IsUnbroken (t.uuid id)

module _ (t : TrialText) where
  -- The file ends with a line, and its lines are the trials of the map.
  abbrev pub IsKept : EmailStore → Type 0
  IsKept st =
      (ends_with_lf (contents st.email_file) ≡ true)
      × (st.store ≡ read_trials t (next_lines (contents st.email_file)) [])

  restart_kept :
      (file : Option Text) (store : Map Text DateTime)
      → store ≡ read_trials t (next_lines (contents file)) []
      → restart t (record { email_file = file; store = store })
        ≡ record { email_file = file; store = store }
  unfolding restart load_trials next_lines read_trials
  restart_kept none store kept = ap (λ m. record { email_file = none; store = m }) (sym kept)
  restart_kept (some s) store kept = ap (λ m. record { email_file = some s; store = m }) (sym kept)

  ends_with_lf-append : (s : Text) → ends_with_lf (s ++ 10 ∷ []) ≡ true
  ends_with_lf-append [] = refl
  ends_with_lf-append (c ∷ []) = refl
  ends_with_lf-append (c ∷ d ∷ s) = ends_with_lf-append (d ∷ s)

  read_trials-append :
      (lines more : List Text) (map : Map Text DateTime)
      → read_trials t (lines ++ more) map ≡ read_trials t more (read_trials t lines map)
  unfolding read_trials
  read_trials-append [] more map = refl
  read_trials-append (line ∷ lines) more map =
      read_trials-append lines more (read_trial t (split_commas line) map)

  module _ (l : IsLawful t) (email_hmac : Text) (sub_id : Uuid) (time : DateTime) (ref_by : Text)
      (hex : IsUnbroken email_hmac) (digits : HasNoComma email_hmac)
      (code : IsUnbroken ref_by) where
    -- A line without its end, and its parts.
    abbrev after_hmac : Text
    after_hmac = t.uuid sub_id ++ b',' ∷ ref_by

    abbrev after_time : Text
    after_time = email_hmac ++ b',' ∷ after_hmac

    abbrev line : Text
    line = t.to_rfc3339 time ++ b',' ∷ after_time

    trial_line_lem : trial_line t time email_hmac sub_id ref_by ≡ line ++ 10 ∷ []
    unfolding trial_line
    trial_line_lem = sym (
        append_assoc (t.to_rfc3339 time) (b',' ∷ after_time) (10 ∷ [])
        ∙ ap (λ z. t.to_rfc3339 time ++ b',' ∷ z)
            (append_assoc email_hmac (b',' ∷ after_hmac) (10 ∷ [])
              ∙ ap (λ z. email_hmac ++ b',' ∷ z)
                  (append_assoc (t.uuid sub_id) (b',' ∷ ref_by) (10 ∷ []))))

    line-IsUnbroken : IsUnbroken line
    line-IsUnbroken =
        let IsInLine : ℕ → Type 0 = (λ c. (nat_eqb c 10 || nat_eqb c 13) ≡ false) in
        All-append IsInLine (t.to_rfc3339 time) (b',' ∷ after_time) (l.time-IsUnbroken time) (
          refl,
          All-append IsInLine email_hmac (b',' ∷ after_hmac) hex (
            refl,
            All-append IsInLine (t.uuid sub_id) (b',' ∷ ref_by) (l.uuid-IsUnbroken sub_id)
                (refl, code),
          ),
        )

    read_trial-line :
        (map : Map Text DateTime)
        → read_trial t (split_commas line) map ≡ insert email_hmac time map
    unfolding read_trial
    read_trial-line map =
        rw
          (
            split_commas-append (t.to_rfc3339 time) after_time (l.time-HasNoComma time),
            split_commas-append email_hmac after_hmac digits,
            read_trial,
            l.parse-to_rfc3339 time,
          )
          refl

    saved_lines :
        (st : EmailStore)
        → IsKept st
        → read_trials t
            (next_lines (contents st.email_file ++ trial_line t time email_hmac sub_id ref_by))
            []
          ≡ insert email_hmac time st.store
    unfolding read_trials
    saved_lines st (ended, kept) =
        rw
          (
            trial_line_lem,
            next_lines-append (contents st.email_file) (line ++ 10 ∷ []) ended,
            next_lines-unbroken line line-IsUnbroken,
            read_trials-append (next_lines (contents st.email_file)) (line ∷ []) [],
            kept,
          )
          (read_trial-line (read_trials t (next_lines (contents st.email_file)) []))

    -- A trial that is saved is known after the next start too, with all earlier ones, if the line
    -- is written; if it is not, the next start has only the earlier ones. A saved trial keeps the
    -- file and the map in agreement. The HMAC has no line break and no comma, the code no line
    -- break, and the file and the map agree before.
    pub restart-save_trial :
        (st : EmailStore)
        → IsKept st
        → (restart t (save_trial t true email_hmac sub_id time ref_by st).0
            ≡ (save_trial t true email_hmac sub_id time ref_by st).0)
          × IsKept (save_trial t true email_hmac sub_id time ref_by st).0
          × (restart t (save_trial t false email_hmac sub_id time ref_by st).0 ≡ st)
    unfolding restart save_trial
    restart-save_trial st kept =
        let grown : Text = contents st.email_file ++ trial_line t time email_hmac sub_id ref_by in
        let lines = saved_lines st kept in
        let ended : ends_with_lf grown ≡ true =
          rw (trial_line_lem, ← append_assoc (contents st.email_file) line (10 ∷ []))
            (ends_with_lf-append (contents st.email_file ++ line)) in
        (
          restart_kept (some grown) (insert email_hmac time st.store) (sym lines),
          (ended, sym lines),
          restart_kept st.email_file st.store kept.1,
        )
