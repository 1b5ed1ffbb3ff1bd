-- ===== src/Tests/Restarts.antt =====
-- The file of the trials.
use pony.Prelude.{ℕ, ◌≡◌, ◌+◌, ◌-◌, refl, true, false, [], ◌∷◌, Option, none, some, arith}
use pony.Prelude.Text.{Text, codes}
use pony.Subscription.{DateTime}
use pony.Prelude.Map.{insert}
use pony.Trials.File.{
  TrialText, EmailStore, next_lines, split_commas, save_trial, read_trial, read_trials, restart,
}
use pony.Trials.File.Lines.{IsUnbroken, HasNoComma}
use pony.Trials.File.Restart.{IsLawful, IsKept, restart-save_trial}
use pony.Tests.Data.{now}

abbrev read : Text → Option DateTime
read [] = none
read (c ∷ s) = some (c - 100)

abbrev one_char : TrialText
one_char = record {
  to_rfc3339 = λ time. (time + 100) ∷ [];
  parse = read;
  uuid = λ id. (id + 100) ∷ [];
}

char-IsUnbroken : (n : ℕ) → IsUnbroken ((n + 100) ∷ [])
char-IsUnbroken n = (ground arith, tt)

char-HasNoComma : (n : ℕ) → HasNoComma ((n + 100) ∷ [])
char-HasNoComma n = (ground arith, tt)

char-read : (n : ℕ) → read ((n + 100) ∷ []) ≡ some n
char-read n = ground arith

one_char-IsLawful : IsLawful one_char
one_char-IsLawful = record {
  parse-to_rfc3339 = char-read;
  time-IsUnbroken = char-IsUnbroken;
  time-HasNoComma = char-HasNoComma;
  uuid-IsUnbroken = char-IsUnbroken;
}

-- One trial, on a line that ends with CR LF.
abbrev kept : EmailStore
kept = record {
  email_file = some (200 ∷ b',' ∷ b'e' ∷ 13 ∷ 10 ∷ []);
  store = (codes "e", 100) ∷ [];
}

kept-IsKept : IsKept one_char kept
unfolding next_lines read_trials read_trial split_commas insert
kept-IsKept = (refl, refl)

restart-save_trial_example :
    (restart one_char (save_trial one_char true (codes "ab") 9 now (codes "WEB") kept).0
      ≡ (save_trial one_char true (codes "ab") 9 now (codes "WEB") kept).0)
    × IsKept one_char (save_trial one_char true (codes "ab") 9 now (codes "WEB") kept).0
    × (restart one_char (save_trial one_char false (codes "ab") 9 now (codes "WEB") kept).0 ≡ kept)
restart-save_trial_example =
    restart-save_trial one_char one_char-IsLawful (codes "ab") 9 now (codes "WEB")
      (refl, (refl, tt)) (refl, (refl, tt)) (refl, (refl, (refl, tt))) kept kept-IsKept
