-- ===== src/Subscription/Activity.antt =====
-- When a subscription is active.
use pony.Prelude.{◌<◌, ◌≡◌, ◌≢◌, true, false, none, Option-cases, arith}
use pony.Prelude.Int.{ℤ, pos, ◌≤ℤ◌}
use pony.Subscription.{DateTime, Chrono, Subscription, is_active, stats}

-- What chrono promises of days: adding days leads to a later instant, and there are days from one
-- instant to a later one only.
pub record IsLawful (chrono : Chrono) : Type 0 where
  pub lt-plus_days : (t : DateTime) (d : ℤ) → pos 1 ≤ℤ d → t < chrono.plus_days t d
  pub num_days-pos : (t now : DateTime) → pos 1 ≤ℤ chrono.num_days t now → now < t

module _ (chrono : Chrono) (lawful : IsLawful chrono) (now : DateTime) where
  -- A subscription with an expiry date that `stats` calls active is active by `is_active` too.
  pub stats-is_active :
      (s : Subscription)
      → s.expires_at ≢ none
      → (stats chrono now s).is_active ≡ true
      → is_active now s ≡ true
  unfolding stats is_active
  stats-is_active s h e = grind (arith, lawful.num_days-pos, Option-cases s.expires_at)

  -- A subscription without an expiry date that is not deleted is active by `stats`, and inactive
  -- by `is_active`, at every time.
  pub unlimited_disagree :
      (s : Subscription)
      → s.expires_at ≡ none
      → s.is_deleted ≡ false
      → ((stats chrono now s).is_active ≡ true) × (is_active now s ≡ false)
  unfolding stats is_active
  unlimited_disagree s e d = ground arith
