-- ===== src/Subscription.antt =====
-- src/memory/subscription.rs: a paid or a trial subscription.
-- An instant is its number of nanoseconds since the earliest instant of chrono, a uuid is its
-- number. What chrono computes with instants is the parameter `Chrono`; an addition that leaves
-- its range, where chrono panics, is outside of the model. `now` is the reading of the clock.
pub mod Activity
use pony.Prelude.{
  ℕ, ◌+◌, ◌*◌, ◌/◌, ◌%◌, ◌≤◌, ◌<◌, Bool, true, false, not, ◌&&◌, ◌||◌, List, [], ◌∷◌, Option, none,
  some, ltb, leb, nat_eqb, if◌then◌else◌, option_eqb, list_eqb, list_eq, nat_eq,
}
use mathlib.Core.List.{reverse}
use pony.Prelude.Int.{ℤ, pos, ltb_ℤ, int_eq}
use pony.Prelude.Text.{Text}

abbrev pub Uuid : Type 0
Uuid = ℕ

abbrev pub DateTime : Type 0
DateTime = ℕ

pub record Chrono : Type 0 where
  -- `t + Duration::days(d)`
  pub plus_days : DateTime → ℤ → DateTime
  -- `(a - b).num_days()`
  pub num_days : DateTime → DateTime → ℤ
  -- `t.timestamp() as u64`
  pub timestamp : DateTime → ℕ

pub record Subscription : Type 0 where
  pub id : Uuid
  pub expires_at : Option DateTime
  pub referred_by : Option Text
  pub refer_code : Text
  pub created_at : DateTime
  pub updated_at : DateTime
  pub is_deleted : Bool
  pub limit_bytes : Option ℤ
  pub downlink_bytes : Option ℤ

pub record SubscriptionStats : Type 0 where
  pub id : Uuid
  pub expires_at : Option DateTime
  pub days_remaining : ℤ
  pub is_active : Bool

-- `Subscription::new`
unfoldable pub new_subscription :
    DateTime → Uuid → Option Text → Text → Option DateTime → Option ℤ → Subscription
new_subscription now id ref_by ref_code exp_at limit_bytes = record {
  id = id;
  expires_at = exp_at;
  referred_by = ref_by;
  refer_code = ref_code;
  created_at = now;
  updated_at = now;
  is_deleted = false;
  limit_bytes = limit_bytes;
  downlink_bytes = some (pos 0);
}

abbrev pub bool_eqb : Bool → Bool → Bool
bool_eqb true b = b
bool_eqb false b = not b

-- The derived `PartialEq`.
unfoldable pub subscription_eqb : Subscription → Subscription → Bool
subscription_eqb a b =
    nat_eqb a.id b.id
    && option_eqb a.expires_at b.expires_at
    && option_eqb a.referred_by b.referred_by
    && list_eqb a.refer_code b.refer_code
    && nat_eqb a.created_at b.created_at
    && nat_eqb a.updated_at b.updated_at
    && bool_eqb a.is_deleted b.is_deleted
    && option_eqb a.limit_bytes b.limit_bytes
    && option_eqb a.downlink_bytes b.downlink_bytes

unfoldable pub set_refer_code : Text → Subscription → Subscription
set_refer_code code s = record s { refer_code = code }

unfoldable pub set_referred_by : Text → Subscription → Subscription
set_referred_by code s = record s { referred_by = some code }

unfoldable pub set_limit_bytes : ℤ → Subscription → Subscription
set_limit_bytes bytes s = record s { limit_bytes = some bytes }

unfoldable pub set_downlink_bytes : ℤ → Subscription → Subscription
set_downlink_bytes bytes s = record s { downlink_bytes = some bytes }

unfoldable pub mark_deleted : DateTime → Subscription → Subscription
mark_deleted now s = record s { is_deleted = true; updated_at = now }

-- `expires_at > Some(now)`: `None` is below every `Some`.
abbrev pub later : Option DateTime → DateTime → Bool
later none now = false
later (some t) now = ltb now t

unfoldable pub is_active : DateTime → Subscription → Bool
is_active now s = not s.is_deleted && later s.expires_at now

-- `Err` leaves the subscription alone.
unfoldable pub set_expires_at : DateTime → DateTime → Subscription → Option Subscription
set_expires_at now t s =
    if leb t now then none else some (record s { expires_at = some t; updated_at = now })

-- The code points that `trim` removes.
abbrev is_whitespace : ℕ → Bool
is_whitespace c =
    (leb 9 c && leb c 13)
    || nat_eqb c 32
    || nat_eqb c 0x85
    || nat_eqb c 0xa0
    || nat_eqb c 0x1680
    || (leb 0x2000 c && leb c 0x200a)
    || nat_eqb c 0x2028
    || nat_eqb c 0x2029
    || nat_eqb c 0x202f
    || nat_eqb c 0x205f
    || nat_eqb c 0x3000

trim_start : Text → Text
trim_start [] = []
trim_start (c ∷ s) = let rest = trim_start s in if is_whitespace c then rest else c ∷ s

-- `str::trim`
unfoldable pub trim : Text → Text
unfolding trim_start
trim s = reverse (trim_start (reverse (trim_start s)))

-- `refer_code()` and `referred_by()`
unfoldable pub refer_code_of : Subscription → Text
refer_code_of s = trim s.refer_code

unfoldable pub referred_by_of : Subscription → Option Text
referred_by_of s = elim s.referred_by [ none ↦ none | some code ↦ some (trim code) ]

module _ (chrono : Chrono) where
  unfoldable pub extend : DateTime → ℤ → Subscription → Subscription
  extend now days s = record s {
    expires_at = elim s.expires_at [ none ↦ none | some t ↦ some (chrono.plus_days t days) ];
    updated_at = now;
  }

  unfoldable pub days_remaining : DateTime → Subscription → Option ℤ
  days_remaining now s = elim s.expires_at [ none ↦ none | some t ↦ some (chrono.num_days t now) ]

  unfoldable pub stats : DateTime → Subscription → SubscriptionStats
  stats now s =
      let days : ℤ = elim s.expires_at [ none ↦ pos 99999 | some t ↦ chrono.num_days t now ] in
      record {
        id = s.id;
        expires_at = s.expires_at;
        days_remaining = days;
        is_active = ltb_ℤ (pos 0) days && not s.is_deleted;
      }
