-- ===== src/Connection/Update.antt =====
-- `apply_update` of src/memory/storage/connection.rs: a patch of a connection.
use pony.Prelude.{
  ◌≡◌, ◌≢◌, ◌⊎◌, refl, Bool, true, false, not, ◌&&◌, ◌||◌, Option, none, some, arith, option_eqb,
  option_eqb_iff, if◌then◌else◌, ◌==◌, inl, inr, nat_eq, Bool-cases, ◌∙◌, ◌↔◌,
}
use pony.Env.{Env, env_eq, env_eqb_iff}
use pony.Tag.{shadowsocks, tag_eqb}
use pony.Subscription.{Uuid, DateTime, bool_eqb}
use pony.Connection.{Proto, proto_tag, proto_password, proto_eqb, Conn, ConnPatch}

is_some {ℓ} : {A : Type ℓ} → Option A → Bool
is_some none = false
is_some (some a) = true

-- The three early returns: whether the patch is refused.
refuses_proto : Conn → Option Proto → Bool
refuses_proto c none = false
refuses_proto c (some proto) = not (proto_eqb c.proto proto)

refused : Conn → ConnPatch → Bool
unfolding is_some refuses_proto
refused c patch =
    (not (is_some patch.is_deleted) && c.is_deleted)
    || refuses_proto c patch.proto
    || (is_some (proto_password c.proto)
        && not (tag_eqb (proto_tag c.proto) shadowsocks)
        && is_some patch.proto)

-- Each field in turn, with the `changed` flag.
patch_deleted : Option Bool → Conn × Bool → Conn × Bool
patch_deleted none s = s
patch_deleted (some deleted) (c, changed) =
    if bool_eqb c.is_deleted deleted
    then (c, changed)
    else (record c { is_deleted = deleted }, true)

patch_env : Option Env → Conn × Bool → Conn × Bool
patch_env none s = s
patch_env (some env) (c, changed) =
    if c.env == env then (c, changed) else (record c { env = env }, true)

patch_expires_at : Option DateTime → Conn × Bool → Conn × Bool
patch_expires_at none s = s
patch_expires_at (some exp) (c, changed) =
    if option_eqb c.expires_at (some exp)
    then (c, changed)
    else (record c { expires_at = some exp }, true)

patch_subscription_id : Option Uuid → Conn × Bool → Conn × Bool
patch_subscription_id none s = s
patch_subscription_id (some sub_id) (c, changed) =
    if option_eqb c.subscription_id (some sub_id)
    then (c, changed)
    else (record c { subscription_id = some sub_id }, true)

finish : DateTime → Conn × Bool → Conn × Option Conn
finish now (c, true) = (record c { modified_at = now }, some (record c { modified_at = now }))
finish now (c, false) = (c, none)

-- The connection after the call, and the result.
unfoldable pub apply_update : DateTime → Conn → ConnPatch → Conn × Option Conn
unfolding refused finish patch_deleted patch_env patch_expires_at patch_subscription_id
apply_update now c patch =
    if refused c patch
    then (c, none)
    else finish now (
        patch_subscription_id patch.subscription_id (
          patch_expires_at patch.expires_at
            (patch_env patch.env (patch_deleted patch.is_deleted (c, false)))))

abbrev pub Differs : Conn → Conn → Type 0
Differs c c' =
    (c'.is_deleted ≢ c.is_deleted)
    ⊎ ((c'.env ≢ c.env)
        ⊎ ((c'.expires_at ≢ c.expires_at) ⊎ (c'.subscription_id ≢ c.subscription_id)))

abbrev pub Updates : DateTime → Conn → Conn × Option Conn → Type 0
Updates now c (c', none) = c' ≡ c
Updates now c (c', some r) =
    (r ≡ c')
    × (c'.modified_at ≡ now)
    × (c'.proto ≡ c.proto)
    × (c'.created_at ≡ c.created_at)
    × Differs c c'

-- How far the connection may differ from the original before a field is patched.
abbrev Kept : Conn → Conn × Bool → Type 0
Kept c (c', true) = (c'.proto ≡ c.proto) × (c'.created_at ≡ c.created_at) × Differs c c'
Kept c (c', false) = c' ≡ c

bool_eqb_iff : (a b : Bool) → (bool_eqb a b ≡ true) ↔ (a ≡ b)
bool_eqb_iff a b = ground arith

module _ (c : Conn) where
  patch_deleted-Kept :
      (p : Option Bool)
      → let s = patch_deleted p (c, false) in
        Kept c s
        × (s.0.env ≡ c.env)
        × (s.0.expires_at ≡ c.expires_at)
        × (s.0.subscription_id ≡ c.subscription_id)
  unfolding patch_deleted
  patch_deleted-Kept none = ground arith
  patch_deleted-Kept (some d) = ground (arith, bool_eqb_iff c.is_deleted d)

  patch_env-Kept :
      (p : Option Env) (s : Conn × Bool)
      → Kept c s
      → s.0.env ≡ c.env
      → Kept c (patch_env p s)
        × ((patch_env p s).0.expires_at ≡ s.0.expires_at)
        × ((patch_env p s).0.subscription_id ≡ s.0.subscription_id)
  unfolding patch_env
  patch_env-Kept none s k e = (k, refl, refl)
  patch_env-Kept (some v) (c', true) k e = ground (arith, env_eqb_iff c'.env v)
  patch_env-Kept (some v) (c', false) k e = ground (arith, env_eqb_iff c'.env v)

  patch_expires_at-Kept :
      (p : Option DateTime) (s : Conn × Bool)
      → Kept c s
      → s.0.expires_at ≡ c.expires_at
      → Kept c (patch_expires_at p s)
        × ((patch_expires_at p s).0.subscription_id ≡ s.0.subscription_id)
  unfolding patch_expires_at
  patch_expires_at-Kept none s k e = (k, refl)
  patch_expires_at-Kept (some v) (c', true) k e =
      ground (arith, option_eqb_iff c'.expires_at (some v))
  patch_expires_at-Kept (some v) (c', false) k e =
      ground (arith, option_eqb_iff c'.expires_at (some v))

  patch_subscription_id-Kept :
      (p : Option Uuid) (s : Conn × Bool)
      → Kept c s
      → s.0.subscription_id ≡ c.subscription_id
      → Kept c (patch_subscription_id p s)
  unfolding patch_subscription_id
  patch_subscription_id-Kept none s k e = k
  patch_subscription_id-Kept (some v) (c', true) k e =
      ground (arith, option_eqb_iff c'.subscription_id (some v))
  patch_subscription_id-Kept (some v) (c', false) k e =
      ground (arith, option_eqb_iff c'.subscription_id (some v))

  finish-Updates : (now : DateTime) (s : Conn × Bool) → Kept c s → Updates now c (finish now s)
  unfolding finish
  finish-Updates now (c', true) k = ground arith
  finish-Updates now (c', false) k = k

-- A patch either changes nothing and returns nothing, or returns the connection as it now is,
-- stamped, with the same protocol and creation time, and with a change in one of the four fields
-- that a patch may set.
pub apply_update-Updates :
    (now : DateTime) (c : Conn) (patch : ConnPatch) → Updates now c (apply_update now c patch)
unfolding apply_update
apply_update-Updates now c patch = elim (Bool-cases (refused c patch)) [
  | inl early ↦ rw early refl
  | inr late ↦
      let (k1, e1, x1, s1) = patch_deleted-Kept c patch.is_deleted in
      let (k2, x2, s2) = patch_env-Kept c patch.env _ k1 e1 in
      let (k3, s3) = patch_expires_at-Kept c patch.expires_at _ k2 (x2 ∙ x1) in
      rw late (
        finish-Updates c now _
          (patch_subscription_id-Kept c patch.subscription_id _ k3 (s3 ∙ s2 ∙ s1)))
]
