-- ===== src/Trials.antt =====
-- src/bin/api/http/handlers/trial.rs and the store of src/bin/api/email.rs: a trial subscription,
-- with a connection for every environment and protocol. The HMAC of an address is the parameter
-- `hmac_email`; what is drawn at random is an argument. The file of the trials is in Trials/File;
-- the mail is left out.
pub mod File
pub mod Once
use pony.Prelude.{
  ℕ, suc, Bool, true, false, not, ◌&&◌, List, [], ◌∷◌, Option, none, some, nat_eq, list_eq,
  if◌then◌else◌,
}
use pony.Prelude.Int.{ℤ, pos}
use pony.Prelude.Map.{Map, lookup, insert}
use pony.Prelude.Text.{Text}
use pony.Env.{Env}
use pony.Tag.{ProtoTag}
use pony.Wireguard.{IpAddrMask}
use pony.Subscription.{Uuid, DateTime, Chrono, Subscription, new_subscription}
use pony.Connection.{Proto, Conn, new_conn, as_create_message}
use pony.Connections.{Status, ok}
use pony.Subscriptions.{find_by_refer_code}
use pony.Sync.World.{World, Outside, SyncResult, done, error}
use pony.Sync.Operations.{add_conn, add_sub, add_days}
use pony.Handlers.{Fresh, new_proto, announce}
use pony.Referrals.{FreshSub, is_system}

-- The body of the request (src/bin/api/http/request.rs).
pub record Trial : Type 0 where
  pub user : Option Text
  pub email : Option Text
  pub referred_by : Option Text

abbrev is_some : {A : Type 0} → Option A → Bool
is_some none = false
is_some (some _) = true

-- `false` is the error "Only one param is allowed".
unfoldable pub validate : Trial → Bool
validate req = not (is_some req.user && is_some req.email)

-- The world, and the map of `EmailStore`, by HMAC.
pub record TrialState : Type 0 where
  pub world : World
  pub trials : Map Text DateTime

pub data TrialReply : Type 0 where
  rejected bad internal : TrialReply
  activated : Uuid → TrialReply

-- The arguments of the handler from the settings.
pub record TrialSettings : Type 0 where
  pub network : IpAddrMask
  pub system_refer_codes : List Text
  pub envs : List Env
  pub protos : List ProtoTag
  pub trial_days : ℤ
  pub bonus : ℤ
  pub limit_bytes : ℤ

module _ (hmac_email : Text → Text) where
  abbrev pub check_email_hmac : Option Text → TrialState → Bool
  check_email_hmac none st = false
  check_email_hmac (some email) st = elim (lookup (hmac_email email) st.trials) [
    | some _ ↦ true
    | none ↦ false
  ]

  abbrev pub save_trial_hmac : DateTime → Option Text → Map Text DateTime → Map Text DateTime
  save_trial_hmac now none trials = trials
  save_trial_hmac now (some email) trials = insert (hmac_email email) now trials

-- What is drawn for the connections, in the order of the loops.
abbrev pub Draws : Type 0
Draws = ℕ → Fresh

module _ (o : Outside) (now : DateTime) (settings : TrialSettings) where
  -- One round of the loops. `false` is a return with an internal error; a connection that cannot
  -- be added is left out.
  unfoldable pub announced : Uuid → Conn → World → SyncResult Status → World × Bool
  announced id conn w (done (ok _)) =
      if o.to_bytes (as_create_message id conn ∷ [])
      then ((announce o now id conn w).0, true)
      else (w, false)
  announced id conn w _ = (w, true)

  unfoldable pub add_trial_conn : Uuid → Env → Fresh → Option Proto → World → World × Bool
  add_trial_conn sub_id env fresh none w = (w, false)
  add_trial_conn sub_id env fresh (some proto) w =
      let conn = new_conn now env (some sub_id) proto none in
      let (w', r) = add_conn o now fresh.id conn w in announced fresh.id conn w' r

  unfoldable pub each_proto : Uuid → Env → Draws → ℕ → List ProtoTag → World → ℕ × World × Bool
  each_proto sub_id env draws n [] w = (n, w, true)
  each_proto sub_id env draws n (p ∷ protos) w =
      let (w', go_on) =
        add_trial_conn sub_id env (draws n)
          (new_proto o now settings.network (draws n) p w.cache.connections) w in
      let rest = each_proto sub_id env draws (suc n) protos w' in
      if go_on then rest else (n, w', false)

  unfoldable pub each_env : Uuid → Draws → ℕ → List Env → World → World × Bool
  each_env sub_id draws n [] w = (w, true)
  each_env sub_id draws n (env ∷ envs) w =
      let (n', w', go_on) = each_proto sub_id env draws n settings.protos w in
      let rest = each_env sub_id draws n' envs w' in if go_on then rest else (w', false)

  module _ (chrono : Chrono) (hmac_email : Text → Text) (fresh : FreshSub) (draws : Draws) where
    abbrev pub trial_sub : Trial → Subscription
    trial_sub req =
        new_subscription now fresh.id req.referred_by fresh.code
          (some (chrono.plus_days now settings.trial_days)) (some settings.limit_bytes)

    abbrev pub saved : Trial → Map Text DateTime → Map Text DateTime
    saved req trials =
        save_trial_hmac hmac_email now req.email (save_trial_hmac hmac_email now req.user trials)

    unfoldable pub finish : Trial → Map Text DateTime → World × Bool → TrialState × TrialReply
    finish req trials (w, true) =
        (record { world = w; trials = saved req trials }, activated (trial_sub req).id)
    finish req trials (w, false) = (record { world = w; trials = trials }, internal)

    unfoldable pub with_sub :
        Trial → Map Text DateTime → World → SyncResult Status → TrialState × TrialReply
    with_sub req trials w (done (ok id)) = finish req trials (each_env id draws 0 settings.envs w)
    with_sub req trials w _ = (record { world = w; trials = trials }, internal)

    unfoldable pub grant : Trial → TrialState → TrialState × TrialReply
    grant req st = let (w, r) = add_sub o now (trial_sub req) st.world in with_sub req st.trials w r

    unfoldable pub rewarded :
        Trial → TrialState → World × SyncResult Status → TrialState × TrialReply
    rewarded req st (w, error e) = (record st { world = w }, internal)
    rewarded req st (w, done status) = grant req (record st { world = w })

    unfoldable pub referred : Trial → TrialState → Option Text → TrialState × TrialReply
    referred req st none = grant req st
    referred req st (some code) = elim (find_by_refer_code code st.world.cache.subscriptions) [
      | none ↦ (st, bad)
      | some sub ↦ rewarded req st (
          add_days o now chrono sub.id
            (if is_system settings.system_refer_codes code then pos 0 else settings.bonus) st.world)
    ]

    unfoldable pub post_trial_handler : Trial → TrialState → TrialState × TrialReply
    post_trial_handler req st =
        if validate req
        then (if check_email_hmac hmac_email req.user st
            then (st, bad)
            else if check_email_hmac hmac_email req.email st
            then (st, bad)
            else referred req st req.referred_by)
        else (st, rejected)
