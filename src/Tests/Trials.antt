-- ===== src/Tests/Trials.antt =====
-- Trials.
use pony.Prelude.{◌+◌, [], ◌∷◌, ◌≡◌, refl, none, some, nat_eq}
use pony.Prelude.Int.{pos}
use pony.Prelude.Map.{lookup, insert}
use pony.Tag.{wireguard}
use pony.Env.{dev}
use pony.Wireguard.{as_ipv4, increment_ipv4, contains_ipv4}
use pony.Connection.{proto_tag, proto_token, proto_wireguard, is_mtproto, conn_ops, new_conn}
use pony.Connections
use pony.Connections.{allocate, get_last_wg_addr, max_by_key}
use pony.Sync.Operations.{add_conn}
use pony.Handlers.{of_allocation, new_proto, create_topic, announce}
use pony.Prelude.Text.{Text, codes}
use pony.Tag.{hysteria2}
use pony.Subscription.{new_subscription}
use pony.Subscriptions
use pony.Sync.Operations.{add_sub, sub_status}
use pony.Referrals.{FreshSub}
use pony.Trials.{
  Trial, validate, TrialSettings, TrialState, Draws, bad, activated, announced, add_trial_conn,
  each_proto, each_env, finish, with_sub, grant, referred, post_trial_handler,
}
use pony.Trials.Once.{trial_once}
use pony.Tests.Crates.{chrono}
use pony.Tests.Data.{network, up, now, world, fresh}

abbrev by_email : Trial
by_email = record { user = none; email = some (codes "a@b"); referred_by = none }

abbrev settings : TrialSettings
settings = record {
  network = network;
  system_refer_codes = [];
  envs = dev ∷ [];
  protos = wireguard ∷ hysteria2 ∷ [];
  trial_days = pos 3;
  bonus = pos 7;
  limit_bytes = pos 1000;
}

abbrev same : Text → Text
same email = email

abbrev draws : Draws
draws n = record fresh { id = 50 + n }

abbrev trial_fresh : FreshSub
trial_fresh = record { id = 40; code = codes "t" }

abbrev before : TrialState
before = record { world = world; trials = [] }

abbrev after : TrialState
after = (post_trial_handler up now settings chrono same trial_fresh draws by_email before).0

trial_activated :
    (post_trial_handler up now settings chrono same trial_fresh draws by_email before).1
    ≡ activated 40
unfolding post_trial_handler validate referred grant add_sub Subscriptions.add sub_status with_sub
    each_env each_proto new_proto of_allocation allocate get_last_wg_addr max_by_key proto_tag
    proto_wireguard as_ipv4 increment_ipv4 contains_ipv4 add_trial_conn add_conn Connections.add
    lookup insert new_conn announced finish new_subscription announce create_topic proto_token
    is_mtproto
trial_activated = refl

trial_once_example :
    post_trial_handler up 2000 settings chrono same trial_fresh draws by_email after ≡ (after, bad)
trial_once_example =
    trial_once up now settings chrono same trial_fresh draws by_email by_email (codes "a@b") before
      40 up 2000 trial_fresh draws trial_activated refl refl refl
