-- ===== src/Trials/Once.antt =====
-- An address gets one trial.
use pony.Prelude.{
  ◌≡◌, refl, Bool, true, false, Option, none, some, arith, nat_eq, list_eq, if◌then◌else◌,
  Bool-cases, Option-cases, inl, inr, ==_refl,
}
use pony.Prelude.Int.{pos}
use pony.Prelude.Map.{Map, lookup, lookup-insert}
use pony.Prelude.Text.{Text}
use pony.Subscription.{Uuid, DateTime, Chrono}
use pony.Connections.{Status, ok}
use pony.Subscriptions.{find_by_refer_code}
use pony.Sync.World.{World, Outside, SyncResult, done, error}
use pony.Sync.Operations.{add_sub, add_days}
use pony.Referrals.{FreshSub, is_system}
use pony.Trials.{
  Trial, validate, TrialState, TrialReply, rejected, bad, activated, TrialSettings, Draws,
  check_email_hmac, save_trial_hmac, saved, trial_sub, finish, with_sub, each_env, grant, rewarded,
  referred, post_trial_handler,
}

module _ (settings : TrialSettings) (chrono : Chrono) (hmac_email : Text → Text) where
  refused_again :
      (o : Outside) (now : DateTime) (fresh : FreshSub) (draws : Draws) (req : Trial) (email : Text)
      (st : TrialState) (time : DateTime)
      → lookup (hmac_email email) st.trials ≡ some time
      → req.email ≡ some email
      → req.user ≡ none
      → post_trial_handler o now settings chrono hmac_email fresh draws req st ≡ (st, bad)
  unfolding post_trial_handler validate
  refused_again o now fresh draws req email st time known e u =
      rw (post_trial_handler, validate, u, e, check_email_hmac, known) refl

module _ (o : Outside) (now : DateTime) (settings : TrialSettings) (chrono : Chrono)
    (hmac_email : Text → Text) (fresh : FreshSub) (draws : Draws) where
  -- A step of the handler, in its result: an activation has saved the addresses.
  abbrev Saves : Trial → Map Text DateTime → TrialState × TrialReply → Type 0
  Saves req trials r =
      (id : Uuid)
      → r.1 ≡ activated id
      → r.0.trials ≡ saved o now settings chrono hmac_email fresh draws req trials

  finish_lem :
      (req : Trial) (trials : Map Text DateTime) (r : World × Bool)
      → Saves req trials (finish o now settings chrono hmac_email fresh draws req trials r)
  unfolding finish
  finish_lem req trials (w, true) id h = refl
  finish_lem req trials (w, false) id h = ground (arith, h)

  with_sub_lem :
      (req : Trial) (trials : Map Text DateTime) (w : World) (r : SyncResult Status)
      → Saves req trials (with_sub o now settings chrono hmac_email fresh draws req trials w r)
  unfolding with_sub
  with_sub_lem req trials w (done (ok sub_id)) =
      finish_lem req trials (each_env o now settings sub_id draws 0 settings.envs w)
  with_sub_lem req trials w (done _) = λ id h. ground (arith, h)
  with_sub_lem req trials w (error e) = λ id h. ground (arith, h)

  grant_lem :
      (req : Trial) (st : TrialState)
      → Saves req st.trials (grant o now settings chrono hmac_email fresh draws req st)
  unfolding grant
  grant_lem req st =
      let r : World × SyncResult Status =
        add_sub o now (trial_sub o now settings chrono hmac_email fresh draws req) st.world in
      with_sub_lem req st.trials r.0 r.1

  rewarded_lem :
      (req : Trial) (st : TrialState) (r : World × SyncResult Status)
      → Saves req st.trials (rewarded o now settings chrono hmac_email fresh draws req st r)
  unfolding rewarded
  rewarded_lem req st (w, error e) id h = ground (arith, h)
  rewarded_lem req st (w, done status) id h = grant_lem req (record st { world = w }) id h

  referred_lem :
      (req : Trial) (st : TrialState) (code : Option Text)
      → Saves req st.trials (referred o now settings chrono hmac_email fresh draws req st code)
  unfolding referred
  referred_lem req st none id h = grant_lem req st id h
  referred_lem req st (some code) id h =
      elim (Option-cases (find_by_refer_code code st.world.cache.subscriptions)) [
        | inl unknown ↦
            let refused : bad ≡ activated id = rw (referred, unknown) at h in
            absurd (ground (arith, refused))
        | inr (sub, known) ↦
            rw (referred, known)
              (rewarded_lem req st
                (add_days o now chrono sub.id
                  (if is_system settings.system_refer_codes code then pos 0 else settings.bonus)
                  st.world)
                id (rw (referred, known) at h))
      ]

  -- An activated trial has saved the addresses of its request.
  post_trial_handler-Saves :
      (req : Trial) (st : TrialState)
      → Saves req st.trials (post_trial_handler o now settings chrono hmac_email fresh draws req st)
  unfolding post_trial_handler
  post_trial_handler-Saves req st id h = elim (Bool-cases (validate req)) [
    | inr invalid ↦
        let refused : rejected ≡ activated id = rw (post_trial_handler, invalid) at h in
        absurd (ground (arith, refused))
    | inl valid ↦ elim (Bool-cases (check_email_hmac hmac_email req.user st)) [
      | inl user_known ↦
          let refused : bad ≡ activated id = rw (post_trial_handler, valid, user_known) at h in
          absurd (ground (arith, refused))
      | inr user_new ↦ elim (Bool-cases (check_email_hmac hmac_email req.email st)) [
        | inl email_known ↦
            let refused : bad ≡ activated id =
              rw (post_trial_handler, valid, user_new, email_known) at h in
            absurd (ground (arith, refused))
        | inr email_new ↦
            rw (post_trial_handler, valid, user_new, email_new)
              (referred_lem req st req.referred_by id
                (rw (post_trial_handler, valid, user_new, email_new) at h))
      ]
    ]
  ]

  saved-email :
      (req : Trial) (email : Text) (trials : Map Text DateTime)
      → req.email ≡ some email
      → lookup (hmac_email email) (saved o now settings chrono hmac_email fresh draws req trials)
        ≡ some now
  saved-email req email trials e =
      rw (saved, e, save_trial_hmac)
        (rw
          (
            lookup-insert (hmac_email email) (hmac_email email) now
                (save_trial_hmac hmac_email now req.user trials),
            ==_refl (hmac_email email),
          )
          refl)

  -- After an activation for an email address, a request with the same address is refused and
  -- changes nothing, whoever refers it, whatever is drawn, and whatever the database and the bus
  -- reply to it.
  pub trial_once :
      (req again : Trial) (email : Text) (st : TrialState) (id : Uuid) (o' : Outside)
      (later : DateTime) (fresh' : FreshSub) (draws' : Draws)
      → (post_trial_handler o now settings chrono hmac_email fresh draws req st).1 ≡ activated id
      → req.email ≡ some email
      → again.email ≡ some email
      → again.user ≡ none
      → post_trial_handler o' later settings chrono hmac_email fresh' draws' again
          (post_trial_handler o now settings chrono hmac_email fresh draws req st).0
        ≡ ((post_trial_handler o now settings chrono hmac_email fresh draws req st).0, bad)
  unfolding post_trial_handler validate
  trial_once req again email st id o' later fresh' draws' h e e' u =
      let after : TrialState =
        (post_trial_handler o now settings chrono hmac_email fresh draws req st).0 in
      let known : lookup (hmac_email email) after.trials ≡ some now =
        rw (post_trial_handler-Saves req st id h) (saved-email req email st.trials e) in
      refused_again settings chrono hmac_email o' later fresh' draws' again email after now known e'
        u
