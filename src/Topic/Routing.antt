-- ===== src/Topic/Routing.antt =====
-- Which subscriber processes what is published on a topic.
use pony.Prelude.{ℕ, ◌≡◌, ◌≢◌, ◌⊎◌, refl, ap, ◌∙◌, ◌↔◌, true, false, ◌++◌, none, some, arith}
use pony.Prelude.Text.{Text, codes, Unicode, to_lowercase}
use pony.Env
use pony.Env.{Env, production, experimental, dev, ru, wl, custom, env_eqb_iff}
use pony.Env.Reading.{IsLower, from_str-as_str_iff, from_str-as_str_custom}
use pony.Topic.{
  Topic, auth, metrics, updates, init, UuidText, as_str, from_str, node_accepts, auth_accepts,
  node_receives, auth_receives,
}

-- A uuid is printed in lower case, and read back from that.
pub record IsLawful (u : Unicode) (t : UuidText) : Type 0 where
  pub to_string-lower : (id : ℕ) → to_lowercase u (t.to_string id) ≡ t.to_string id
  pub parse_str-to_string : (id : ℕ) → t.parse_str (t.to_string id) ≡ some id

abbrev pub IsLowerTopic : Unicode → Topic → Type 0
IsLowerTopic u auth = Unit
IsLowerTopic u metrics = Unit
IsLowerTopic u (updates env) = IsLower u env
IsLowerTopic u (init id) = Unit

to_lowercase-as_str :
    (u : Unicode) (e : Env) → IsLower u e → to_lowercase u (Env.as_str e) ≡ Env.as_str e
unfolding Env.as_str to_lowercase
to_lowercase-as_str u (custom name) h = ap (λ n. codes "custom" ++ n) h
to_lowercase-as_str u production h = refl
to_lowercase-as_str u experimental h = refl
to_lowercase-as_str u dev h = refl
to_lowercase-as_str u ru h = refl
to_lowercase-as_str u wl h = refl

module _ (u : Unicode) (t : UuidText) where
  from_str-updates :
      (s : Text)
      → from_str u t (codes "updates-" ++ s)
        ≡ elim (Env.from_str u (to_lowercase u s)) [ some env ↦ some (updates env) | none ↦ none ]
  unfolding from_str to_lowercase
  from_str-updates s = refl

  from_str-init :
      (s : Text)
      → from_str u t (codes "init-" ++ s)
        ≡ elim (t.parse_str (to_lowercase u s)) [ some id ↦ some (init id) | none ↦ none ]
  unfolding from_str to_lowercase
  from_str-init s = refl

  from_str-as_str_updates :
      (e : Env) → IsLower u e → from_str u t (as_str t (updates e)) ≡ some (updates e)
  unfolding as_str
  from_str-as_str_updates e h =
      from_str-updates (Env.as_str e)
      ∙ rw (to_lowercase-as_str u e h, (from_str-as_str_iff u e).1 h) refl

  from_str-as_str_init :
      IsLawful u t → (id : ℕ) → from_str u t (as_str t (init id)) ≡ some (init id)
  unfolding as_str
  from_str-as_str_init law id =
      from_str-init (t.to_string id) ∙ rw (law.to_string-lower id, law.parse_str-to_string id) refl

  -- A topic is read back from its own text when the environment in it is in lower case, and the
  -- uuid's text form is lawful.
  pub from_str-as_str :
      IsLawful u t
      → (topic : Topic) → IsLowerTopic u topic
      → from_str u t (as_str t topic) ≡ some topic
  unfolding from_str as_str to_lowercase
  from_str-as_str law auth h = refl
  from_str-as_str law metrics h = refl
  from_str-as_str law (updates e) h = from_str-as_str_updates e h
  from_str-as_str law (init id) h = from_str-as_str_init law id

  node_accepts_iff :
      (id : ℕ) (env : Env) (topic : Topic)
      → (node_accepts id env topic ≡ true) ↔ ((topic ≡ updates env) ⊎ (topic ≡ init id))
  unfolding node_accepts
  node_accepts_iff id env auth = ground arith
  node_accepts_iff id env metrics = ground arith
  node_accepts_iff id env (updates e) = ground (arith, env_eqb_iff e env)
  node_accepts_iff id env (init j) = ground arith

  auth_accepts_iff :
      (id : ℕ) (topic : Topic)
      → (auth_accepts id topic ≡ true) ↔ ((topic ≡ auth) ⊎ (topic ≡ init id))
  unfolding auth_accepts
  auth_accepts_iff id auth = ground arith
  auth_accepts_iff id metrics = ground arith
  auth_accepts_iff id (updates e) = ground arith
  auth_accepts_iff id (init j) = ground arith

  -- Of the messages published on a topic in lower case, a node processes exactly those on the
  -- updates of its own environment and on its own init topic, and the authentication service
  -- exactly those on the auth topic and on its own init topic.
  pub receives_iff :
      IsLawful u t
      → (id : ℕ) (env : Env) (topic : Topic) → IsLowerTopic u topic
      → ((node_receives u t id env (as_str t topic) ≡ true)
          ↔ ((topic ≡ updates env) ⊎ (topic ≡ init id)))
        × ((auth_receives u t id (as_str t topic) ≡ true) ↔ ((topic ≡ auth) ⊎ (topic ≡ init id)))
  unfolding node_receives auth_receives
  receives_iff law id env topic h =
      rw (from_str-as_str law topic h, node_receives, auth_receives)
        (node_accepts_iff id env topic, auth_accepts_iff id topic)

  to_lowercase-as_str_custom :
      (name : Text)
      → to_lowercase u (Env.as_str (custom name)) ≡ Env.as_str (custom (to_lowercase u name))
  unfolding Env.as_str to_lowercase
  to_lowercase-as_str_custom name = refl

  read_custom :
      (name : Text)
      → to_lowercase u (to_lowercase u name) ≡ to_lowercase u name
      → from_str u t (as_str t (updates (custom name)))
        ≡ some (updates (custom (to_lowercase u name)))
  unfolding as_str
  read_custom name twice =
      from_str-updates (Env.as_str (custom name))
      ∙ rw (to_lowercase-as_str_custom name, from_str-as_str_custom u (to_lowercase u name), twice)
          refl

  -- A node of a custom environment whose name is not in lower case processes no update of its own
  -- environment, when lowering a lowered name changes nothing.
  pub node_receives-custom_upper :
      (id : ℕ) (name : Text)
      → to_lowercase u name ≢ name
      → to_lowercase u (to_lowercase u name) ≡ to_lowercase u name
      → node_receives u t id (custom name) (as_str t (updates (custom name))) ≡ false
  unfolding node_receives
  node_receives-custom_upper id name ne twice =
      rw (read_custom name twice, node_receives)
        (ground (arith, env_eqb_iff (custom (to_lowercase u name)) (custom name)))
