-- ===== src/Prelude/Map.antt =====
-- `std::collections::HashMap` as an association list. The order of the entries is the order of
-- insertion here and arbitrary in the program.
use mathlib.Core.Path.{◌≡◌, refl, sym}
use mathlib.Core.Bool.{Bool, true, false}
use mathlib.Core.Option.{Option, none, some}
use mathlib.Core.List.{List, [], ◌∷◌}
use native.Mathlib.Omega.{arith}
use pony.Prelude.Tests.{PartialEq, ◌==◌, if◌then◌else◌, Bool-cases, Option-cases}
use pony.Prelude.Lists.{keep, All}
use mathlib.Core.Logic.{inl, inr}

abbrev pub Map {ℓ κ} : Type ℓ → Type κ → Type (ℓ ⊔ κ)
Map K V = List (K × V)

module _ {ℓ κ} {K : Type ℓ} {V : Type κ} ⦃e : PartialEq K⦄ where
  -- `get(&k)`
  unfoldable pub lookup : K → Map K V → Option V
  lookup k [] = none
  lookup k ((j, v) ∷ m) = if j == k then some v else lookup k m

  -- `insert(k, v)`
  unfoldable pub insert : K → V → Map K V → Map K V
  insert k v [] = (k, v) ∷ []
  insert k v ((j, w) ∷ m) = if j == k then (j, v) ∷ m else (j, w) ∷ insert k v m

  -- `remove(&k)`
  unfoldable pub remove : K → Map K V → Map K V
  remove k [] = []
  remove k ((j, w) ∷ m) = if j == k then m else (j, w) ∷ remove k m

  -- `if let Some(v) = get_mut(&k) { *v = f(v) }`
  unfoldable pub adjust : K → (V → V) → Map K V → Map K V
  adjust k f [] = []
  adjust k f ((j, w) ∷ m) = if j == k then (j, f w) ∷ m else (j, w) ∷ adjust k f m

  -- `get(&k)`, or a default
  abbrev pub get_or_default : K → V → Map K V → V
  get_or_default k d m = elim (lookup k m) [ some v ↦ v | none ↦ d ]

  -- `let v = entry(k).or_insert(d); *v = f(v)`
  unfoldable pub entry : K → V → (V → V) → Map K V → Map K V
  entry k d f m = insert k (f (get_or_default k d m)) m

  -- `retain`, whose test may change the value: `none` drops the entry.
  unfoldable pub retain : (V → Option V) → Map K V → Map K V
  retain f [] = []
  retain f ((k, v) ∷ m) =
      let rest = retain f m in elim (f v) [ some w ↦ (k, w) ∷ rest | none ↦ rest ]

  -- No key stands twice.
  abbrev pub HasUniqueKeys : Map K V → Type κ
  HasUniqueKeys [] = Unit
  HasUniqueKeys ((k, v) ∷ m) = (lookup k m ≡ none) × HasUniqueKeys m

  pub lookup-insert :
      (k j : K) (v : V) (m : Map K V)
      → lookup j (insert k v m) ≡ (if k == j then some v else lookup j m)
  unfolding lookup insert
  lookup-insert k j v [] = ground (arith, e.eqb_iff k j)
  lookup-insert k j v ((i, w) ∷ m) =
      ground (arith, e.eqb_iff k j, e.eqb_iff i k, e.eqb_iff i j, lookup-insert k j v m)

  pub lookup-adjust_self :
      (k : K) (f : V → V) (m : Map K V) (v : V)
      → lookup k m ≡ some v
      → lookup k (adjust k f m) ≡ some (f v)
  unfolding lookup adjust
  lookup-adjust_self k f [] v h = ground arith
  lookup-adjust_self k f ((i, w) ∷ m) v h =
      ground (arith, e.eqb_iff i k, lookup-adjust_self k f m v)

  pub lookup-adjust_ne :
      (k j : K) (f : V → V) (m : Map K V) → (k == j) ≡ false → lookup j (adjust k f m) ≡ lookup j m
  unfolding lookup adjust
  lookup-adjust_ne k j f [] h = refl
  lookup-adjust_ne k j f ((i, w) ∷ m) h =
      ground (arith, e.eqb_iff k j, e.eqb_iff i k, e.eqb_iff i j, lookup-adjust_ne k j f m h)

  pub lookup-adjust-none :
      (k j : K) (f : V → V) (m : Map K V) → lookup j m ≡ none → lookup j (adjust k f m) ≡ none
  unfolding lookup adjust
  lookup-adjust-none k j f [] h = refl
  lookup-adjust-none k j f ((i, w) ∷ m) h = ground (arith, lookup-adjust-none k j f m)

  pub lookup-remove_ne :
      (k j : K) (m : Map K V) → (k == j) ≡ false → lookup j (remove k m) ≡ lookup j m
  unfolding lookup remove
  lookup-remove_ne k j [] h = refl
  lookup-remove_ne k j ((i, w) ∷ m) h =
      ground (arith, e.eqb_iff k j, e.eqb_iff i k, e.eqb_iff i j, lookup-remove_ne k j m h)

  pub lookup-remove-none :
      (k j : K) (m : Map K V) → lookup j m ≡ none → lookup j (remove k m) ≡ none
  unfolding lookup remove
  lookup-remove-none k j [] h = refl
  lookup-remove-none k j ((i, w) ∷ m) h = ground (arith, lookup-remove-none k j m)

  pub lookup-remove_self : (k : K) (m : Map K V) → HasUniqueKeys m → lookup k (remove k m) ≡ none
  unfolding lookup remove
  lookup-remove_self k [] h = refl
  lookup-remove_self k ((i, w) ∷ m) h = ground (arith, e.eqb_iff i k, lookup-remove_self k m h.1)

  pub insert-HasUniqueKeys :
      (k : K) (v : V) (m : Map K V) → HasUniqueKeys m → HasUniqueKeys (insert k v m)
  unfolding lookup insert
  insert-HasUniqueKeys k v [] h = (refl, tt)
  insert-HasUniqueKeys k v ((i, w) ∷ m) h =
      ground
        (arith, e.eqb_iff i k, e.eqb_iff k i, lookup-insert k i v m, insert-HasUniqueKeys k v m h.1)

  pub remove-HasUniqueKeys : (k : K) (m : Map K V) → HasUniqueKeys m → HasUniqueKeys (remove k m)
  unfolding lookup remove
  remove-HasUniqueKeys k [] h = tt
  remove-HasUniqueKeys k ((i, w) ∷ m) h =
      ground (arith, lookup-remove-none k i m, remove-HasUniqueKeys k m h.1)

  pub adjust-HasUniqueKeys :
      (k : K) (f : V → V) (m : Map K V) → HasUniqueKeys m → HasUniqueKeys (adjust k f m)
  unfolding lookup adjust
  adjust-HasUniqueKeys k f [] h = tt
  adjust-HasUniqueKeys k f ((i, w) ∷ m) h =
      ground (arith, lookup-adjust-none k i f m, adjust-HasUniqueKeys k f m h.1)

  pub lookup-keep :
      (k : K) (v : V) (p : K × V → Bool) (m : Map K V)
      → lookup k m ≡ some v
      → p (k, v) ≡ true
      → lookup k (keep p m) ≡ some v
  unfolding lookup
  lookup-keep k v p [] h q = h
  lookup-keep k v p ((j, w) ∷ m) h q = elim (Bool-cases (j == k)) [
    | inl here ↦ ground (arith, e.eqb_iff j k)
    | inr there ↦ ground (arith, lookup-keep k v p m)
  ]

  pub lookup-entry :
      (k j : K) (d : V) (f : V → V) (m : Map K V)
      → lookup j (entry k d f m) ≡ (if k == j then some (f (get_or_default k d m)) else lookup j m)
  unfolding entry
  lookup-entry k j d f m = lookup-insert k j (f (get_or_default k d m)) m

  -- What holds of every stored value holds after an insertion of such a value, and of what is
  -- looked up.
  pub insert-All {μ} :
      (P : V → Type μ) (k : K) (v : V) (m : Map K V)
      → P v
      → All (λ e. P e.1) m
      → All (λ e. P e.1) (insert k v m)
  unfolding insert
  insert-All P k v [] h a = (h, tt)
  insert-All P k v ((j, w) ∷ m) h a = elim (Bool-cases (j == k)) [
    | inl here ↦ rw here (h, a.1)
    | inr there ↦ rw there (a.0, insert-All P k v m h a.1)
  ]

  pub get_or_default-All {μ} :
      (P : V → Type μ) (k : K) (d : V) (m : Map K V)
      → P d
      → All (λ e. P e.1) m
      → P (get_or_default k d m)
  unfolding lookup
  get_or_default-All P k d [] h a = h
  get_or_default-All P k d ((j, w) ∷ m) h a = elim (Bool-cases (j == k)) [
    | inl here ↦ rw (get_or_default, lookup, here) a.0
    | inr there ↦ rw (get_or_default, lookup, there) (get_or_default-All P k d m h a.1)
  ]

  pub retain-All {μ ν} :
      (P : K × V → Type μ) (Q : K × V → Type ν) (f : V → Option V)
      → ((k : K) (v w : V) → P (k, v) → f v ≡ some w → Q (k, w))
      → (m : Map K V) → All P m
      → All Q (retain f m)
  unfolding retain
  retain-All P Q f step [] a = tt
  retain-All P Q f step ((k, v) ∷ m) a = elim (Option-cases (f v)) [
    | inl gone ↦ rw (retain, gone) (retain-All P Q f step m a.1)
    | inr (w, kept) ↦ rw (retain, kept) (step k v w a.0 kept, retain-All P Q f step m a.1)
  ]

  pub get_or_default-entry :
      (k j : K) (d : V) (f : V → V) (m : Map K V)
      → get_or_default j d (entry k d f m)
        ≡ (if k == j then f (get_or_default k d m) else get_or_default j d m)
  get_or_default-entry k j d f m = elim (Bool-cases (k == j)) [
    | inl same ↦ rw (get_or_default, lookup-entry k j d f m, same) refl
    | inr other ↦ rw (get_or_default, lookup-entry k j d f m, other) refl
  ]

  pub lookup-retain :
      (k : K) (v w : V) (f : V → Option V) (m : Map K V)
      → lookup k m ≡ some v
      → f v ≡ some w
      → lookup k (retain f m) ≡ some w
  unfolding lookup retain
  lookup-retain k v w f [] h g = ground arith
  lookup-retain k v w f ((j, u) ∷ m) h g = elim (Bool-cases (j == k)) [
    | inl here ↦ ground (arith, e.eqb_iff j k)
    | inr there ↦ ground (arith, lookup-retain k v w f m)
  ]

  -- What holds of every entry holds after the insertion of such an entry.
  pub insert-All_entries {μ} :
      (P : K × V → Type μ) (k : K) (v : V) (m : Map K V) → P (k, v) → All P m → All P (insert k v m)
  unfolding insert
  insert-All_entries P k v [] h a = (h, tt)
  insert-All_entries P k v ((j, w) ∷ m) h a = elim (Bool-cases (j == k)) [
    | inl here ↦ let same : j ≡ k = (e.eqb_iff j k).0 here in rw (here, same) (h, a.1)
    | inr there ↦ rw there (a.0, insert-All_entries P k v m h a.1)
  ]

  pub lookup-All {μ} :
      (P : K × V → Type μ) (k : K) (v : V) (m : Map K V) → lookup k m ≡ some v → All P m → P (k, v)
  unfolding lookup
  lookup-All P k v [] h a = ground arith
  lookup-All P k v ((j, w) ∷ m) h a = elim (Bool-cases (j == k)) [
    | inl here ↦
        let same : j ≡ k = (e.eqb_iff j k).0 here in
        let value : w ≡ v = ground (arith, here, h) in rw (sym same, sym value) a.0
    | inr there ↦ lookup-All P k v m (ground (arith, there, h)) a.1
  ]

  pub get_or_default-some :
      (k : K) (d v : V) (m : Map K V) → lookup k m ≡ some v → get_or_default k d m ≡ v
  get_or_default-some k d v m h = rw (get_or_default, h) refl

  pub get_or_default-none :
      (k : K) (d : V) (m : Map K V) → lookup k m ≡ none → get_or_default k d m ≡ d
  get_or_default-none k d m h = rw (get_or_default, h) refl

  pub get_or_default-insert :
      (k j : K) (d v : V) (m : Map K V)
      → get_or_default j d (insert k v m) ≡ (if k == j then v else get_or_default j d m)
  get_or_default-insert k j d v m = elim (Bool-cases (k == j)) [
    | inl same ↦ rw (get_or_default, lookup-insert k j v m, same) refl
    | inr other ↦ rw (get_or_default, lookup-insert k j v m, other) refl
  ]

  behind :
      (j k : K) (w v : V) (m : Map K V)
      → lookup j m ≡ none
      → lookup k m ≡ some v
      → lookup k ((j, w) ∷ m) ≡ some v
  unfolding lookup
  behind j k w v m free found = elim (Bool-cases (j == k)) [
    | inr other ↦ rw other found
    | inl same ↦
        let key : j ≡ k = (e.eqb_iff j k).0 same in
        let bad : lookup j m ≡ some v = rw key found in absurd (ground (arith, free, bad))
  ]

  -- Where no key stands twice, what holds of everything that is looked up holds of every entry.
  pub All-lookup {μ} :
      (P : K × V → Type μ) (m : Map K V)
      → HasUniqueKeys m
      → ((k : K) (v : V) → lookup k m ≡ some v → P (k, v))
      → All P m
  unfolding lookup
  All-lookup P [] u h = tt
  All-lookup P ((j, w) ∷ m) u h = (
    h j w (rw ((e.eqb_iff j j).1 refl) refl),
    All-lookup P m u.1 (λ k v found. h k v (behind j k w v m u.0 found)),
  )
