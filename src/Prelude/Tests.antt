-- ===== src/Prelude/Tests.antt =====
-- Boolean tests on native numbers, the conditional, and equality tests as an interface.
use Prim.Native.Nat.{ℕ, ◌≤◌, compare, Ordering}
use mathlib.Core.Path.{◌≡◌, refl}
use mathlib.Core.Logic.{◌↔◌, ◌⊎◌, inl, inr}
use mathlib.Core.Bool.{Bool, true, false, ◌&&◌}
use mathlib.Core.Option.{Option, none, some}
use mathlib.Core.List.{List, [], ◌∷◌}
use native.Mathlib.Omega.{arith}

abbrev pub ltb : ℕ → ℕ → Bool
ltb a b = elim (compare a b) [ Ordering.lt ↦ true | _ ↦ false ]

abbrev pub leb : ℕ → ℕ → Bool
leb a b = elim (compare a b) [ Ordering.gt ↦ false | _ ↦ true ]

abbrev pub nat_eqb : ℕ → ℕ → Bool
nat_eqb a b = elim (compare a b) [ Ordering.eq ↦ true | _ ↦ false ]

infix 1 if◌then◌else◌
abbrev pub if◌then◌else◌ {ℓ} : {A : Type ℓ} → Bool → A → A → A
if true then x else y = x
if false then x else y = y

pub leb→le : (a b : ℕ) → leb a b ≡ true → a ≤ b
leb→le a b h = ground arith

pub le→leb : (a b : ℕ) → a ≤ b → leb a b ≡ true
le→leb a b h = ground arith

pub nat_eqb_iff : (a b : ℕ) → (nat_eqb a b ≡ true) ↔ (a ≡ b)
nat_eqb_iff a b = ground arith

pub Bool-cases : (b : Bool) → (b ≡ true) ⊎ (b ≡ false)
Bool-cases true = inl refl
Bool-cases false = inr refl

pub Option-cases {ℓ} : {A : Type ℓ} (o : Option A) → (o ≡ none) ⊎ ((a : A) × (o ≡ some a))
Option-cases none = inl refl
Option-cases (some a) = inr (a, refl)

-- `PartialEq`: a test that decides equality.
pub record PartialEq {ℓ} (A : Type ℓ) : Type ℓ where
  pub eqb : A → A → Bool
  pub eqb_iff : (a b : A) → (eqb a b ≡ true) ↔ (a ≡ b)

infix 50 ◌==◌
abbrev pub ◌==◌ {ℓ} : {A : Type ℓ} ⦃e : PartialEq A⦄ → A → A → Bool
◌==◌ ⦃e⦄ = e.eqb

instance abbrev pub nat_eq : PartialEq ℕ
nat_eq = record { eqb = nat_eqb; eqb_iff = nat_eqb_iff }

pub ==_refl {ℓ} : {A : Type ℓ} ⦃e : PartialEq A⦄ (a : A) → (a == a) ≡ true
==_refl ⦃e⦄ a = (e.eqb_iff a a).1 refl

-- `==` on `Option`.
abbrev pub option_eqb {ℓ} : {A : Type ℓ} ⦃e : PartialEq A⦄ → Option A → Option A → Bool
option_eqb none none = true
option_eqb none (some b) = false
option_eqb (some a) none = false
option_eqb (some a) (some b) = a == b

pub option_eqb_iff {ℓ} :
    {A : Type ℓ} ⦃e : PartialEq A⦄ (a b : Option A) → (option_eqb a b ≡ true) ↔ (a ≡ b)
option_eqb_iff none none = ground arith
option_eqb_iff none (some b) = ground arith
option_eqb_iff (some a) none = ground arith
option_eqb_iff ⦃e⦄ (some a) (some b) = ground (arith, e.eqb_iff a b)

instance abbrev pub option_eq {ℓ} : {A : Type ℓ} ⦃e : PartialEq A⦄ → PartialEq (Option A)
option_eq ⦃e⦄ = record { eqb = option_eqb ⦃e = e⦄; eqb_iff = option_eqb_iff ⦃e = e⦄ }

-- `==` on sequences.
abbrev pub list_eqb {ℓ} : {A : Type ℓ} ⦃e : PartialEq A⦄ → List A → List A → Bool
list_eqb [] [] = true
list_eqb [] (y ∷ ys) = false
list_eqb (x ∷ xs) [] = false
list_eqb (x ∷ xs) (y ∷ ys) = x == y && list_eqb xs ys

pub list_eqb_iff {ℓ} :
    {A : Type ℓ} ⦃e : PartialEq A⦄ (a b : List A) → (list_eqb a b ≡ true) ↔ (a ≡ b)
list_eqb_iff [] [] = ground arith
list_eqb_iff [] (y ∷ ys) = ground arith
list_eqb_iff (x ∷ xs) [] = ground arith
list_eqb_iff ⦃e⦄ (x ∷ xs) (y ∷ ys) = ground (arith, e.eqb_iff x y, list_eqb_iff xs ys)

instance abbrev pub list_eq {ℓ} : {A : Type ℓ} ⦃e : PartialEq A⦄ → PartialEq (List A)
list_eq ⦃e⦄ = record { eqb = list_eqb ⦃e = e⦄; eqb_iff = list_eqb_iff ⦃e = e⦄ }
