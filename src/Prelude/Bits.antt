-- ===== src/Prelude/Bits.antt =====
-- Masks of leading and of trailing ones on machine words, for every width.
use Prim.Native.Nat.{
  ℕ, zero, suc, ◌+◌, ◌-◌, ◌*◌, ◌/◌, ◌%◌, ◌^◌, ◌≤◌, ◌<◌, min, max, bit_and, bit_or, digits,
  bit_and-bitwise, bit_or-bitwise,
}
use mathlib.Core.Path.{◌≡◌, refl, ap, ◌∙◌, ◌≡⟨◌⟩◌, ◌∎}
use native.Mathlib.Decide.{dec_lt}
use native.Mathlib.Omega.{arith}
use native.Mathlib.Nat.{pow-suc, pow-zero, div-div-eq-div-mul, add-zero, add-suc, mul_comm}

pub pow-pos : (k : ℕ) → 0 < 2 ^ k
pow-pos zero = rw (pow-zero 2) (omega arith)
pow-pos (suc k) = omega (arith, pow-suc 2 k, pow-pos k)

-- The fuel of the native operations' definition.
module _ (rest : ℕ → ℕ) (join : ℕ → ℕ → ℕ) where
  digits_spare : (n x y : ℕ) → x ≤ n → digits rest join (suc n) x y ≡ digits rest join n x y
  digits_spare n zero y h = digits_none n y
    where
      digits_none : (n y : ℕ) → digits rest join (suc n) zero y ≡ digits rest join n zero y
      digits_none zero y = refl
      digits_none (suc n) y = refl
  digits_spare zero (suc x) y h = absurd (omega arith)
  digits_spare (suc n) (suc x) y h = omega (arith, digits_spare n (suc x / 2) (y / 2) (omega arith))

  -- The number itself is fuel enough.
  digits_enough : (n x y : ℕ) → x ≤ n → digits rest join n x y ≡ digits rest join x x y
  digits_enough zero x y h = rw (zero_of x h) refl
    where
      zero_of : (x : ℕ) → x ≤ zero → x ≡ zero
      zero_of x h = omega arith
  digits_enough (suc n) x y h = elim (dec_lt n x) [
    | yes over ↦ rw (suc_of n x h over) refl
    | no under ↦ digits_spare n x y (omega arith) ∙ digits_enough n x y (omega arith)
  ]
    where
      suc_of : (n x : ℕ) → x ≤ suc n → n < x → x ≡ suc n
      suc_of n x h over = omega arith

  -- Halving leaves fuel to spare.
  digits_halved :
      (x y : ℕ)
      → digits rest join x (suc x / 2) (y / 2) ≡ digits rest join (suc x / 2) (suc x / 2) (y / 2)
  digits_halved x y = digits_enough x (suc x / 2) (y / 2) (omega arith)

-- Both operations by the last bit and the others.
pub bit_and-halves : (x y : ℕ) → bit_and x y ≡ min (x % 2) (y % 2) + 2 * bit_and (x / 2) (y / 2)
bit_and-halves zero y = omega (arith, bit_and-bitwise 0 y, bit_and-bitwise 0 (y / 2))
bit_and-halves (suc x) y = omega (
  arith,
  digits_halved (λ y. zero) min x y,
  bit_and-bitwise (suc x / 2) (y / 2),
  bit_and-bitwise (suc x) y,
)

pub bit_or-halves : (x y : ℕ) → bit_or x y ≡ max (x % 2) (y % 2) + 2 * bit_or (x / 2) (y / 2)
bit_or-halves zero y = omega (arith, bit_or-bitwise 0 y, bit_or-bitwise 0 (y / 2))
bit_or-halves (suc x) y = omega (
  arith,
  digits_halved (λ y. y) max x y,
  bit_or-bitwise (suc x / 2) (y / 2),
  bit_or-bitwise (suc x) y,
)

bit_and-double : (x m : ℕ) → bit_and x (2 * m) ≡ bit_and (x / 2) m * 2
bit_and-double x m = omega (arith, bit_and-halves x (2 * m), ap (bit_and (x / 2)) (halve m))
  where
    halve : (m : ℕ) → 2 * m / 2 ≡ m
    halve m = omega arith

bit_and-zero : (n x : ℕ) → x ≤ n → bit_and x 0 ≡ 0
bit_and-zero zero zero h = refl
bit_and-zero zero (suc x) h = absurd (omega arith)
bit_and-zero (suc n) x h = omega (arith, bit_and-halves x 0, bit_and-zero n (x / 2) (omega arith))

bit_or-zero : (n x : ℕ) → x ≤ n → bit_or x 0 ≡ x
bit_or-zero zero zero h = refl
bit_or-zero zero (suc x) h = absurd (omega arith)
bit_or-zero (suc n) x h = omega (arith, bit_or-halves x 0, bit_or-zero n (x / 2) (omega arith))

-- A word of w bits is unchanged by a mask of w ones.
bit_and-ones : (w x : ℕ) → x < 2 ^ w → bit_and x (2 ^ w - 1) ≡ x
bit_and-ones zero x h = omega (arith, bit_and-zero x x)
bit_and-ones (suc w) x h = omega (
  arith,
  pow-suc 2 w,
  pow-pos w,
  bit_and-halves x (2 ^ suc w - 1),
  bit_and-ones w (x / 2) (omega (arith, pow-suc 2 w)),
  ap (bit_and (x / 2)) (halve w),
)
  where
    halve : (w : ℕ) → (2 ^ suc w - 1) / 2 ≡ 2 ^ w - 1
    halve w = omega (arith, pow-suc 2 w, pow-pos w)

-- A mask of ones above bit k clears the k low bits.
pub bit_and-prefix :
    (k d x : ℕ) → x < 2 ^ (d + k) → bit_and x (2 ^ (d + k) - 2 ^ k) ≡ x / 2 ^ k * 2 ^ k
bit_and-prefix zero d x h = rw add-zero (omega (arith, bit_and-ones d x (rw (← add-zero d) h)))
bit_and-prefix (suc k) d x h =
    bit_and x (2 ^ (d + suc k) - 2 ^ suc k)
    ≡⟨ ap (bit_and x) (omega (arith, wide)) ⟩ bit_and x (2 * (2 ^ (d + k) - 2 ^ k))
    ≡⟨ bit_and-double x (2 ^ (d + k) - 2 ^ k) ⟩ bit_and (x / 2) (2 ^ (d + k) - 2 ^ k) * 2
    ≡⟨ ap (λ (t : ℕ). t * 2) (bit_and-prefix k d (x / 2) (omega (arith, wide))) ⟩
      x / 2 / 2 ^ k * 2 ^ k * 2
    ≡⟨ ap (λ (t : ℕ). t * 2 ^ k * 2) (div-div-eq-div-mul x 2 (2 ^ k)) ⟩ x / (2 * 2 ^ k) * 2 ^ k * 2
    ≡⟨ (rw pow-suc (rw (mul_comm (2 ^ k) 2) (omega arith))) ⟩ x / 2 ^ suc k * 2 ^ suc k ∎
  where
    wide : (2 ^ (d + suc k) ≡ 2 * 2 ^ (d + k)) × (2 ^ suc k ≡ 2 * 2 ^ k)
    wide = (rw (add-suc, pow-suc) (omega arith), rw pow-suc (omega arith))

pub bit_or-suffix : (k x : ℕ) → bit_or x (2 ^ k - 1) ≡ x / 2 ^ k * 2 ^ k + (2 ^ k - 1)
bit_or-suffix zero x = omega (arith, bit_or-zero x x)
bit_or-suffix (suc k) x = omega (
  arith,
  pow-suc 2 k,
  pow-pos k,
  bit_or-halves x (2 ^ suc k - 1),
  bit_or-suffix k (x / 2),
  ap (bit_or (x / 2)) (halve k),
  scaled,
)
  where
    halve : (w : ℕ) → (2 ^ suc w - 1) / 2 ≡ 2 ^ w - 1
    halve w = omega (arith, pow-suc 2 w, pow-pos w)

    scaled : x / 2 ^ suc k * 2 ^ suc k ≡ x / 2 / 2 ^ k * 2 ^ k * 2
    scaled = rw (pow-suc, mul_comm (2 ^ k) 2) (rw (← div-div-eq-div-mul x 2 (2 ^ k)) (omega arith))
