-- ===== src/Wireguard/Network.antt =====
-- What a network contains, and its last address.
use Prim.Native.Nat.{bit_and}
use pony.Prelude.{
  ℕ, zero, suc, ◌+◌, ◌-◌, ◌*◌, ◌/◌, ◌^◌, ◌≤◌, ◌<◌, ◌≡◌, refl, ap, sym, ◌∙◌, ◌↔◌, Bool, true, ◌&&◌,
  some, arith, leb, nat_eqb, nat_eqb_iff, if◌then◌else◌,
}
use native.Mathlib.Decide.{dec_lt}
use native.Mathlib.Nat.{
  mul-div_cancel, div-eq_of_lt-le, lt-div-mul-add, div-lt_iff_lt-mul, mul-le-mul_right,
}
use pony.Prelude.Bits.{bit_and-prefix, bit_or-suffix, pow-pos}
use pony.Wireguard.{v4, mask_v4, shr_u32, u32_max, first_peer_ip, contains_ipv4, broadcast}

-- A property of every prefix length up to a bound, by evaluation.
up_to : (ℕ → Bool) → ℕ → Bool
up_to holds zero = holds zero
up_to holds (suc bound) = up_to holds bound && holds (suc bound)

of_up_to : (holds : ℕ → Bool) (bound c : ℕ) → c ≤ bound → up_to holds bound ≡ true → holds c ≡ true
unfolding up_to
of_up_to holds zero zero h table = table
of_up_to holds zero (suc c) h table = absurd (omega arith)
of_up_to holds (suc bound) c h table = elim (dec_lt c (suc bound)) [
  | yes below ↦ of_up_to holds bound c (omega arith) (ground arith)
  | no top ↦ rw (top_of c bound h top) (ground arith)
]
  where
    top_of : (c bound : ℕ) → c ≤ suc bound → (c < suc bound → ⊥) → c ≡ suc bound
    top_of c bound h top = omega arith

mask_table : up_to (λ c. nat_eqb (mask_v4 c) (2 ^ 32 - 2 ^ (32 - c))) 32 ≡ true
unfolding up_to
mask_table = refl

-- The mask of a valid prefix length has its leading bits set, and no other.
mask_v4_lem : (c : ℕ) → c ≤ 32 → mask_v4 c ≡ 2 ^ 32 - 2 ^ (32 - c)
mask_v4_lem c h =
    (nat_eqb_iff _ _).0
      (of_up_to (λ c. nat_eqb (mask_v4 c) (2 ^ 32 - 2 ^ (32 - c))) 32 c h mask_table)

bit_and-prefix_of_eq :
    (w c k x : ℕ) → w ≡ c + k → x < 2 ^ w → bit_and x (2 ^ w - 2 ^ k) ≡ x / 2 ^ k * 2 ^ k
bit_and-prefix_of_eq w c k x e lt = rw e (bit_and-prefix k c x (rw e at lt))

masked : (c x : ℕ) → c ≤ 32 → x < 2 ^ 32 → bit_and x (mask_v4 c) ≡ x / 2 ^ (32 - c) * 2 ^ (32 - c)
masked c x h lt = rw (mask_v4_lem c h) (bit_and-prefix_of_eq 32 c (32 - c) x (omega arith) lt)

eq_of_mul-eq : (a b k : ℕ) → 0 < k → a * k ≡ b * k → a ≡ b
eq_of_mul-eq a b k h e = sym (mul-div_cancel a h) ∙ ap (λ (t : ℕ). t / k) e ∙ mul-div_cancel b h

hosts : ℕ → ℕ
hosts c = if leb 32 c then 0 else shr_u32 u32_max c

hosts_table : up_to (λ c. nat_eqb (hosts c) (2 ^ (32 - c) - 1)) 32 ≡ true
unfolding up_to hosts
hosts_table = refl

hosts_lem : (c : ℕ) → c ≤ 32 → (if leb 32 c then 0 else shr_u32 u32_max c) ≡ 2 ^ (32 - c) - 1
unfolding hosts
hosts_lem c h = (nat_eqb_iff _ _).0 (of_up_to _ 32 c h hosts_table)

split_table : up_to (λ c. nat_eqb (2 ^ 32) (2 ^ c * 2 ^ (32 - c))) 32 ≡ true
unfolding up_to
split_table = refl

split_lem : (c : ℕ) → c ≤ 32 → 2 ^ 32 ≡ 2 ^ c * 2 ^ (32 - c)
split_lem c h =
    (nat_eqb_iff _ _).0 (of_up_to (λ c. nat_eqb (2 ^ 32) (2 ^ c * 2 ^ (32 - c))) 32 c h split_table)

div-add : (q k : ℕ) → 0 < k → (q * k + (k - 1)) / k ≡ q
div-add q k h = div-eq_of_lt-le k (omega arith) (omega arith)

block_lt : (q k n m : ℕ) → 0 < k → n * k ≡ m → q < n → q * k + (k - 1) < m
block_lt q k n m h e lt = omega (arith, mul-le-mul_right {m = suc q} {n = n} k lt)

module _ (base c : ℕ) (valid : c ≤ 32) (word : base < 2 ^ 32) where
  -- With a valid prefix length an IPv4 network contains exactly the addresses whose leading
  -- `cidr` bits are those of its own address.
  pub contains_ipv4_iff :
      (ip : ℕ)
      → ip < 2 ^ 32
      → (contains_ipv4 (record { address = v4 base; cidr = c }) ip ≡ true)
        ↔ (base / 2 ^ (32 - c) ≡ ip / 2 ^ (32 - c))
  unfolding contains_ipv4
  contains_ipv4_iff ip lt =
      rw (masked c base valid word, masked c ip valid lt)
        (
          λ h. eq_of_mul-eq _ _ (2 ^ (32 - c)) (pow-pos (32 - c)) ((nat_eqb_iff _ _).0 h),
          λ e. (nat_eqb_iff _ _).1 (ap (λ (t : ℕ). t * 2 ^ (32 - c)) e),
        )

  -- The peers of an IPv4 network start two above its address, as long as that is an address of
  -- the network; otherwise there is no first peer.
  pub first_peer_ip_iff :
      (ip : ℕ)
      → (first_peer_ip (record { address = v4 base; cidr = c }) ≡ some ip) ↔ (
          (ip ≡ base + 2) × (base + 2 < 2 ^ 32) × (base / 2 ^ (32 - c) ≡ (base + 2) / 2 ^ (32 - c)))
  unfolding first_peer_ip
  first_peer_ip_iff ip =
      ground (arith, contains_ipv4_iff (base + 1 + 1), ap (λ (t : ℕ). t / 2 ^ (32 - c)) two)
    where
      two : base + 1 + 1 ≡ base + 2
      two = omega arith

  last_of_prefix : ℕ
  last_of_prefix = base / 2 ^ (32 - c) * 2 ^ (32 - c) + (2 ^ (32 - c) - 1)

  broadcast-eq : broadcast (record { address = v4 base; cidr = c }) ≡ v4 last_of_prefix
  unfolding broadcast last_of_prefix
  broadcast-eq = ap v4 (rw (hosts_lem c valid) (bit_or-suffix (32 - c) base))

  last_of_prefix-prefix : base / 2 ^ (32 - c) ≡ last_of_prefix / 2 ^ (32 - c)
  unfolding last_of_prefix
  last_of_prefix-prefix = sym (div-add (base / 2 ^ (32 - c)) (2 ^ (32 - c)) (pow-pos (32 - c)))

  last_of_prefix-lt : last_of_prefix < 2 ^ 32
  unfolding last_of_prefix
  last_of_prefix-lt =
      block_lt (base / 2 ^ (32 - c)) (2 ^ (32 - c)) (2 ^ c) (2 ^ 32) (pow-pos (32 - c))
        (sym (split_lem c valid))
        ((div-lt_iff_lt-mul (pow-pos (32 - c))).1 (rw (← split_lem c valid) word))

  le-last_of_prefix : (ip : ℕ) → base / 2 ^ (32 - c) ≡ ip / 2 ^ (32 - c) → ip ≤ last_of_prefix
  unfolding last_of_prefix
  le-last_of_prefix ip e = rw e (omega (arith, lt-div-mul-add {a = ip} (pow-pos (32 - c))))

  -- `broadcast` of an IPv4 network with a valid prefix length is the greatest address that the
  -- network contains.
  pub broadcast-greatest :
      (ip : ℕ)
      → ip < 2 ^ 32
      → contains_ipv4 (record { address = v4 base; cidr = c }) ip ≡ true
      → (last : ℕ) × (broadcast (record { address = v4 base; cidr = c }) ≡ v4 last)
        × (contains_ipv4 (record { address = v4 base; cidr = c }) last ≡ true)
        × (ip ≤ last)
  broadcast-greatest ip lt h = (
    last_of_prefix,
    broadcast-eq,
    (contains_ipv4_iff last_of_prefix last_of_prefix-lt).1 last_of_prefix-prefix,
    le-last_of_prefix ip ((contains_ipv4_iff ip lt).0 h),
  )
