-- ===== src/Tests/Crates.antt =====
-- Concrete functions in place of the crates, and their laws.
use pony.Prelude.{
  ℕ, ◌+◌, ◌-◌, ◌*◌, ◌/◌, ◌%◌, ◌<◌, ◌≡◌, ◌≢◌, refl, ap, List, [], ◌∷◌, Option, none, some, arith,
  leb, nat_eqb, if◌then◌else◌, All, Bool-cases, inl, inr,
}
use pony.Prelude.Int.{ℤ, pos, negsuc, ◌≤ℤ◌}
use pony.Prelude.Text.{Text, Unicode, to_lowercase}
use pony.Wireguard.{IpAddr, v4, v6, AddrText}
use pony.Wireguard.Parsing.{RoundTrips}
use pony.Key.{Crypto}
use pony.Key.Bytes.{IsByte, IsBase32}
use pony.Key.Codes as Codes
use pony.Topic.{UuidText}
use pony.Topic.Routing as Routing
use pony.Subscription.{DateTime, Chrono}
use pony.Subscription.Activity as Activity

-- Letters above ASCII are left alone.
abbrev pub unicode : Unicode
unicode = record { lower = λ c. c ∷ []; upper = λ c. c ∷ [] }

-- An address and a u8 are printed as one character each.
abbrev print_ip : IpAddr → Text
print_ip (v4 n) = 4 ∷ (n + 48) ∷ []
print_ip (v6 n) = 6 ∷ (n + 48) ∷ []

abbrev parse_ip : Text → Option IpAddr
parse_ip [] = none
parse_ip (a ∷ []) = none
parse_ip (a ∷ b ∷ []) = if nat_eqb a 4 then some (v4 (b - 48)) else some (v6 (b - 48))
parse_ip (a ∷ b ∷ c ∷ s) = none

abbrev parse_u8 : Text → Option ℕ
parse_u8 [] = none
parse_u8 (n ∷ s) = some n

abbrev pub addr_text : AddrText
addr_text = record {
  print_ip = print_ip;
  parse_ip = parse_ip;
  print_u8 = λ n. n ∷ [];
  parse_u8 = parse_u8;
}

parse_ip-print_ip : (a : IpAddr) → parse_ip (print_ip a) ≡ some a
parse_ip-print_ip (v4 n) = ground arith
parse_ip-print_ip (v6 n) = ground arith

print_ip-slash : (a : IpAddr) → All (λ c. c ≢ b'/') (print_ip a)
print_ip-slash (v4 n) = ground arith
print_ip-slash (v6 n) = ground arith

pub addr_text-RoundTrips : RoundTrips addr_text
addr_text-RoundTrips = record {
  parse_ip-print_ip = parse_ip-print_ip;
  parse_u8-print_u8 = λ n h. refl;
  print_ip-slash = print_ip-slash;
}

-- Every byte is two of the letters from A to P; the HMAC is 32 zeros.
abbrev encode : List ℕ → Text
encode [] = []
encode (b ∷ bs) = (65 + b / 16 % 16) ∷ (65 + b % 16) ∷ encode bs

abbrev push : ℕ → Option (List ℕ) → Option (List ℕ)
push b none = none
push b (some bs) = some (b ∷ bs)

abbrev decode : Text → Option (List ℕ)
decode [] = some []
decode (c ∷ []) = none
decode (c ∷ d ∷ s) = push ((c - 65) * 16 + (d - 65)) (decode s)

abbrev zeros : List ℕ
zeros =
    0 ∷ 0 ∷ 0 ∷ 0 ∷ 0 ∷ 0 ∷ 0 ∷ 0 ∷ 0 ∷ 0 ∷ 0 ∷ 0 ∷ 0 ∷ 0 ∷ 0 ∷ 0 ∷ 0 ∷ 0 ∷ 0 ∷ 0 ∷ 0 ∷ 0 ∷ 0 ∷ 0
    ∷ 0 ∷ 0 ∷ 0 ∷ 0 ∷ 0 ∷ 0 ∷ 0 ∷ 0 ∷ []

abbrev pub crypto : Crypto
crypto = record { sign = λ payload secret. zeros; encode = encode; decode = decode }

zeros-IsByte : All IsByte zeros
zeros-IsByte = ground arith

encode-IsBase32 : (bytes : List ℕ) → All IsBase32 (encode bytes)
encode-IsBase32 [] = tt
encode-IsBase32 (b ∷ bs) = (inl (omega arith), (inl (omega arith), encode-IsBase32 bs))

decode-encode : (bytes : List ℕ) → All IsByte bytes → decode (encode bytes) ≡ some bytes
decode-encode [] h = refl
decode-encode (b ∷ bs) h =
    let digits : (65 + b / 16 % 16 - 65) * 16 + (65 + b % 16 - 65) ≡ b = omega arith in
    rw (digits, decode-encode bs h.1) refl

pub crypto-IsLawful : Codes.IsLawful crypto
crypto-IsLawful = record {
  length-sign = λ payload secret. refl;
  sign-IsByte = λ payload secret. zeros-IsByte;
  encode-IsBase32 = encode-IsBase32;
  decode-encode = decode-encode;
}

-- A uuid is printed as one character above ASCII.
abbrev parse_str : Text → Option ℕ
parse_str [] = none
parse_str (n ∷ s) = some (n - 200)

abbrev pub uuid_text : UuidText
uuid_text = record { to_string = λ id. (id + 200) ∷ []; parse_str = parse_str }

to_string-lower : (id : ℕ) → to_lowercase unicode ((id + 200) ∷ []) ≡ (id + 200) ∷ []
unfolding to_lowercase
to_string-lower id = ground arith

parse_str-to_string : (id : ℕ) → parse_str ((id + 200) ∷ []) ≡ some id
parse_str-to_string id = ap some (omega arith)

pub uuid_text-IsLawful : Routing.IsLawful unicode uuid_text
uuid_text-IsLawful = record {
  to_string-lower = to_string-lower;
  parse_str-to_string = parse_str-to_string;
}

-- Days of 86,400 units.
abbrev day : ℕ
day = 86400

abbrev plus_days : DateTime → ℤ → DateTime
plus_days t (pos n) = t + n * day
plus_days t (negsuc n) = t - (n + 1) * day

abbrev minus_days : ℕ → ℤ
minus_days ℕ.zero = pos 0
minus_days (ℕ.suc n) = negsuc n

abbrev num_days : DateTime → DateTime → ℤ
num_days t now = if leb now t then pos ((t - now) / day) else minus_days ((now - t) / day)

abbrev pub chrono : Chrono
chrono = record { plus_days = plus_days; num_days = num_days; timestamp = λ t. t }

lt-plus_days : (t : DateTime) (d : ℤ) → pos 1 ≤ℤ d → t < plus_days t d
lt-plus_days t (pos n) h = ground arith
lt-plus_days t (negsuc n) h = ground arith

minus_days-pos : (n : ℕ) → pos 1 ≤ℤ minus_days n → ⊥
minus_days-pos ℕ.zero h = ground arith
minus_days-pos (ℕ.suc n) h = ground arith

num_days-pos : (t now : DateTime) → pos 1 ≤ℤ num_days t now → now < t
num_days-pos t now h = elim (Bool-cases (leb now t)) [
  | inl ahead ↦ ground arith
  | inr behind ↦ absurd (minus_days-pos ((now - t) / day) (rw behind at h))
]

pub chrono-IsLawful : Activity.IsLawful chrono
chrono-IsLawful = record { lt-plus_days = lt-plus_days; num_days-pos = num_days-pos }
