-- ===== src/Utils/ByteLen.antt =====
-- byte_len n is the least number of bytes that hold n.
use bubot_co_ap.Prelude.{ℕ, zero, suc, ◌+◌, ◌*◌, ◌/◌, ◌^◌, ◌≤◌, ◌<◌, ◌≡◌, refl, ap, arith}
use native.Mathlib.Nat.{pow-suc}
use native.Mathlib.Decide.{dec_lt}
use bubot_co_ap.Utils.{bit_length, byte_len}

-- More fuel than the number changes nothing.
bit_length_fuel : (f g n : ℕ) → n ≤ f → n ≤ g → bit_length f n ≡ bit_length g n
unfolding bit_length
bit_length_fuel zero zero n p q = refl
bit_length_fuel zero (suc g) n p q = ground arith
bit_length_fuel (suc f) zero n p q = ground arith
bit_length_fuel (suc f) (suc g) n p q = ground (arith, bit_length_fuel f g (n / 2))

bit_length-half : (n : ℕ) → 0 < n → bit_length n n ≡ suc (bit_length (n / 2) (n / 2))
unfolding bit_length
bit_length-half zero h = absurd (omega arith)
bit_length-half (suc n) h = ground (arith, bit_length_fuel n (suc n / 2) (suc n / 2))

-- Eight halvings.
bit_length-byte : (n : ℕ) → 256 ≤ n → bit_length n n ≡ bit_length (n / 256) (n / 256) + 8
bit_length-byte n h =
    let e : n / 2 / 2 / 2 / 2 / 2 / 2 / 2 / 2 ≡ n / 256 = omega arith in
    omega (
      arith,
      ap (λ t. bit_length t t) e,
      bit_length-half n (omega arith),
      bit_length-half (n / 2) (omega arith),
      bit_length-half (n / 2 / 2) (omega arith),
      bit_length-half (n / 2 / 2 / 2) (omega arith),
      bit_length-half (n / 2 / 2 / 2 / 2) (omega arith),
      bit_length-half (n / 2 / 2 / 2 / 2 / 2) (omega arith),
      bit_length-half (n / 2 / 2 / 2 / 2 / 2 / 2) (omega arith),
      bit_length-half (n / 2 / 2 / 2 / 2 / 2 / 2 / 2) (omega arith),
    )

bit_length-le : (k f n : ℕ) → n < 2 ^ k → bit_length f n ≤ k
unfolding bit_length
bit_length-le zero zero n h = omega arith
bit_length-le zero (suc f) n h = ground (arith, h)
bit_length-le (suc k) zero n h = omega arith
bit_length-le (suc k) (suc f) n h = ground (arith, pow-suc 2 k, bit_length-le k f (n / 2))

pub byte_len-zero : byte_len 0 ≡ 0
unfolding byte_len
byte_len-zero = refl

pub byte_len_one : (n : ℕ) → 0 < n → n < 256 → byte_len n ≡ 1
unfolding byte_len
byte_len_one n p h = ground (arith, bit_length-half n p, bit_length-le 8 n n h)

pub byte_len_step : (n : ℕ) → 256 ≤ n → byte_len n ≡ suc (byte_len (n / 256))
unfolding byte_len
byte_len_step n h = ground (arith, bit_length-byte n h)

data Bytes (n : ℕ) : Type 0 where
  empty : n ≡ 0 → Bytes n
  single : 0 < n → n < 256 → Bytes n
  several : 256 ≤ n → Bytes n

Bytes-of : (n : ℕ) → Bytes n
Bytes-of n = elim (dec_lt 0 n) [
  | yes p ↦ elim (dec_lt n 256) [ yes h ↦ single p h | no h ↦ several (omega arith) ]
  | no p ↦ empty (omega arith)
]

byte_len_bounds_fuel :
    (f n : ℕ)
    → n ≤ f
    → (n < 256 ^ byte_len n) × (0 < n → 256 ^ byte_len n ≤ 256 * n) × (0 < n → 0 < byte_len n)
byte_len_bounds_fuel zero n h = let e : n ≡ 0 = omega arith in rw (e, byte_len-zero) (omega arith)
byte_len_bounds_fuel (suc f) n h = elim (Bytes-of n) [
  | empty e ↦ rw (e, byte_len-zero) (omega arith)
  | single p q ↦ rw (byte_len_one n p q) (omega arith)
  | several p ↦
      let (fits, least, _) = byte_len_bounds_fuel f (n / 256) (omega arith) in
      rw (byte_len_step n p)
        (omega (arith, pow-suc 256 (byte_len (n / 256)), fits, least (omega arith)))
]

-- n fits in byte_len n bytes, and in no fewer.
pub byte_len_bounds : (n : ℕ) → (n < 256 ^ byte_len n) × (0 < n → 256 ^ byte_len n ≤ 256 * n)
byte_len_bounds n =
    let (fits, least, some_byte) = byte_len_bounds_fuel n n (omega arith) in (fits, least)

pub byte_len_pos : (n : ℕ) → 0 < n → 0 < byte_len n
byte_len_pos n = (byte_len_bounds_fuel n n (omega arith)).2

-- A number below 256 ^ k takes k bytes at most.
pub byte_len-le : (k n : ℕ) → n < 256 ^ k → byte_len n ≤ k
byte_len-le zero n h = let e : n ≡ 0 = omega arith in rw (e, byte_len-zero) (omega arith)
byte_len-le (suc k) n h = elim (Bytes-of n) [
  | empty e ↦ rw (e, byte_len-zero) (omega arith)
  | single p q ↦ rw (byte_len_one n p q) (omega arith)
  | several p ↦ rw (byte_len_step n p) (omega (arith, pow-suc 256 k, byte_len-le k (n / 256)))
]
