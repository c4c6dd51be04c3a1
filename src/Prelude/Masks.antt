-- ===== src/Prelude/Masks.antt =====
-- `&` and `|` at variables: the law for the lowest digit, from the definition that the native
-- operation stands for, and with it masks and joins of fields whose positions are numerals.
use Prim.Native.Nat.{
  ℕ, zero, suc, ◌+◌, ◌-◌, ◌*◌, ◌/◌, ◌%◌, ◌≤◌, ◌<◌, min, max, bit_and, bit_or, digits,
  bit_and-bitwise, bit_or-bitwise,
}
use mathlib.Core.Path.{◌≡◌, refl, sym, ap}
use native.Mathlib.Omega.{arith}
use native.Mathlib.Decide.{dec_lt}

-- The digits of a first argument that is none too large for the fuel, whatever the fuel.
module _ (base : ℕ → ℕ) (digit : ℕ → ℕ → ℕ) where
  no_digits : (b fuel : ℕ) → digits base digit fuel 0 b ≡ base b
  no_digits b zero = refl
  no_digits b (suc fuel) = refl

  fuel_irrelevant :
      (a b fuel more : ℕ)
      → a ≤ fuel
      → digits base digit (more + fuel) a b ≡ digits base digit fuel a b
  fuel_irrelevant zero b fuel more h = rw (no_digits b (more + fuel)) (sym (no_digits b fuel))
  fuel_irrelevant (suc a) b zero more h = absurd (omega arith)
  fuel_irrelevant (suc a) b (suc fuel) more h =
      let swap : more + suc fuel ≡ suc (more + fuel) = omega arith in
      rw swap (omega (arith, fuel_irrelevant (suc a / 2) (b / 2) fuel more (omega arith)))

  lowest_digit :
      (a b : ℕ)
      → digits base digit (suc a) (suc a) b
        ≡ digits base digit (suc a / 2) (suc a / 2) (b / 2) * 2 + digit (suc a % 2) (b % 2)
  lowest_digit a b =
      let split : a - suc a / 2 + suc a / 2 ≡ a = omega arith in
      omega (
        arith,
        rw split at (fuel_irrelevant (suc a / 2) (b / 2) (suc a / 2) (a - suc a / 2) (omega arith)),
      )

and_step : (a b : ℕ) → bit_and a b ≡ bit_and (a / 2) (b / 2) * 2 + min (a % 2) (b % 2)
and_step zero b = rw (bit_and-bitwise 0 b, bit_and-bitwise (0 / 2) (b / 2)) (omega arith)
and_step (suc a) b =
    rw (bit_and-bitwise (suc a) b, bit_and-bitwise (suc a / 2) (b / 2))
      (lowest_digit (λ t. zero) min a b)

-- Nothing is left of a number that is masked by 0.
and_none : (bound a : ℕ) → a ≤ bound → bit_and a 0 ≡ 0
and_none zero a h = let e : a ≡ 0 = omega arith in rw (e, bit_and-bitwise 0 0) refl
and_none (suc bound) a h = elim (dec_lt 0 a) [
  | yes p ↦ omega (arith, and_step a 0, and_none bound (a / 2) (omega arith))
  | no p ↦ let e : a ≡ 0 = omega arith in rw (e, bit_and-bitwise 0 0) refl
]

sixteenth : (a : ℕ) → a / 2 / 2 / 2 / 2 ≡ a / 16
sixteenth a = omega arith

and_one : (a m : ℕ) → bit_and a (m * 2 + 1) ≡ bit_and (a / 2) m * 2 + a % 2
and_one a m =
    let e : (m * 2 + 1) / 2 ≡ m = omega arith in omega (arith, rw e at (and_step a (m * 2 + 1)))

and_double : (a m : ℕ) → bit_and a (m * 2) ≡ bit_and (a / 2) m * 2
and_double a m = let e : m * 2 / 2 ≡ m = omega arith in omega (arith, rw e at (and_step a (m * 2)))

-- Four digits at once, the mask's being all ones or all zeros.
ones_four :
    (a m : ℕ)
    → bit_and a ((((m * 2 + 1) * 2 + 1) * 2 + 1) * 2 + 1) ≡ bit_and (a / 16) m * 16 + a % 16
ones_four a m = omega (
  arith,
  and_one a (((m * 2 + 1) * 2 + 1) * 2 + 1),
  and_one (a / 2) ((m * 2 + 1) * 2 + 1),
  and_one (a / 2 / 2) (m * 2 + 1),
  and_one (a / 2 / 2 / 2) m,
  ap (λ t. bit_and t m) (sixteenth a),
)

zeros_four : (a m : ℕ) → bit_and a (m * 2 * 2 * 2 * 2) ≡ bit_and (a / 16) m * 16
zeros_four a m = omega (
  arith,
  and_double a (m * 2 * 2 * 2),
  and_double (a / 2) (m * 2 * 2),
  and_double (a / 2 / 2) (m * 2),
  and_double (a / 2 / 2 / 2) m,
  ap (λ t. bit_and t m) (sixteenth a),
)

low_four : (a : ℕ) → bit_and a 0xF ≡ a % 16
low_four a = omega (arith, ones_four a 0, and_none (a / 16) (a / 16) (omega arith))

pub low_eight : (a : ℕ) → bit_and a 0xFF ≡ a % 256
low_eight a = omega (arith, ones_four a 15, low_four (a / 16))

low_twelve : (a : ℕ) → bit_and a 0xFFF ≡ a % 4096
low_twelve a = omega (arith, ones_four a 255, low_eight (a / 16))

low_sixteen : (a : ℕ) → bit_and a 0xFFFF ≡ a % 65536
low_sixteen a = omega (arith, ones_four a 4095, low_twelve (a / 16))

low_twenty : (a : ℕ) → bit_and a 0xFFFFF ≡ a % 1048576
low_twenty a = omega (arith, ones_four a 65535, low_sixteen (a / 16))

-- (a & 0xF0) >> 4 and its wider forms
pub mask_block_num :
    (a : ℕ)
    → (bit_and a 0xF0 / 16 ≡ a / 16 % 16)
      × (bit_and a 0xFFF0 / 16 ≡ a / 16 % 4096)
      × (bit_and a 0xFFFFF0 / 16 ≡ a / 16 % 1048576)
mask_block_num a = omega (
  arith,
  zeros_four a 15,
  zeros_four a 4095,
  zeros_four a 1048575,
  low_four (a / 16),
  low_twelve (a / 16),
  low_twenty (a / 16),
)

-- (a & 8) >> 3 and a & 7
pub mask_block_m : (a : ℕ) → bit_and a 8 / 8 ≡ a / 8 % 2
mask_block_m a = omega (
  arith,
  and_double a 4,
  and_double (a / 2) 2,
  and_double (a / 2 / 2) 1,
  and_one (a / 2 / 2 / 2) 0,
  and_none (a / 2 / 2 / 2 / 2) (a / 2 / 2 / 2 / 2) (omega arith),
)

pub mask_block_szx : (a : ℕ) → bit_and a 7 ≡ a % 8
mask_block_szx a = omega (
  arith,
  and_one a 3,
  and_one (a / 2) 1,
  and_one (a / 2 / 2) 0,
  and_none (a / 2 / 2 / 2) (a / 2 / 2 / 2) (omega arith),
)

or_step : (a b : ℕ) → bit_or a b ≡ bit_or (a / 2) (b / 2) * 2 + max (a % 2) (b % 2)
or_step zero b = rw (bit_or-bitwise 0 b, bit_or-bitwise (0 / 2) (b / 2)) (omega arith)
or_step (suc a) b =
    rw (bit_or-bitwise (suc a) b, bit_or-bitwise (suc a / 2) (b / 2))
      (lowest_digit (λ t. t) max a b)

-- A number joined with 0 is itself.
or_none : (bound a : ℕ) → a ≤ bound → bit_or a 0 ≡ a
or_none zero a h = let e : a ≡ 0 = omega arith in rw (e, bit_or-bitwise 0 0) refl
or_none (suc bound) a h = elim (dec_lt 0 a) [
  | yes p ↦ omega (arith, or_step a 0, or_none bound (a / 2) (omega arith))
  | no p ↦ let e : a ≡ 0 = omega arith in rw (e, bit_or-bitwise 0 0) refl
]

or_double : (a b : ℕ) → bit_or (a * 2) b ≡ bit_or a (b / 2) * 2 + b % 2
or_double a b = let e : a * 2 / 2 ≡ a = omega arith in omega (arith, rw e at (or_step (a * 2) b))

-- (a << 2) | b, (a << 3) | b, (a << 4) | b and (a << 8) | b for a field b that fits
pub join_two : (a b : ℕ) → b < 4 → bit_or (a * 4) b ≡ a * 4 + b
join_two a b h =
    let z : b / 2 / 2 ≡ 0 = omega arith in
    let whole : a * 4 ≡ a * 2 * 2 = omega arith in
    rw whole (
      omega
        (arith, or_double (a * 2) b, or_double a (b / 2), rw (← z) at (or_none a a (omega arith))))

pub join_three : (a b : ℕ) → b < 8 → bit_or (a * 8) b ≡ a * 8 + b
join_three a b h =
    let whole : a * 8 ≡ a * 4 * 2 = omega arith in
    rw whole (omega (arith, or_double (a * 4) b, join_two a (b / 2)))

pub join_nibble : (a b : ℕ) → b < 16 → bit_or (a * 16) b ≡ a * 16 + b
join_nibble a b h =
    let whole : a * 16 ≡ a * 8 * 2 = omega arith in
    rw whole (omega (arith, or_double (a * 8) b, join_three a (b / 2)))

join_five : (a b : ℕ) → b < 32 → bit_or (a * 32) b ≡ a * 32 + b
join_five a b h =
    let whole : a * 32 ≡ a * 16 * 2 = omega arith in
    rw whole (omega (arith, or_double (a * 16) b, join_nibble a (b / 2)))

join_six : (a b : ℕ) → b < 64 → bit_or (a * 64) b ≡ a * 64 + b
join_six a b h =
    let whole : a * 64 ≡ a * 32 * 2 = omega arith in
    rw whole (omega (arith, or_double (a * 32) b, join_five a (b / 2)))

join_seven : (a b : ℕ) → b < 128 → bit_or (a * 128) b ≡ a * 128 + b
join_seven a b h =
    let whole : a * 128 ≡ a * 64 * 2 = omega arith in
    rw whole (omega (arith, or_double (a * 64) b, join_six a (b / 2)))

pub join_byte : (a b : ℕ) → b < 256 → bit_or (a * 256) b ≡ a * 256 + b
join_byte a b h =
    let whole : a * 256 ≡ a * 128 * 2 = omega arith in
    rw whole (omega (arith, or_double (a * 128) b, join_seven a (b / 2)))

pub low_bit : (a : ℕ) → bit_and a 1 ≡ a % 2
low_bit a = omega (arith, and_one a 0, and_none (a / 2) (a / 2) (omega arith))

pub second_bit : (a : ℕ) → bit_and a 2 ≡ a / 2 % 2 * 2
second_bit a = omega (arith, and_double a 1, low_bit (a / 2))
