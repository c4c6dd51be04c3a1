-- ===== src/Defines/Facts.antt =====
-- The flags of an option number, and the class of a code.
use native.Mathlib.Nat.{pow-suc}
use bubot_co_ap.Prelude.{
  ℕ, some, zero, suc, ◌/◌, ◌%◌, ◌^◌, ◌≤◌, ◌<◌, ◌≡◌, arith, ltb, leb, ◌==◌, ◌&&◌,
}
use bubot_co_ap.Prelude.Masks.{low_bit, second_bit}
use bubot_co_ap.Outcome.{returns}
use bubot_co_ap.Defines.{
  OptionItem, integer, item_of, little, flags, Flags, get_option_flags, binary_digits, class_code,
  is_error,
}

binary_digits-le : (k f n : ℕ) → n < 2 ^ k → 1 ≤ k → binary_digits f n ≤ k
unfolding binary_digits
binary_digits-le zero f n h p = absurd (omega arith)
binary_digits-le (suc k) zero n h p = omega arith
binary_digits-le (suc zero) (suc f) n h p = ground (arith, h)
binary_digits-le (suc (suc k)) (suc f) n h p =
    ground (arith, pow-suc 2 (suc k), binary_digits-le (suc k) f (n / 2))

class_code-eq : (n : ℕ) → n < 256 → class_code n ≡ n / 32
unfolding class_code
class_code-eq n h = ground (arith, binary_digits-le 8 n n)

-- A code byte is an error exactly from 4.00 on and below 6.00.
is_error-eq : (n : ℕ) → n < 256 → is_error n ≡ (leb 128 n && ltb n 192)
unfolding is_error
is_error-eq n h = ground (arith, class_code-eq n h)

-- On a little-endian machine, for every number of 16 bits: critical if odd, unsafe by the second bit.
get_option_flags_little :
    (n : ℕ)
    → n < 65536
    → (f : Flags) × (get_option_flags little n ≡ returns f)
      × (f.critical ≡ (n % 2 == 1))
      × (f.unsafe ≡ (n / 2 % 2 == 1))
unfolding get_option_flags
get_option_flags_little n h =
    let b : ℕ = n % 256 in
    (flags b, ground arith, ground (arith, low_bit b), ground (arith, second_bit b))

-- The largest number that the registry knows is 65524.
pub item_of-le : (n : ℕ) {item : OptionItem} → item_of n ≡ some item → n ≤ 65524
unfolding item_of
item_of-le n h = ground arith

pub content_type-integer : {item : OptionItem} → item_of 12 ≡ some item → item.value_type ≡ integer
unfolding item_of
content_type-integer h = ground arith
