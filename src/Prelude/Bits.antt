-- ===== src/Prelude/Bits.antt =====
-- Masks on one byte as arithmetic: tables of 256 entries, checked by evaluation.
use Prim.Native.Nat.{ℕ, zero, suc, ◌/◌, ◌%◌, ◌<◌, bit_and}
use mathlib.Core.Path.{◌≡◌, refl}
use mathlib.Core.Bool.{Bool, true, ◌&&◌}
use native.Mathlib.Omega.{arith}
use bubot_co_ap.Prelude.Tests.{◌==◌, ==_iff}

all_below : ℕ → (ℕ → Bool) → Bool
all_below zero p = true
all_below (suc n) p = p n && all_below n p

all_below→at : (n : ℕ) (p : ℕ → Bool) (x : ℕ) → all_below n p ≡ true → x < n → p x ≡ true
unfolding all_below
all_below→at zero p x h lt = absurd (omega arith)
all_below→at (suc n) p x h lt = ground (arith, all_below→at n p x)

module _ (f g : ℕ → ℕ) (n : ℕ) where
  agree : all_below n (λ x. f x == g x) ≡ true → (x : ℕ) → x < n → f x ≡ g x
  agree table x h = (==_iff (f x) (g x)).0 (all_below→at n (λ x. f x == g x) x table h)

-- (x & 0xC0) >> 6
pub mask-top_two : (x : ℕ) → x < 256 → bit_and x 0xC0 / 64 ≡ x / 64
unfolding all_below
mask-top_two = agree (λ x. bit_and x 0xC0 / 64) (λ x. x / 64) 256 refl

-- (x & 0x30) >> 4
pub mask-next_two : (x : ℕ) → x < 256 → bit_and x 0x30 / 16 ≡ x / 16 % 4
unfolding all_below
mask-next_two = agree (λ x. bit_and x 0x30 / 16) (λ x. x / 16 % 4) 256 refl

-- (x & 0xF0) >> 4
pub mask-high_nibble : (x : ℕ) → x < 256 → bit_and x 0xF0 / 16 ≡ x / 16
unfolding all_below
mask-high_nibble = agree (λ x. bit_and x 0xF0 / 16) (λ x. x / 16) 256 refl

-- x & 0x0F
pub mask-low_nibble : (x : ℕ) → x < 256 → bit_and x 0x0F ≡ x % 16
unfolding all_below
mask-low_nibble = agree (λ x. bit_and x 0x0F) (λ x. x % 16) 256 refl
