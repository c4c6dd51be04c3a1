-- ===== src/Utils/Blockwise.antt =====
-- parse_blockwise reads the three fields of any value of up to three bytes.
use bubot_co_ap.Prelude.{
  ℕ, ◌+◌, ◌/◌, ◌%◌, ◌^◌, ◌<◌, ◌≡◌, refl, arith, ◌==◌, if◌then◌else◌, inl, inr, Bool-cases, ==_iff,
  bit_and,
}
use bubot_co_ap.Prelude.Masks.{mask_block_num, mask_block_m, mask_block_szx}
use bubot_co_ap.Utils.{byte_len, parse_blockwise}
use bubot_co_ap.Utils.ByteLen.{byte_len_bounds}

-- The mask that is chosen by the length drops nothing.
num_field :
    (k value : ℕ)
    → value < 2 ^ 24
    → value < 256 ^ k
    → (if k == 1
        then bit_and value 0xF0 / 16
        else if k == 2
        then bit_and value 0xFFF0 / 16
        else bit_and value 0xFFFFF0 / 16)
      ≡ value / 16
num_field k value h fits = elim (Bool-cases (k == 1)) [
  | inl one ↦ rw one (omega (arith, mask_block_num value, rw ((==_iff k 1).0 one) at fits))
  | inr other ↦ elim (Bool-cases (k == 2)) [
    | inl two ↦
        rw (other, two) (omega (arith, mask_block_num value, rw ((==_iff k 2).0 two) at fits))
    | inr more ↦ rw (other, more) (omega (arith, mask_block_num value))
  ]
]

-- Below 2 ^ 24: the number of the block is value // 16, M is bit 3, and the size is 2 ^ (SZX + 4).
pub parse_blockwise_fields :
    (value : ℕ)
    → value < 2 ^ 24
    → ((parse_blockwise value).num ≡ value / 16)
      × ((parse_blockwise value).m ≡ value / 8 % 2)
      × ((parse_blockwise value).size ≡ 2 ^ (value % 8 + 4))
unfolding parse_blockwise
parse_blockwise_fields value h = (
  num_field (byte_len value) value h (byte_len_bounds value).0,
  mask_block_m value,
  rw (mask_block_szx value) refl,
)
