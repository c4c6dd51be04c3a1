-- ===== src/Utils.antt =====
-- src/Bubot_CoAP/utils.py: byte_len, parse_blockwise and check_nocachekey; Keys has the keys that the
-- layers hash.
pub mod Keys
pub mod ByteLen
pub mod Blockwise
use bubot_co_ap.Prelude.{
  ℕ, zero, suc, ◌+◌, ◌*◌, ◌/◌, ◌%◌, ◌^◌, Bool, true, false, ◌||◌, ◌&&◌, List, [], ◌∷◌, bit_and, ltb,
  leb, ◌==◌, if◌then◌else◌,
}

-- `while int_type: int_type >>= 1; length += 1`; the fuel is never used up when it is the number.
bit_length : ℕ → ℕ → ℕ
bit_length zero n = 0
bit_length (suc fuel) n = let more = bit_length fuel (n / 2) in if n == 0 then 0 else suc more

-- byte_len of a non-negative int
unfoldable pub byte_len : ℕ → ℕ
unfolding bit_length
byte_len n = let length = bit_length n n in if length % 8 == 0 then length / 8 else length / 8 + 1

-- The triple (num, m, size) of a block option.
pub record Block : Type 0 where
  pub num : ℕ
  pub m : ℕ
  pub size : ℕ

-- parse_blockwise of an int; on None see parse_value of Messages.Accessors.
unfoldable pub parse_blockwise : ℕ → Block
parse_blockwise value =
    let length = byte_len value in
    let num =
      if length == 1
      then bit_and value 0xF0 / 16
      else if length == 2
      then bit_and value 0xFFF0 / 16
      else bit_and value 0xFFFFF0 / 16 in
    record { num = num; m = bit_and value 8 / 8; size = 2 ^ (bit_and value 7 + 4) }

unfoldable pub check_nocachekey : ℕ → Bool
check_nocachekey n = bit_and n 0x1E == 0x1C || n == 4
