-- ===== src/Messages/CoapOption/Laws.antt =====
-- The getter after the setter.
use bubot_co_ap.Prelude.{ℕ, ◌<◌, ◌≤◌, ◌≡◌, some, arith, List, length, sym}
use native.Mathlib.Decide.{dec_lt}
use bubot_co_ap.Outcome.{returns}
use bubot_co_ap.Text.{utf8_encode}
use bubot_co_ap.Text.Ascii.{IsAscii, length-utf8_encode}
use bubot_co_ap.Defines.{OptionItem, integer, item_of}
use bubot_co_ap.Messages.Value
use bubot_co_ap.Messages.Value.{Value, absent, int, str, bytes}
use bubot_co_ap.Messages.CoapOption.{option_length, stored, set_value, read, get_value}
use bubot_co_ap.Utils.ByteLen.{byte_len_pos, byte_len-zero}

-- An int is stored as it is: only 0 takes no byte.
pub stored_int : (n : ℕ) → stored integer (int n) ≡ returns (int n)
unfolding stored
stored_int n = elim (dec_lt 0 n) [
  | yes p ↦ ground (arith, byte_len_pos n p)
  | no p ↦ ground (arith, byte_len-zero)
]

pub set_value-int :
    (number n : ℕ) {item : OptionItem}
    → item_of number ≡ some item
    → item.value_type ≡ integer
    → set_value number (int n) ≡ returns (record { number = number; raw = int n })
unfolding set_value
set_value-int number n known typed = rw (known, typed, stored_int n)

-- A positive int is read back.
pub get_value-int :
    (number n : ℕ) {item : OptionItem}
    → item_of number ≡ some item
    → item.value_type ≡ integer
    → 0 < n
    → get_value (record { number = number; raw = int n }) ≡ returns (int n)
unfolding get_value read
get_value-int number n known typed p = ground (arith, known, typed, byte_len_pos n p)

-- The int 0 is read as the registry's default.
pub get_value-zero :
    (number : ℕ) {item : OptionItem}
    → item_of number ≡ some item
    → item.value_type ≡ integer
    → get_value (record { number = number; raw = int 0 }) ≡ returns (Value.of_default item.default)
unfolding get_value read
get_value-zero number known typed = ground (arith, known, typed, byte_len-zero)

-- The length of a text option, where its text can be encoded, is at most the number of its bytes, and
-- that number only for ASCII.
option_length_text :
    (number : ℕ) (s bs : List ℕ)
    → utf8_encode s ≡ some bs
    → (option_length (record { number = number; raw = str s }) ≤ length bs)
      × (option_length (record { number = number; raw = str s }) ≡ length bs → IsAscii s)
unfolding option_length
option_length_text number s bs e =
    let (shorter, ascii) = length-utf8_encode s bs e in (shorter, λ h. ascii (sym h))
