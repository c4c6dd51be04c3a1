-- ===== src/Serializer/Decode/EmptyText.antt =====
-- serializer.py, convert_to_raw, and messages/option.py, the setter: a text option without bytes.
use bubot_co_ap.Prelude.{ℕ, List, ◌≡◌, refl, some}
use bubot_co_ap.Outcome.{returns, ◌>>=◌}
use bubot_co_ap.Text.{text, text_of_bytes}
use bubot_co_ap.Defines.{OptionItem, string, item_of}
use bubot_co_ap.Messages.Value.{str}
use bubot_co_ap.Messages.CoapOption.{set_value, stored}
use bubot_co_ap.Serializer.Decode.{convert_to_raw, read_value}

-- A text option without bytes is read as the three characters b''.
set_value-convert_to_raw :
    (number : ℕ) (values : List ℕ) {item : OptionItem}
    → item_of number ≡ some item
    → item.value_type ≡ string
    → (convert_to_raw item.value_type (read_value item.value_type 0 values) 0 >>= set_value number)
      ≡ returns (record { number = number; raw = str (text "b''") })
unfolding convert_to_raw set_value stored text_of_bytes
set_value-convert_to_raw number values known typed = rw (typed, known, typed) refl
