-- ===== src/Messages/CoapOption.antt =====
-- src/Bubot_CoAP/messages/option.py: an option's number and value, with the conversions that the
-- setter and the getter make by the registry's value type.
pub mod Laws
use bubot_co_ap.Prelude.{ℕ, Bool, true, false, ◌||◌, Option, none, some, List, [], ◌∷◌, String}
use bubot_co_ap.Prelude.{length, ltb, ◌==◌, if◌then◌else◌, not}
use bubot_co_ap.Outcome.{Outcome, returns, raises, key_error, type_error, ◌>>=◌, or_raise}
use bubot_co_ap.Text.{Text, text, text_of_int, text_of_bytes}
use bubot_co_ap.Defines.{OptionItem, ValueType, integer, string, opaque, unknown, item_of}
use bubot_co_ap.Messages.Value
use bubot_co_ap.Messages.Value.{Value, absent, int, str, bytes}
use bubot_co_ap.Utils

pub record CoapOption : Type 0 where
  pub number : ℕ
  -- the attribute _value, before the getter's conversion
  pub raw : Value

-- The value that the setter stores, by the value type.
unfoldable pub stored : ValueType → Value → Outcome Value
unfolding Value.to_int Value.byte_len Value.encode text_of_int text_of_bytes
stored integer v = do n ← Value.to_int v; returns (int (if Utils.byte_len n == 0 then 0 else n))
stored string absent = returns (str (text "None"))
stored string (int n) = returns (str (text_of_int n))
stored string (str s) = returns (str s)
stored string (bytes bs) = returns (str (text_of_bytes bs))
stored opaque absent = returns absent
stored opaque (bytes bs) = returns (bytes bs)
stored opaque (int n) = do b ← Value.encode (int n); returns (bytes b)
stored opaque (str s) = do b ← Value.encode (str s); returns (bytes b)
stored unknown v = returns v

-- `option.number = number; option.value = v`
unfoldable pub set_value : ℕ → Value → Outcome CoapOption
set_value number v = do
  item ← or_raise (item_of number) key_error
  raw ← stored item.value_type v
  returns (record { number = number; raw = raw })

-- What the getter makes of the stored value, by the registry's item.
unfoldable pub read : OptionItem → Value → Outcome Value
unfolding Value.byte_len Value.to_int Value.of_default
read item raw = elim item.value_type [
  | integer ↦ do
    k ← Value.byte_len raw
    if ltb 0 k
        then (do n ← Value.to_int raw; returns (int n))
        else returns (Value.of_default item.default)
  | _ ↦ returns raw
]

-- The property `value`.
unfoldable pub get_value : CoapOption → Outcome Value
get_value o = do item ← or_raise (item_of o.number) key_error; read item o.raw

-- The property `length`: of a str it counts characters.
unfoldable pub option_length : CoapOption → ℕ
option_length o = elim o.raw [
  | absent ↦ 0
  | int n ↦ Utils.byte_len n
  | str s ↦ length s
  | bytes bs ↦ length bs
]

unfoldable pub is_safe : CoapOption → Bool
is_safe o = not (
    o.number == 3
    || o.number == 7
    || o.number == 11
    || o.number == 14
    || o.number == 15
    || o.number == 35
    || o.number == 39)
