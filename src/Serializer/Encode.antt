-- ===== src/Serializer/Encode.antt =====
-- serializer.py: writing options and the payload.
use bubot_co_ap.Prelude.{
  ℕ, ◌-◌, ◌*◌, List, [], ◌∷◌, ◌++◌, map, bit_or, ltb, leb, ◌==◌, if◌then◌else◌,
}
use bubot_co_ap.Outcome.{Outcome, returns, raises, type_error, key_error, or_raise, ◌>>=◌}
use bubot_co_ap.Defines.{ValueType, integer, string, item_of, payload_marker}
use bubot_co_ap.Messages.Value
use bubot_co_ap.Messages.Value.{Value, absent, int, str, bytes}
use bubot_co_ap.Messages.CoapOption.{CoapOption, get_value, option_length}
use bubot_co_ap.Serializer.Words.{int_to_words}
use bubot_co_ap.Serializer.Pack.{Field, byte, short, raw, no_int}

-- sorted(options, key=number), which is stable.
unfoldable pub insert : CoapOption → List CoapOption → List CoapOption
insert o [] = o ∷ []
insert o (p ∷ ps) = if ltb p.number o.number then p ∷ insert o ps else o ∷ p ∷ ps

unfoldable pub as_sorted_list : List CoapOption → List CoapOption
unfolding insert
as_sorted_list [] = []
as_sorted_list (o ∷ os) = insert o (as_sorted_list os)

-- The message of the AttributeError adds a number to a str, so TypeError is what is raised.
unfoldable pub get_option_nibble : ℕ → Outcome ℕ
get_option_nibble value =
    if leb value 12
    then returns value
    else if leb value 268
    then returns 13
    else if leb value 65804
    then returns 14
    else raises type_error

-- The extended field of a delta or a length.
unfoldable pub extended_fields : ℕ → ℕ → List Field
extended_fields nibble value =
    if nibble == 13
    then byte (value - 13) ∷ []
    else if nibble == 14
    then short (value - 269) ∷ []
    else []

-- The value of an option, by the value type.
unfoldable pub value_fields : ValueType → Value → ℕ → Outcome (List Field)
unfolding int_to_words Value.encode
value_fields integer (int n) option_length = do
  words ← int_to_words n option_length
  returns (map byte words)
value_fields integer _ option_length = raises type_error
value_fields string v option_length = do bs ← Value.encode v; returns (raw bs ∷ [])
value_fields _ (bytes bs) option_length = returns (map byte bs)
value_fields _ (str s) option_length = returns (map (λ c. no_int) s)
value_fields _ _ option_length = raises type_error

-- `if optionlength > 0`
unfoldable pub option_value_fields : CoapOption → ℕ → Outcome (List Field)
unfolding value_fields
option_value_fields o len =
    if ltb 0 len
    then (do
      item ← or_raise (item_of o.number) key_error
      v ← get_value o
      value_fields item.value_type v len)
    else returns []

-- One round of the loop of serialize, behind the option numbered `last`.
unfoldable pub option_fields : ℕ → CoapOption → Outcome (List Field)
unfolding get_option_nibble extended_fields option_value_fields
option_fields last o = do
  let delta = o.number - last
  let len = option_length o
  delta_nibble ← get_option_nibble delta
  length_nibble ← get_option_nibble len
  value ← option_value_fields o len
  returns (
      byte (bit_or (delta_nibble * 16) length_nibble)
      ∷ (extended_fields delta_nibble delta ++ (extended_fields length_nibble len ++ value)))

unfoldable pub options_fields : ℕ → List CoapOption → Outcome (List Field)
unfolding option_fields
options_fields last [] = returns []
options_fields last (o ∷ os) = do
  front ← option_fields last o
  rest ← options_fields o.number os
  returns (front ++ rest)

unfoldable pub payload_fields : Value → Outcome (List Field)
unfolding Value.encode
payload_fields absent = returns []
payload_fields (int n) = raises type_error
payload_fields (bytes []) = returns []
payload_fields (bytes (b ∷ bs)) = returns (byte payload_marker ∷ raw (b ∷ bs) ∷ [])
payload_fields (str []) = returns []
payload_fields (str (c ∷ s)) = do
  bs ← Value.encode (str (c ∷ s))
  returns (byte payload_marker ∷ raw bs ∷ [])
