-- ===== src/Serializer/Decode.antt =====
-- serializer.py: reading options and the payload.
pub mod EmptyText
pub mod HeaderEnds
pub mod OptionEnds
pub mod Ends
use bubot_co_ap.Prelude.{
  ℕ, zero, suc, ◌+◌, ◌*◌, ◌/◌, Bool, true, false, ◌&&◌, none, some, List, [], ◌∷◌, length, take,
  drop, bit_and, leb, ◌==◌, if◌then◌else◌,
}
use bubot_co_ap.Outcome.{
  Outcome, returns, raises, stuck, attribute_error, struct_error, unicode_decode_error, type_error,
  index_error, or_raise, ◌>>=◌,
}
use bubot_co_ap.Text.{utf8_decode}
use bubot_co_ap.Defines.{
  ByteOrder, ValueType, integer, string, opaque, item_of, get_option_flags, payload_marker,
}
use bubot_co_ap.Serializer.Words.{int_of_bytes}
use bubot_co_ap.Messages.Value
use bubot_co_ap.Messages.Value.{Value, absent, int, str, bytes}
use bubot_co_ap.Messages.CoapOption.{CoapOption, set_value, get_value}
use bubot_co_ap.Messages.Message.{Message}
use bubot_co_ap.Messages.Options.{add_option}
use bubot_co_ap.Messages.Accessors.{content_type_number}

unfoldable pub is_request : ℕ → Bool
is_request code = leb 1 code && leb code 31

unfoldable pub is_response : ℕ → Bool
is_response code = leb 64 code && leb code 191

-- One extended field of an option header: the value of the nibble, and the bytes behind it. One
-- byte is indexed (IndexError past the end), two are unpacked (struct.error).
unfoldable pub read_extended : ℕ → List ℕ → Outcome (ℕ × List ℕ)
read_extended nibble values =
    if leb nibble 12
    then returns (nibble, values)
    else if nibble == 13
    then elim values [ [] ↦ raises index_error | b ∷ rest ↦ returns (b + 13, rest) ]
    else if nibble == 14
    then elim values [
      | [] ↦ raises struct_error
      | hi ∷ more ↦ elim more [
        | [] ↦ raises struct_error
        | lo ∷ rest ↦ returns (hi * 256 + lo + 269, rest)
      ]
    ]
    else raises attribute_error

-- The option delta, the option length and the bytes behind the header.
unfoldable pub read_option_value_len_from_byte : ℕ → List ℕ → Outcome (ℕ × ℕ × List ℕ)
unfolding read_extended
read_option_value_len_from_byte byte values = do
  (value, values') ← read_extended (bit_and byte 0xF0 / 16) values
  (length, values'') ← read_extended (bit_and byte 0x0F) values'
  returns (value, length, values'')

-- The value of an option before conversion.
unfoldable pub read_value : ValueType → ℕ → List ℕ → Value
unfolding int_of_bytes
read_value type option_length values = if option_length == 0 then absent else elim type [
  | integer ↦ int (int_of_bytes 0 (take option_length values))
  | _ ↦ bytes (take option_length values)
]

-- convert_to_raw. The deserializers pass bytes, an int, or None with the length 0; of the last
-- lines, bytes(None) raises TypeError.
unfoldable pub convert_to_raw : ValueType → Value → ℕ → Outcome Value
unfolding Value.encode
convert_to_raw integer v zero = returns (int 0)
convert_to_raw _ v zero = returns (bytes [])
convert_to_raw string (bytes bs) (suc n) = do
  s ← or_raise (utf8_decode bs) unicode_decode_error
  returns (str s)
convert_to_raw opaque (bytes bs) (suc n) = returns (bytes bs)
convert_to_raw opaque (str s) (suc n) = do bs ← Value.encode (str s); returns (bytes bs)
convert_to_raw opaque _ (suc n) = raises type_error
convert_to_raw _ absent (suc n) = raises type_error
convert_to_raw _ (int k) (suc n) = returns (int k)
convert_to_raw _ (str s) (suc n) = do bs ← Value.encode (str s); returns (bytes bs)
convert_to_raw _ (bytes bs) (suc n) = returns (bytes bs)

-- `if option.number == CONTENT_TYPE: message.payload_type = option.value`
unfoldable pub note_content_type : CoapOption → Message → Outcome Message
note_content_type o m = elim (o.number == content_type_number) [
  | true ↦ do v ← get_value o; returns (record m { payload_type = v })
  | false ↦ returns m
]

-- The option of the number, of which the bytes behind the header begin with the value.
unfoldable pub read_option : ByteOrder → Message → ℕ → ℕ → List ℕ → Outcome Message
unfolding read_value convert_to_raw note_content_type
read_option order m current option_length values = elim (item_of current) [
  | none ↦ do
    flags ← get_option_flags order current
    elim flags.critical [ true ↦ raises attribute_error | false ↦ returns m ]
  | some item ↦ do
    v ←
        convert_to_raw item.value_type (read_value item.value_type option_length values)
          option_length
    o ← set_value current v
    m' ← add_option m o
    note_content_type o m'
]

-- `while pos < length_packet`. A payload takes all that is left.
unfoldable pub options_loop : ℕ → ByteOrder → Message → ℕ → List ℕ → Outcome Message
unfolding read_option read_option_value_len_from_byte
options_loop fuel order m current [] = returns m
options_loop zero order m current (b ∷ bs) = stuck
options_loop (suc fuel) order m current (b ∷ bs) = elim (b == payload_marker) [
  | true ↦ elim bs [
    | [] ↦ raises attribute_error
    | p ∷ ps ↦ returns (record m { payload = bytes (p ∷ ps) })
  ]
  | false ↦ do
    (num, option_length, values) ← read_option_value_len_from_byte b bs
    m' ← read_option order m (current + num) option_length values
    options_loop fuel order m' (current + num) (drop option_length values)
]

-- What deserialize returns: a message, or the number of BAD_REQUEST.
pub data Parsed : Type 0 where
  parsed : Message → Parsed
  failed : ℕ → Parsed

-- The `except` clauses of deserialize; other exceptions leave it.
unfoldable pub catch_malformed : Outcome Message → Outcome Parsed
catch_malformed (returns m) = returns (parsed m)
catch_malformed (raises attribute_error) = returns (failed 128)
catch_malformed (raises struct_error) = returns (failed 128)
catch_malformed (raises unicode_decode_error) = returns (failed 128)
catch_malformed (raises e) = raises e
catch_malformed stuck = stuck
