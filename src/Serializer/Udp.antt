-- ===== src/Serializer/Udp.antt =====
-- src/Bubot_CoAP/serializer_udp.py: deserialize and serialize.
pub mod RoundTrip
pub mod Ends
use bubot_co_ap.Prelude.{
  ℕ, ◌+◌, ◌*◌, ◌/◌, Bool, true, false, Option, none, some, List, [], ◌∷◌, ◌++◌, length, take, drop,
  bit_and, bit_or, ltb, ◌==◌, if◌then◌else◌,
}
use mathlib.Core.Option.{get_or}
use bubot_co_ap.Outcome.{Outcome, returns, raises, struct_error, type_error, or_raise, ◌>>=◌}
use bubot_co_ap.Defines
use bubot_co_ap.Defines.{ByteOrder}
use bubot_co_ap.Messages.Message.{
  Kind, request, response, plain, Address, Message, new_message, set_version, set_type, set_mid,
  set_token, set_code,
}
use bubot_co_ap.Serializer.Pack.{Field, byte, short, raw, network, pack}
use bubot_co_ap.Serializer.Decode.{is_request, is_response, options_loop, Parsed, catch_malformed}
use bubot_co_ap.Serializer.Encode.{as_sorted_list, options_fields, payload_fields}

-- "!BBH": the first byte, the code and the message id.
unfoldable pub unpack_header : List ℕ → Outcome (ℕ × ℕ × ℕ)
unpack_header (first ∷ code ∷ hi ∷ lo ∷ rest) = returns (first, code, hi * 256 + lo)
unpack_header _ = raises struct_error

-- The object for the code: only requests and responses are given their code here.
unfoldable pub message_for : ℕ → Outcome Message
unfolding is_request is_response
message_for code =
    if is_response code
    then set_code (new_message response) (some code)
    else if is_request code
    then set_code (new_message request) (some code)
    else returns (new_message plain)

-- The body of the `try` of deserialize.
unfoldable pub read_message : ByteOrder → List ℕ → List ℕ → Address → Outcome Message
unfolding unpack_header
read_message order fresh datagram source = do
  (first, code, mid) ← unpack_header datagram
  let token_length = bit_and first 0x0F
  m ← message_for code
  m ← set_version (record m { source = some source }) (bit_and first 0xC0 / 64)
  m ← set_type m (some (bit_and first 0x30 / 16))
  m ← set_mid m (some mid)
  m ←
      set_token fresh m
        (if ltb 0 token_length then some (take token_length (drop 4 datagram)) else none)
  let values = drop (4 + token_length) datagram
  options_loop (length values) order m 0 values

unfoldable pub deserialize : ByteOrder → List ℕ → List ℕ → Address → Outcome Parsed
unfolding catch_malformed
deserialize order fresh datagram source = catch_malformed (read_message order fresh datagram source)

abbrev or_zero : Option ℕ → ℕ
or_zero none = 0
or_zero (some n) = n

abbrev token_of : Option (List ℕ) → List ℕ
token_of none = []
token_of (some t) = t

-- The first four bytes and the token.
unfoldable pub header_fields : Message → Outcome (List Field)
header_fields m = do
  type ← or_raise m.type type_error
  let token = token_of m.token
  let tmp = bit_or (bit_or (Defines.version * 4) type * 16) (length token)
  returns (
      byte tmp
      ∷ byte (or_zero m.code)
      ∷ short (or_zero m.mid)
      ∷ (elim token [ [] ↦ [] | b ∷ bs ↦ raw (b ∷ bs) ∷ [] ]))

unfoldable pub serialize : Message → Outcome (List ℕ)
unfolding header_fields
serialize m = do
  header ← header_fields m
  options ← options_fields 0 (as_sorted_list m.options)
  payload ← payload_fields m.payload
  returns (pack network 0 (header ++ (options ++ payload)))
