-- ===== src/Serializer/Tcp.antt =====
-- src/Bubot_CoAP/serializer_tcp.py: the frame of a message over a stream, deserialize and
-- serialize. The format of the options has no "!", so shorts are packed in the machine's order.
pub mod Frame
pub mod Ends
use bubot_co_ap.Prelude.{
  ℕ, zero, suc, ◌+◌, ◌-◌, ◌*◌, ◌/◌, ◌%◌, ◌^◌, Bool, true, false, Option, none, some, List, [], ◌∷◌,
  ◌++◌, length, take, drop, get_elem?, bit_and, bit_or, ltb, leb, ◌==◌, if◌then◌else◌,
}
use bubot_co_ap.Outcome.{
  Outcome, returns, raises, type_error, index_error, value_error, overflow_error, or_raise,
  raise_if, ◌>>=◌, ◌>>◌,
}
use bubot_co_ap.Defines.{ByteOrder}
use bubot_co_ap.Messages.Message.{
  Kind, request, response, plain, Address, Message, new_message, set_token, set_code,
}
use bubot_co_ap.Serializer.Words.{from_bytes, to_bytes}
use bubot_co_ap.Serializer.Pack.{Field, native, pack}
use bubot_co_ap.Serializer.Decode.{is_request, is_response, options_loop, Parsed, catch_malformed}
use bubot_co_ap.Serializer.Encode.{as_sorted_list, options_fields, payload_fields}

-- The offset of the token, its length, and the length of options and payload.
pub record Sizes : Type 0 where
  pub token_offset : ℕ
  pub token_length : ℕ
  pub body_length : ℕ

-- The extended length fields: their width, and what is added to them.
abbrev extension : ℕ → ℕ × ℕ
extension l = if l == 13 then (1, 13) else if l == 14 then (2, 269) else (4, 65805)

-- _extract_message_size
unfoldable pub extract_message_size : List ℕ → Option Sizes
unfolding from_bytes
extract_message_size [] = none
extract_message_size (first ∷ rest) =
    let l = first / 16 in
    let tkl = bit_and first 0x0F in
    let (extlen, offset) = extension l in
    if ltb l 13
    then some (record { token_offset = 2; token_length = tkl; body_length = l })
    else if ltb (length (first ∷ rest)) (extlen + 1)
    then none
    else some (record {
      token_offset = 2 + extlen;
      token_length = tkl;
      body_length = from_bytes 0 (take extlen rest) + offset;
    })

-- _encode_length: the nibble and the extended field.
unfoldable pub encode_length : ℕ → Outcome (ℕ × List ℕ)
unfolding to_bytes
encode_length l =
    if ltb l 13
    then returns (l, [])
    else if ltb l 269
    then returns (13, to_bytes 1 (l - 13))
    else if ltb l 65805
    then returns (14, to_bytes 2 (l - 269))
    else if ltb (l - 65805) (256 ^ 4)
    then returns (15, to_bytes 4 (l - 65805))
    else raises overflow_error

unfoldable pub message_for : ℕ → Outcome Message
unfolding is_request is_response
message_for code =
    if is_response code
    then set_code (new_message response) (some code)
    else if is_request code
    then set_code (new_message request) (some code)
    else set_code (new_message plain) (some code)

-- The body of the `try` of deserialize. Unpacking the None of a short header raises TypeError, and
-- so does building the UnicodeDecodeError for a long token, which takes five arguments.
unfoldable pub read_message : ByteOrder → List ℕ → List ℕ → Address → Outcome Message
read_message order fresh datagram source = do
  sizes ← or_raise (extract_message_size datagram) type_error
  raise_if (ltb 8 sizes.token_length) type_error
  code ← or_raise (get_elem? datagram (sizes.token_offset - 1)) index_error
  let token = take sizes.token_length (drop sizes.token_offset datagram)
  m ← message_for code
  m ← set_token fresh (record m { source = some source }) (some token)
  let values = drop (sizes.token_offset + sizes.token_length) datagram
  options_loop (length values) order m 0 values

unfoldable pub deserialize : ByteOrder → List ℕ → List ℕ → Address → Outcome Parsed
unfolding catch_malformed
deserialize order fresh datagram source = catch_malformed (read_message order fresh datagram source)

abbrev token_of : Option (List ℕ) → List ℕ
token_of none = []
token_of (some t) = t

unfoldable pub serialize : ByteOrder → Message → Outcome (List ℕ)
unfolding encode_length
serialize order m = do
  options ← options_fields 0 (as_sorted_list m.options)
  payload ← payload_fields m.payload
  let body = pack (native order) 0 (options ++ payload)
  (l, extlen) ← encode_length (length body)
  let token = token_of m.token
  raise_if (ltb 8 (length token)) value_error
  code ← or_raise m.code type_error
  raise_if (ltb 255 code) value_error
  returns (bit_or (l * 16) (length token) ∷ (extlen ++ (code ∷ (token ++ body))))
