-- ===== src/Tests/Streams.antt =====
-- The theorems on streams at concrete inputs.
use bubot_co_ap.Prelude.{ℕ, ◌≡◌, refl, true, some, List, [], ◌∷◌, ◌++◌}
use bubot_co_ap.Outcome.{returns}
use bubot_co_ap.Text.{text}
use bubot_co_ap.Defines.{little, known_code}
use bubot_co_ap.Messages.Message.{Message, response, new_message, set_token, set_code}
use bubot_co_ap.Serializer.Decode.{parsed, is_response, options_loop, catch_malformed}
use bubot_co_ap.Serializer.Tcp
use bubot_co_ap.Serializer.Tcp.{extract_message_size}
use bubot_co_ap.Stream.{Connection, received, arrived, msg_size, take_message, data_received}
use bubot_co_ap.Stream.Fragments.{data_received_fragments, data_received_one}
use bubot_co_ap.Tests.Samples.{peer}

abbrev connection : Connection
connection = record {
  order = little;
  remote_address = peer;
  endpoint_address = peer;
  scheme = some (text "coap+tcp");
  is_server = true;
}

-- 2.05 with a token of one byte, and what it is read as.
abbrev whole : List ℕ
whole = 0x01 ∷ 69 ∷ 7 ∷ []

abbrev content_message : Message
content_message = record (new_message response) {
  code = some 69;
  token = some (7 ∷ []);
  source = some peer;
}

data_received_fragments_example :
    data_received connection [] (0x01 ∷ 69 ∷ []) (7 ∷ [])
    ≡ data_received connection [] [] ((0x01 ∷ 69 ∷ []) ++ (7 ∷ []))
unfolding data_received take_message extract_message_size msg_size
data_received_fragments_example =
    data_received_fragments connection [] [] (0x01 ∷ 69 ∷ []) (0x01 ∷ 69 ∷ []) (7 ∷ []) refl

whole_read : Tcp.deserialize little [] whole peer ≡ returns (parsed content_message)
unfolding Tcp.deserialize Tcp.read_message Tcp.message_for extract_message_size set_token set_code
    known_code is_response options_loop catch_malformed
whole_read = refl

data_received_one_example :
    data_received connection [] [] (whole ++ whole)
    ≡ (whole, received (arrived connection content_message))
unfolding extract_message_size msg_size
data_received_one_example =
    data_received_one connection [] [] (whole ++ whole) whole whole
      (record { token_offset = 2; token_length = 1; body_length = 0 }) content_message refl refl
      refl whole_read
