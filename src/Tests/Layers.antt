-- ===== src/Tests/Layers.antt =====
-- The theorems on the layers at concrete inputs.
use bubot_co_ap.Prelude.{ℕ, ◌≡◌, refl, some, List, [], ◌∷◌, true}
use bubot_co_ap.Outcome.{raises, type_error, ◌>>=◌}
use bubot_co_ap.Dict
use bubot_co_ap.Defines.{item_of}
use bubot_co_ap.Messages.Value.{int, bytes, absent}
use bubot_co_ap.Messages.CoapOption.{get_value, read}
use bubot_co_ap.Messages.Message.{Message, response, new_message}
use bubot_co_ap.Messages.Options.{get_option, get_option_from}
use bubot_co_ap.Messages.Accessors.{
  find_block, parse_value, get_block1, get_block2, get_content_type,
}
use bubot_co_ap.Transaction.{Transaction, new_transaction}
use bubot_co_ap.Utils.{byte_len, parse_blockwise}
use bubot_co_ap.Utils.Keys.{Builtins}
use bubot_co_ap.Layers.Keys.{key_token}
use bubot_co_ap.Layers.Block.{BlockItem}
use bubot_co_ap.Utils.{Block}
use bubot_co_ap.Layers.Block.{new_block_layer}
use bubot_co_ap.Layers.Block.Upload.{Part, Peer}
use bubot_co_ap.Defines.Codes
use bubot_co_ap.Layers.Block.Sending.{send_request}
use bubot_co_ap.Layers.Block.Responses.{receive_response}
use bubot_co_ap.Layers.Block.Negotiation.{IsAnswered, receive_response-send_request}
use bubot_co_ap.Tests.Samples.{peer, put_temp, path_option}

-- lower as the identity, and the first character for hash.
abbrev first_char : List ℕ → ℕ
first_char [] = 0
first_char (c ∷ s) = c

abbrev plain_builtins : Builtins
plain_builtins = record { lower = λ s. s; hash = first_char }

abbrev uploader : Peer
uploader = record {
  source = peer;
  destination = peer;
  token = 1 ∷ 2 ∷ 3 ∷ 4 ∷ [];
  content_type = int 0;
}

-- Block1 0/1/16 and 1/0/16
abbrev first_part : Part
first_part = record {
  transaction = new_transaction (record put_temp {
    options = path_option ∷ record { number = 27; raw = int 8 } ∷ [];
    destination = some peer;
    payload = bytes (1 ∷ 2 ∷ []);
  });
  block = record { num = 0; m = 1; size = 16 };
  chunk = 1 ∷ 2 ∷ [];
}

-- The answer to it, and the second part, in the same transaction.
abbrev continued : Message
continued = record put_temp { kind = response; code = some Codes.continue; options = [] }

abbrev second_part : Part
second_part = record {
  transaction = record first_part.transaction {
    request = record put_temp {
      options = path_option ∷ record { number = 27; raw = int 16 } ∷ [];
      destination = some peer;
      payload = bytes (3 ∷ []);
    };
    response = some continued;
    block_transfer = true;
  };
  block = record { num = 1; m = 0; size = 16 };
  chunk = 3 ∷ [];
}

-- GET with Block2 0/0/32, and the answer 0/1/32.
abbrev asking : Message
asking = record put_temp {
  options = record { number = 23; raw = int 1 } ∷ [];
  payload = absent;
  destination = some peer;
}

abbrev answering : Message
answering = record (new_message response) {
  source = some peer;
  token = some (1 ∷ 2 ∷ 3 ∷ 4 ∷ []);
  options = record { number = 23; raw = int 9 } ∷ [];
  payload = bytes (7 ∷ []);
}

asking-IsAnswered : IsAnswered plain_builtins new_block_layer asking answering
unfolding new_message Dict.get key_token get_block2 get_block1 find_block get_value read item_of
    parse_value get_content_type get_option get_option_from byte_len parse_blockwise
asking-IsAnswered = record {
  key = _;
  asked = record { num = 0; m = 0; size = 32 };
  given = record { num = 0; m = 1; size = 32 };
  content_type = int 0;
  chunk = 7 ∷ [];
  key_sent = refl;
  key_received = refl;
  no_upload = refl;
  no_block1 = refl;
  no_payload = refl;
  block2_asked = refl;
  block2_given = refl;
  same_block = refl;
  more = refl;
  content_type_read = refl;
  payload_set = refl;
}

receive_response-send_request_example :
    (send_request plain_builtins new_block_layer asking >>= λ (layer', sent).
    receive_response plain_builtins [] layer'
      (record (new_transaction sent) { response = some answering }))
    ≡ raises type_error
receive_response-send_request_example =
    receive_response-send_request plain_builtins [] new_block_layer asking answering
      asking-IsAnswered

-- Three bytes in blocks of two, the first of which is sent.
abbrev three : List ℕ
three = 1 ∷ 2 ∷ 3 ∷ []

abbrev sending : BlockItem
sending = record { byte = 2; num = 0; m = 1; size = 2; payload = bytes three; content_type = int 0 }

abbrev acknowledged : Block
acknowledged = record { num = 0; m = 1; size = 2 }
