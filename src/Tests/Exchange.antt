-- ===== src/Tests/Exchange.antt =====
-- The theorem on a request and its response at a concrete input.
use bubot_co_ap.Prelude.{ℕ, ◌+◌, ◌≡◌, refl, Bool, false, none, some, List, [], ◌∷◌}
use bubot_co_ap.Outcome.{returns, attribute_error}
use bubot_co_ap.Dict
use bubot_co_ap.Text.{text, text_of_int}
use bubot_co_ap.Messages.Value.{len}
use bubot_co_ap.Messages.Message.{Message, Kind, is_request_object}
use bubot_co_ap.Messages.Accessors.{get_block1, get_block2, find_block, find_observe}
use bubot_co_ap.Resources.{new_resource}
use bubot_co_ap.Utils.Keys.{str_append_hash, append_all, appended}
use bubot_co_ap.Layers.Keys.{key_token, key_mid}
use bubot_co_ap.Layers.Block.{new_block_layer}
use bubot_co_ap.Layers.Block.Sending.{is_long}
use bubot_co_ap.Layers.MessageLayer.{new_message_layer}
use bubot_co_ap.Layers.MessageLayer.Pairing.{IsExchange}
use bubot_co_ap.Layers.CallbackLayer.{new_callback_layer, single}
use bubot_co_ap.Server.Pipeline.{Machine}
use bubot_co_ap.Server.Reception.{silent}
use bubot_co_ap.Server.Exchange.{Node, send_message, end_message, datagram_received_response}
use bubot_co_ap.Server.Exchange.Answered.{IsPlain, send_message_answered}
use bubot_co_ap.Tests.Samples.{peer, put_temp, path_option}

abbrev size : List ℕ → ℕ
size [] = 0
size (c ∷ s) = size s + 1

abbrev machine : Machine
machine = record {
  builtins = record { lower = λ s. s; hash = size };
  no_context = attribute_error;
  fresh = 7 ∷ [];
}

abbrev node : Node
unfolding new_message_layer new_resource new_callback_layer
node = record {
  server = record {
    message_layer = new_message_layer 1;
    block_layer = new_block_layer;
    observe_layer = [];
    directory = record { root = []; resource = λ i. new_resource (text "r") false false false };
  };
  callback_layer = new_callback_layer put_temp;
}

abbrev asked : Message
asked = record put_temp { options = path_option ∷ []; source = none; destination = some peer }

abbrev reply : Message
reply = record put_temp {
  kind = Kind.response;
  type = some 2;
  code = some 69;
  options = [];
  source = some peer;
  destination = some peer;
}

asked-IsExchange : IsExchange machine.builtins asked reply
unfolding is_request_object key_mid key_token str_append_hash append_all appended text_of_int
asked-IsExchange = record {
  peer = peer;
  here = peer;
  mid = 0x1234;
  token = 1 ∷ 2 ∷ 3 ∷ 4 ∷ [];
  other_token = 1 ∷ 2 ∷ 3 ∷ 4 ∷ [];
  by_mid = _;
  by_token = _;
  is_request = refl;
  unicast = refl;
  destination_set = refl;
  mid_set = refl;
  token_set = refl;
  key_of_mid = refl;
  key_of_token = refl;
  source_given = refl;
  destination_given = refl;
  mid_given = refl;
  token_given = refl;
  acknowledges = refl;
}

asked-IsPlain : IsPlain machine node asked reply
unfolding node get_block1 get_block2 find_block find_observe is_long len Dict.get
asked-IsPlain = record {
  exchange = asked-IsExchange;
  same = refl;
  no_observe = refl;
  no_block1 = refl;
  no_block2 = refl;
  short = refl;
  one_block = refl;
  not_sent = refl;
}

send_message_answered_example :
    (n' : Node) × (end : Node) × (m : Message) × (retransmits : Bool) × (send_message machine node
        asked false 5
      ≡ returns (n', record { datagrams = m ∷ []; retransmits = retransmits }, some 0))
    × (m.mid ≡ some 0x1234)
    × (m.token ≡ some (1 ∷ 2 ∷ 3 ∷ 4 ∷ []))
    × (datagram_received_response machine n' reply 9 ≡ returns (end, silent))
    × ((end_message end 0).1 ≡ returns (single reply))
unfolding node
send_message_answered_example = send_message_answered machine node asked reply 5 9 asked-IsPlain
