-- ===== src/Tests/Answering.antt =====
-- The theorem on the way of a request through the server at a concrete input.
use bubot_co_ap.Prelude.{ℕ, ◌+◌, ◌≡◌, refl, inr, inl, some, List, [], ◌∷◌, arith, true, false}
use bubot_co_ap.Outcome.{returns, attribute_error}
use bubot_co_ap.Dict
use bubot_co_ap.Text.{text, text_of_int}
use bubot_co_ap.Defines.{item_of}
use bubot_co_ap.Defines.Types
use bubot_co_ap.Defines.Codes
use bubot_co_ap.Messages.CoapOption.{get_value, read}
use bubot_co_ap.Messages.Message.{Message}
use bubot_co_ap.Messages.Accessors.{get_block1, get_block2, find_block, find_observe}
use bubot_co_ap.Messages.Request.{uri_path, segments, str_of, drop_last}
use bubot_co_ap.Messages.Options.Values.{values_of}
use bubot_co_ap.Transaction.{Transaction, new_transaction}
use bubot_co_ap.Resources.{new_resource}
use bubot_co_ap.Utils.Keys.{str_append_hash, append_all, appended}
use bubot_co_ap.Layers.Keys.{key_token}
use bubot_co_ap.Layers.Block.{new_block_layer}
use bubot_co_ap.Layers.Table
use bubot_co_ap.Layers.MessageLayer.{new_message_layer}
use bubot_co_ap.Layers.RequestLayer.{ResourceLayer}
use bubot_co_ap.Layers.RequestLayer.Missing.{IsMissing}
use bubot_co_ap.Server.Directory.{Directory, lookup}
use bubot_co_ap.Server.Pipeline.{Server, Machine, receive_request}
use bubot_co_ap.Server.Pipeline.NotFound.{IsRefused, receive_request_refused}
use bubot_co_ap.Tests.Samples.{peer, put_temp, path_option}

abbrev size : List ℕ → ℕ
size [] = 0
size (c ∷ s) = size s + 1

abbrev machine : Machine
machine = record {
  builtins = record { lower = λ s. s; hash = size };
  no_context = attribute_error;
  fresh = 7 ∷ [];
}

abbrev no_resources : ResourceLayer
no_resources = record {
  discover = λ d t. returns (d, t);
  get_resource = λ d t. returns (d, t);
  create_resource = λ path d t. returns (d, t);
  update_resource = λ d t. returns (d, t);
  delete_resource = λ path d t. returns (d, t);
}

abbrev empty : Directory
unfolding new_resource
empty = record { root = []; resource = λ i. new_resource (text "r") true true true }

abbrev put_here : Transaction
put_here = new_transaction (record put_temp { options = path_option ∷ []; destination = some peer })

abbrev server : Server
unfolding new_message_layer
server = record {
  message_layer = record (new_message_layer 1) { cell = λ i. put_here; next_cell = 1 };
  block_layer = new_block_layer;
  observe_layer = [];
  directory = empty;
}

put_here-IsMissing : IsMissing empty put_here
unfolding uri_path segments str_of values_of drop_last get_value read item_of lookup Table.get
    Table.same_key empty
put_here-IsMissing = record {
  code = 3;
  path = text "temp";
  here = peer;
  token = 1 ∷ 2 ∷ 3 ∷ 4 ∷ [];
  code_set = refl;
  is_method = inr (inl refl);
  unicast = refl;
  path_read = refl;
  destination_set = refl;
  token_set = refl;
  token_short = omega arith;
  no_resource = refl;
  no_discovery = refl;
}

put_here-IsRefused : IsRefused machine server put_here
unfolding server put_here-IsMissing key_token str_append_hash append_all appended text_of_int
    get_block1 get_block2 find_block find_observe Dict.get
put_here-IsRefused = record {
  missing = put_here-IsMissing;
  key = _;
  mid = 0x1234;
  key_of_request = refl;
  confirmable = refl;
  unacknowledged = refl;
  mid_set = refl;
  mid_fits = refl;
  no_block2 = refl;
  no_block1 = refl;
  no_observe = refl;
  no_transfer = refl;
  no_resource = refl;
  not_observed = refl;
  not_sent = refl;
}

receive_request_refused_example :
    (s' : Server) × (m : Message) × (receive_request machine no_resources server 0 5
      ≡ returns (s', record { datagrams = m ∷ []; retransmits = false }))
    × (m.type ≡ some Types.ack)
    × (m.code ≡ some Codes.not_found)
    × (m.mid ≡ some 0x1234)
    × (m.token ≡ some (1 ∷ 2 ∷ 3 ∷ 4 ∷ []))
    × (m.destination ≡ some peer)
    × ((s'.message_layer.cell 0).completed ≡ true)
    × ((s'.message_layer.cell 0).request.acknowledged ≡ true)
    × (s'.directory ≡ server.directory)
    × (s'.observe_layer ≡ server.observe_layer)
    × (s'.block_layer ≡ server.block_layer)
    × (s'.message_layer.transactions ≡ server.message_layer.transactions)
unfolding server
receive_request_refused_example =
    receive_request_refused machine no_resources server 0 5 put_here-IsRefused
