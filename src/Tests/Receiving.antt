-- ===== src/Tests/Receiving.antt =====
-- The theorem on a request that comes again to the server at a concrete input.
use bubot_co_ap.Prelude.{ℕ, ◌+◌, refl, List, [], ◌∷◌, arith, true, some, inl, inr}
use bubot_co_ap.Outcome.{returns, attribute_error}
use bubot_co_ap.Text.{text}
use bubot_co_ap.Resources.{new_resource}
use bubot_co_ap.Layers.Block.{new_block_layer}
use bubot_co_ap.Layers.Table
use bubot_co_ap.Layers.Table.{Key, int}
use bubot_co_ap.Layers.MessageLayer.{new_message_layer}
use bubot_co_ap.Layers.RequestLayer.{ResourceLayer}
use bubot_co_ap.Server.Pipeline.{Server, Machine}
use bubot_co_ap.Server.Reception.Repeated.{first}
use bubot_co_ap.Layers.RequestLayer.Missing.{IsMissing}
use bubot_co_ap.Server.Directory.{lookup}
use bubot_co_ap.Dict
use bubot_co_ap.Defines.{item_of}
use bubot_co_ap.Defines.Types
use bubot_co_ap.Defines.Codes
use bubot_co_ap.Messages.CoapOption.{get_value, read}
use bubot_co_ap.Messages.Message.{Message}
use bubot_co_ap.Messages.Request.{uri_path, segments, str_of, drop_last}
use bubot_co_ap.Messages.Options.Values.{values_of}
use bubot_co_ap.Tests.Samples.{put_temp, peer, path_option}

abbrev size : List ℕ → ℕ
size [] = 0
size (c ∷ s) = size s + 1

abbrev machine : Machine
machine = record {
  builtins = record { lower = λ s. s; hash = size };
  no_context = attribute_error;
  fresh = 7 ∷ [];
}

abbrev no_resources : ResourceLayer
no_resources = record {
  discover = λ d t. returns (d, t);
  get_resource = λ d t. returns (d, t);
  create_resource = λ path d t. returns (d, t);
  update_resource = λ d t. returns (d, t);
  delete_resource = λ path d t. returns (d, t);
}

abbrev asked : Message
asked = record put_temp { options = path_option ∷ []; destination = some peer }

-- A server without resources that has received nothing.
abbrev server : Server
unfolding new_message_layer new_resource
server = record {
  message_layer = new_message_layer 1;
  block_layer = new_block_layer;
  observe_layer = [];
  directory = record { root = []; resource = λ i. new_resource (text "r") true true true };
}

asked-IsMissing : IsMissing server.directory (first asked 5)
unfolding server uri_path segments str_of drop_last values_of get_value read item_of lookup
    Table.get Table.same_key
asked-IsMissing = record {
  code = Codes.put;
  path = text "temp";
  here = peer;
  token = 1 ∷ 2 ∷ 3 ∷ 4 ∷ [];
  code_set = refl;
  is_method = inr (inl refl);
  unicast = refl;
  path_read = refl;
  destination_set = refl;
  token_set = refl;
  token_short = omega arith;
  no_resource = refl;
  no_discovery = refl;
}
