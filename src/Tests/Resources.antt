-- ===== src/Tests/Resources.antt =====
-- The theorems on the resource layer and on the options of requests and responses at concrete inputs.
use bubot_co_ap.Prelude.{ℕ, ◌≤◌, ◌≡◌, refl, true, none, some, [], ◌∷◌, arith, length, if◌then◌else◌}
use bubot_co_ap.Outcome.{returns, ◌>>=◌}
use bubot_co_ap.Text.{Text, text}
use bubot_co_ap.Text.Parts.{starts_with, strip, before, behind}
use bubot_co_ap.Defines.{item_of}
use bubot_co_ap.Defines.Codes
use bubot_co_ap.Messages.Value.{int, bytes}
use bubot_co_ap.Messages.CoapOption.{get_value, read}
use bubot_co_ap.Messages.Message.{Message}
use bubot_co_ap.Messages.Options.{has_number}
use bubot_co_ap.Messages.Options.Values.{values_of}
use bubot_co_ap.Messages.Request.{uri_path, uri_query, set_uri_path}
use bubot_co_ap.Messages.Request.Uri.{query_left, uri_path-set_uri_path}
use bubot_co_ap.Messages.Request.Fields.{get_if_match, get_if_none_match}
use bubot_co_ap.Messages.Response.{get_max_age, set_max_age}
use bubot_co_ap.Messages.Response.Fields.{get_max_age-set_max_age}
use bubot_co_ap.Resources.{new_resource}
use bubot_co_ap.Transaction.{Transaction, new_transaction}
use bubot_co_ap.Layers.Table
use bubot_co_ap.Layers.Table.{octets, same_key}
use bubot_co_ap.Server.Directory.{Directory, lookup}
use bubot_co_ap.Layers.RequestLayer
use bubot_co_ap.Layers.ResourceLayer.{Parent, answer_with}
use bubot_co_ap.Layers.ResourceLayer.Post.{edit_resource, add_resource, create_resource}
use bubot_co_ap.Layers.ResourceLayer.Put.{update_resource}
use bubot_co_ap.Layers.ResourceLayer.Filled.{Fills}
use bubot_co_ap.Layers.ResourceLayer.Contract.{
  resource_layer, IsResourceLayer, resource_layer-IsResourceLayer, receive_request-Fills,
}
use bubot_co_ap.Layers.ResourceLayer.Refusals.{resource_class, if_match_refused}
use bubot_co_ap.Layers.ResourceLayer.Unhandled.{IsUnhandled}
use bubot_co_ap.Prelude.{inl}
use bubot_co_ap.Messages.Request.{segments, str_of, drop_last}
use bubot_co_ap.Tests.Samples.{peer}
use bubot_co_ap.Layers.ResourceLayer.Parents.{create_resource_parent}
use bubot_co_ap.Tests.Samples.{put_temp, path_option}

-- A server whose send_ack only marks the request.
abbrev silent : Parent
silent t = returns (record t { request = record t.request { acknowledged = true } })

-- The resources 0 under / and 1 under /temp.
abbrev rooms : Directory
unfolding new_resource
rooms = record {
  root = (octets (text "/"), 0) ∷ (octets (text "/temp"), 1) ∷ [];
  resource = λ i. new_resource (text "room") true true true;
}

abbrev asked : Transaction
asked = record (new_transaction (record put_temp { options = path_option ∷ [] })) {
  resource = some 1;
  response = some (record put_temp { code = none });
}

-- The same with an If-Match of one byte.
abbrev matched : Transaction
matched = record asked {
  request = record put_temp { options = record { number = 1; raw = bytes (7 ∷ []) } ∷ [] };
}

resource_layer-IsResourceLayer_example : IsResourceLayer (resource_layer silent resource_class)
resource_layer-IsResourceLayer_example =
    resource_layer-IsResourceLayer silent resource_class (λ t. tt)

receive_request-Fills_example :
    Fills (RequestLayer.receive_request (7 ∷ []) (resource_layer silent resource_class) rooms asked)
receive_request-Fills_example =
    receive_request-Fills (7 ∷ []) (resource_layer silent resource_class)
      resource_layer-IsResourceLayer_example rooms asked

create_resource_parent_example :
    (p : Text) × (parent : ℕ) × (create_resource silent resource_class
        (text "/temp/min")
        rooms
        asked
      ≡ (if (rooms.resource parent).allow_children
          then add_resource silent resource_class parent (text "/temp/min") rooms asked
          else answer_with Codes.method_not_allowed rooms asked))
    × (lookup rooms p ≡ some parent)
    × (starts_with (text "/temp/min") p ≡ true)
    × ((r : Text) (y : ℕ)
        → lookup rooms r ≡ some y
        → starts_with (text "/temp/min") r ≡ true
        → length r ≤ length p)
unfolding rooms lookup Table.get same_key starts_with
create_resource_parent_example =
    create_resource_parent silent resource_class (text "/temp/min") rooms asked (text "/temp") 1
      refl refl refl (omega arith)

if_match_refused_example :
    (update_resource silent resource_class rooms matched
      ≡ answer_with Codes.precondition_failed rooms matched)
    × (edit_resource silent resource_class (text "/temp") rooms matched
        ≡ answer_with Codes.precondition_failed rooms (record matched { resource = some 1 }))
unfolding rooms get_if_match values_of get_value read item_of lookup Table.get same_key
if_match_refused_example =
    if_match_refused silent resource_class (text "/temp") rooms matched 1 (bytes (7 ∷ [])) [] refl
      ((7 ∷ [], refl), tt) refl refl

abbrev get_room : Transaction
get_room =
    new_transaction (record put_temp {
      code = some Codes.get;
      options = path_option ∷ [];
      destination = some peer;
    })

get_room-IsUnhandled : IsUnhandled rooms get_room
unfolding rooms uri_path segments str_of drop_last values_of get_value read item_of lookup Table.get
    same_key get_if_match get_if_none_match has_number
get_room-IsUnhandled = record {
  addressed = record {
    path = text "temp";
    here = peer;
    token = 1 ∷ 2 ∷ 3 ∷ 4 ∷ [];
    unicast = refl;
    path_read = refl;
    destination_set = refl;
    token_set = refl;
    token_short = omega arith;
  };
  code = Codes.get;
  code_set = refl;
  is_method = inl refl;
  resource = 1;
  found = refl;
  no_discovery = refl;
  no_root = refl;
  unmatched = refl;
  unconditional = refl;
}

uri_path-set_uri_path_example :
    (m' : Message) × (set_uri_path (record put_temp { options = [] }) (text "/a/b?x=1")
      ≡ returns m')
    × (uri_path m' ≡ returns (before 63 (strip 47 (text "/a/b?x=1"))))
    × (uri_query m'
        ≡ query_left (record put_temp { options = [] }) (behind 63 (strip 47 (text "/a/b?x=1"))))
unfolding has_number
uri_path-set_uri_path_example =
    uri_path-set_uri_path (record put_temp { options = [] }) (text "/a/b?x=1") refl

get_max_age-set_max_age_example : (set_max_age put_temp (int 0) >>= get_max_age) ≡ returns 60
get_max_age-set_max_age_example = get_max_age-set_max_age put_temp 0

-- The path without the slash in front and without the query.
path_before : before 63 (strip 47 (text "/a/b?x=1")) ≡ text "a/b"
unfolding before strip
path_before = refl
