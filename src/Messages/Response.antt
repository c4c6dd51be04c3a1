-- ===== src/Messages/Response.antt =====
-- src/Bubot_CoAP/messages/response.py: the response to a request, and the options of a response.
pub mod Fields
use bubot_co_ap.Prelude.{ℕ, Bool, true, false, Option, some, List, [], ◌∷◌, ◌==◌}
use bubot_co_ap.Outcome.{
  Outcome, returns, raises, index_error, attribute_error, type_error, or_raise, ◌>>=◌,
}
use bubot_co_ap.Text.{Text}
use bubot_co_ap.Text.Parts.{strip, split, join}
use bubot_co_ap.Defines
use bubot_co_ap.Messages.Value
use bubot_co_ap.Messages.Value.{Value, int}
use bubot_co_ap.Messages.CoapOption.{CoapOption, get_value}
use bubot_co_ap.Messages.Message.{Message, Address, response, new_message, get_scheme, set_token}
use bubot_co_ap.Messages.Options.{del_option_by_number}
use bubot_co_ap.Messages.Options.Values.{values_of, add_value, add_values}
use bubot_co_ap.Messages.Request.{texts, strs}

-- The source of the response: the request's own address, for a multicast with the port 0.
abbrev pub response_source : Bool → Option Address → Outcome Address
response_source true destination = do
  d ← or_raise destination type_error
  returns (record d { port = 0 })
response_source false destination = or_raise destination attribute_error

-- Response.init_from_request. The source setter refuses None; a token that is None is drawn anew.
unfoldable pub init_from_request : List ℕ → Message → Outcome Message
init_from_request fresh request = do
  let m : Message = record (new_message response) { destination = request.source }
  source ← response_source request.multicast request.destination
  set_token fresh (record m { source = some source; scheme = some (get_scheme request) })
      request.token

abbrev pub location_path_number : ℕ
location_path_number = 8

abbrev pub max_age_number : ℕ
max_age_number = 14

abbrev pub location_query_number : ℕ
location_query_number = 20

unfoldable pub get_location_path : Message → Outcome Text
unfolding texts values_of
get_location_path m = do vs ← values_of location_path_number m.options; returns (join 47 (texts vs))

-- What stands behind a question mark is dropped.
unfoldable pub add_location : Message → List Text → Outcome Message
unfolding strs
add_location m [] = raises index_error
add_location m (path ∷ rest) = add_values location_path_number (strs (split 47 path)) m

unfoldable pub set_location_path : Message → Text → Outcome Message
unfolding add_location
set_location_path m path = add_location m (split 63 (strip 47 path))

unfoldable pub del_location_path : Message → Message
del_location_path m = del_option_by_number location_path_number m

unfoldable pub get_location_query : Message → Outcome (List Value)
get_location_query m = values_of location_query_number m.options

unfoldable pub del_location_query : Message → Message
del_location_query m = del_option_by_number location_query_number m

unfoldable pub set_location_query : Message → Text → Outcome Message
unfolding strs del_location_query
set_location_query m value =
    add_values location_query_number (strs (split 38 value)) (del_location_query m)

-- The loop of `max_age`: the last option of the number counts.
unfoldable pub find_max_age : ℕ → List CoapOption → Outcome ℕ
unfolding Value.to_int
find_max_age value [] = returns value
find_max_age value (o ∷ os) = elim (o.number == max_age_number) [
  | true ↦ do v ← get_value o; n ← Value.to_int v; find_max_age n os
  | false ↦ find_max_age value os
]

unfoldable pub get_max_age : Message → Outcome ℕ
unfolding find_max_age
get_max_age m = find_max_age 60 m.options

unfoldable pub del_max_age : Message → Message
del_max_age m = del_option_by_number max_age_number m

unfoldable pub set_max_age : Message → Value → Outcome Message
unfolding Value.to_int del_max_age
set_max_age m v = do n ← Value.to_int v; add_value max_age_number (int n) (del_max_age m)

-- is_error of a response with a code
unfoldable pub is_error : ℕ → Bool
is_error code = Defines.is_error code
