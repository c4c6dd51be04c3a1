-- ===== src/Messages/Request/Fields.antt =====
-- messages/request.py: accept, if_match, if_none_match, no_response, proxy_uri and proxy_schema.
use bubot_co_ap.Prelude.{ℕ, Bool, List, if◌then◌else◌}
use bubot_co_ap.Outcome.{Outcome, returns}
use bubot_co_ap.Defines.ContentTypes.{is_content_type}
use bubot_co_ap.Messages.Value.{Value, absent, int, str}
use bubot_co_ap.Messages.Message.{Message}
use bubot_co_ap.Messages.Options.{has_number, del_option_by_number}
use bubot_co_ap.Messages.Options.Values.{values_of, first_of, add_value, add_values}
use bubot_co_ap.Messages.Request.{str_of}

abbrev pub if_match_number : ℕ
if_match_number = 1

abbrev pub if_none_match_number : ℕ
if_none_match_number = 5

abbrev pub accept_number : ℕ
accept_number = 17

abbrev pub proxy_uri_number : ℕ
proxy_uri_number = 35

abbrev pub proxy_schema_number : ℕ
proxy_schema_number = 39

abbrev pub no_response_number : ℕ
no_response_number = 258

unfoldable pub get_accept : Message → Outcome Value
get_accept m = first_of accept_number m.options

-- A number that no content type has is ignored.
unfoldable pub set_accept : Message → ℕ → Outcome Message
set_accept m n = if is_content_type n then add_value accept_number (int n) m else returns m

unfoldable pub del_accept : Message → Message
del_accept m = del_option_by_number accept_number m

unfoldable pub get_if_match : Message → Outcome (List Value)
get_if_match m = values_of if_match_number m.options

unfoldable pub set_if_match : Message → List Value → Outcome Message
set_if_match m vs = add_values if_match_number vs m

unfoldable pub del_if_match : Message → Message
del_if_match m = del_option_by_number if_match_number m

unfoldable pub get_if_none_match : Message → Bool
get_if_none_match m = has_number if_none_match_number m.options

unfoldable pub add_if_none_match : Message → Outcome Message
add_if_none_match m = add_value if_none_match_number absent m

-- The setter adds the option whatever it is given.
unfoldable pub set_if_none_match : Message → Bool → Outcome Message
unfolding add_if_none_match
set_if_none_match m value = add_if_none_match m

unfoldable pub del_if_none_match : Message → Message
del_if_none_match m = del_option_by_number if_none_match_number m

unfoldable pub add_no_response : Message → Outcome Message
add_no_response m = add_value no_response_number (int 26) m

unfoldable pub get_proxy_uri : Message → Outcome Value
get_proxy_uri m = first_of proxy_uri_number m.options

unfoldable pub set_proxy_uri : Message → Value → Outcome Message
set_proxy_uri m v = add_value proxy_uri_number (str (str_of v)) m

unfoldable pub del_proxy_uri : Message → Message
del_proxy_uri m = del_option_by_number proxy_uri_number m

unfoldable pub get_proxy_schema : Message → Outcome Value
get_proxy_schema m = first_of proxy_schema_number m.options

unfoldable pub set_proxy_schema : Message → Value → Outcome Message
set_proxy_schema m v = add_value proxy_schema_number (str (str_of v)) m

unfoldable pub del_proxy_schema : Message → Message
del_proxy_schema m = del_option_by_number proxy_schema_number m
