-- ===== src/Messages/Request/Query.antt =====
-- messages/request.py: the property `query`, a dict from names to the lists of their values.
use bubot_co_ap.Prelude.{true, false, ◌==◌, List, [], ◌∷◌, ◌++◌, if◌then◌else◌, not}
use bubot_co_ap.Outcome.{Outcome, returns, raises, value_error, key_error, or_raise, ◌>>=◌}
use bubot_co_ap.Text.{Text}
use bubot_co_ap.Text.Parts.{contains, split}
use bubot_co_ap.Messages.Value.{Value, str}
use bubot_co_ap.Messages.CoapOption.{CoapOption, get_value}
use bubot_co_ap.Messages.Message.{Message}
use bubot_co_ap.Messages.Options.Values.{add_values}
use bubot_co_ap.Messages.Request.{uri_query_number, str_of, del_uri_query}
use bubot_co_ap.Layers.Table
use bubot_co_ap.Layers.Table.{Table, octets}

-- `key, value = ...` of a list
unfoldable pub unpack : List Text → Outcome (Text × Text)
unpack (key ∷ value ∷ []) = returns (key, value)
unpack _ = raises value_error

-- One pass of the loop. The test is whether the key is a part of the value.
unfoldable pub collect : Table (List Text) → Text → Outcome (Table (List Text))
unfolding unpack
collect result q = do
  (key, value) ← unpack (split 61 q)
  let opened = if not (contains value key) then Table.put result (octets key) [] else result
  found ← or_raise (Table.get opened (octets key)) key_error
  returns (Table.put opened (octets key) (found ++ (value ∷ [])))

-- The loop over the options of the request.
unfoldable pub collect_all : Table (List Text) → List CoapOption → Outcome (Table (List Text))
unfolding collect
collect_all result [] = returns result
collect_all result (o ∷ os) = elim (o.number == uri_query_number) [
  | true ↦ do v ← get_value o; result' ← collect result (str_of v); collect_all result' os
  | false ↦ collect_all result os
]

unfoldable pub get_query : Message → Outcome (Table (List Text))
unfolding collect_all
get_query m = collect_all [] m.options

-- f'{key}={elem}' of each element, in the order of the dict.
unfoldable pub elements : Text → List Value → List Value
elements key [] = []
elements key (v ∷ vs) = str (key ++ (61 ∷ str_of v)) ∷ elements key vs

unfoldable pub all_elements : List (Text × List Value) → List Value
unfolding elements
all_elements [] = []
all_elements ((key, vs) ∷ query) = elements key vs ++ all_elements query

-- The values of the dict are lists here; the setter refuses any other.
unfoldable pub set_query : Message → List (Text × List Value) → Outcome Message
unfolding all_elements
set_query m query = add_values uri_query_number (all_elements query) (del_uri_query m)
