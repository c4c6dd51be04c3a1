-- ===== src/Resources/Contents.antt =====
-- resource.py: the ETag, the payloads by content type, and the link attributes that setters write.
use bubot_co_ap.Prelude.{ℕ, Option, none, some, List, [], ◌∷◌, ◌++◌, if◌then◌else◌}
use bubot_co_ap.Outcome.{
  Outcome, returns, raises, key_error, index_error, attribute_error, or_raise, ◌>>=◌,
}
use bubot_co_ap.Text.{Text, text}
use bubot_co_ap.Defines.ContentTypes.{content_type_named}
use bubot_co_ap.Messages.Value.{Value, absent, int, str, bytes}
use bubot_co_ap.Messages.Message.{Message}
use bubot_co_ap.Messages.Options.{same_value}
use bubot_co_ap.Messages.Accessors.{get_content_type}
use bubot_co_ap.Messages.Accessors.Options.{etag_bytes}
use bubot_co_ap.Messages.Request.{str_of, uri_query}
use bubot_co_ap.Layers.Table
use bubot_co_ap.Layers.Table.{Table, octets}
use bubot_co_ap.Resources.{Resource, word, numbers, set_location_query}

-- A str is encoded; the ETag goes to the end of the list.
unfoldable pub set_etag : Resource → Value → Outcome Resource
set_etag r v = do b ← etag_bytes v; returns (record r { etags = b ∷ r.etags })

-- The dict of payloads, by content type.
unfoldable pub payload_of : List (Value × Value) → Value → Option Value
payload_of [] k = none
payload_of ((j, v) ∷ ps) k = if same_value j k then some v else payload_of ps k

unfoldable pub put_payload : List (Value × Value) → Value → Value → List (Value × Value)
put_payload [] k v = (k, v) ∷ []
put_payload ((j, w) ∷ ps) k v = if same_value j k then (j, v) ∷ ps else (j, w) ∷ put_payload ps k v

-- The payload, or the first key of the dict with its payload.
pub data Shown : Type 0 where
  payload : Value → Shown
  typed_payload : Value → Value → Shown

unfoldable pub first_payload : List (Value × Value) → Outcome Shown
first_payload [] = raises index_error
first_payload ((k, v) ∷ ps) = returns (typed_payload k v)

unfoldable pub get_payload : Resource → Outcome Shown
unfolding payload_of first_payload
get_payload r = elim r.actual_content_type [
  | some n ↦ do v ← or_raise (payload_of r.payloads (int n)) key_error; returns (payload v)
  | none ↦ elim (payload_of r.payloads (int 0)) [
    | some v ↦ returns (payload v)
    | none ↦ first_payload r.payloads
  ]
]

-- A name is looked up, a number is taken, anything else is ignored.
unfoldable pub set_actual_content_type : Resource → Value → Outcome Resource
set_actual_content_type r absent = returns r
set_actual_content_type r (bytes b) = returns r
set_actual_content_type r (int n) = returns (record r { actual_content_type = some n })
set_actual_content_type r (str s) = do
  n ← or_raise (content_type_named s) key_error
  returns (record r { actual_content_type = some n })

-- `payload = (k, v)`
unfoldable pub set_typed_payload : Resource → Value → Value → Outcome Resource
unfolding set_actual_content_type put_payload
set_typed_payload r k v = do
  r' ← set_actual_content_type r k
  returns (record r' { payloads = put_payload r'.payloads k v })

-- `payload = p`: a content type 0 counts as none, which makes no difference.
unfoldable pub set_payload : Resource → Value → Resource
set_payload r p =
    let k : Value = elim r.actual_content_type [ none ↦ int 0 | some n ↦ int n ] in
    record r { payloads = (k, p) ∷ [] }

-- add_content_type; append is no method of a str.
unfoldable pub add_content_type_number : Resource → ℕ → Outcome Resource
add_content_type_number r n = elim (Table.get r.attributes (octets (text "ct"))) [
  | none ↦
      returns
        (record r { attributes = Table.put r.attributes (octets (text "ct")) (numbers (n ∷ [])) })
  | some (numbers ns) ↦ returns (record r {
    attributes = Table.put r.attributes (octets (text "ct")) (numbers (ns ++ (n ∷ [])));
  })
  | some (word s) ↦ raises attribute_error
]

-- A content type, by name or by number.
pub data ContentType : Type 0 where
  named : Text → ContentType
  numbered : ℕ → ContentType

unfoldable pub add_content_type : Resource → ContentType → Outcome Resource
unfolding add_content_type_number
add_content_type r (named s) = do
  n ← or_raise (content_type_named s) key_error
  add_content_type_number r n
add_content_type r (numbered n) = add_content_type_number r n

-- `content_type = lst` of a list
unfoldable pub add_content_types : Resource → List ContentType → Outcome Resource
unfolding add_content_type
add_content_types r [] = returns r
add_content_types r (v ∷ vs) = do r' ← add_content_type r v; add_content_types r' vs

-- `self._attributes[key] = str(v)`: the setters of rt, if and sz.
unfoldable pub set_word : Text → Resource → Value → Resource
unfolding str_of
set_word key r v = record r { attributes = Table.put r.attributes (octets key) (word (str_of v)) }

unfoldable pub set_resource_type : Resource → Value → Resource
unfolding set_word
set_resource_type r v = set_word (text "rt") r v

unfoldable pub set_interface_type : Resource → Value → Resource
unfolding set_word
set_interface_type r v = set_word (text "if") r v

unfoldable pub set_maximum_size_estimated : Resource → Value → Resource
unfolding set_word
set_maximum_size_estimated r v = set_word (text "sz") r v

-- init_resource of a new resource, and edit_resource of itself.
unfoldable pub fill_from : Resource → Message → Outcome Resource
unfolding set_location_query set_typed_payload
fill_from r request = do
  query ← uri_query request
  kind ← get_content_type request
  set_typed_payload (set_location_query r query) kind request.payload
