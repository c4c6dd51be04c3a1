-- ===== src/Layers/RequestLayer.antt =====
-- src/Bubot_CoAP/layers/request_layer.py: which operation of the resource layer a request asks for. The
-- resource layer is an interface: what its operations do with a transaction is a parameter.
pub mod Addressed
pub mod Missing
use bubot_co_ap.Prelude.{
  ℕ, ◌≡◌, ◌≢◌, refl, ◌∙◌, Bool, true, false, ◌&&◌, ◌||◌, not, Option, none, some, List, [], ◌∷◌,
  ltb, ◌==◌, if◌then◌else◌, arith,
}
use bubot_co_ap.Outcome.{Outcome, returns, attribute_error, or_raise, ◌>>=◌}
use bubot_co_ap.Text.{Text, text}
use bubot_co_ap.Defines.Codes
use bubot_co_ap.Messages.Message.{Message, set_code}
use bubot_co_ap.Messages.Response.{init_from_request}
use bubot_co_ap.Messages.Request.{uri_path}
use bubot_co_ap.Transaction.{Transaction}
use bubot_co_ap.Layers.Table
use bubot_co_ap.Layers.Table.{octets, same_key}
use bubot_co_ap.Server.Directory.{Directory, lookup}

-- What a handler does to the resources and to the transaction.
abbrev pub Handler : Type 0
Handler = Directory → Transaction → Outcome (Directory × Transaction)

-- What the request layer calls.
pub record ResourceLayer : Type 0 where
  pub discover : Handler
  pub get_resource : Handler
  pub create_resource : Text → Handler
  pub update_resource : Handler
  pub delete_resource : Text → Handler

-- defines.DISCOVERY_URL
abbrev pub discovery_url : Text
discovery_url = text "/.well-known/core"

-- `transaction.response.code = NOT_FOUND`
unfoldable pub not_found : Directory → Transaction → Message → Outcome (Directory × Transaction)
not_found directory t response = do
  r ← set_code response (some Codes.not_found)
  returns (directory, record t { response = some r })

-- `"/" + transaction.request.uri_path`, and the response to the request.
unfoldable pub prepare : List ℕ → Transaction → Outcome (Text × Message)
prepare fresh t = do
  path ← uri_path t.request
  response ← init_from_request fresh t.request
  returns (47 ∷ path, response)

-- `response.source = request.destination`; the setter refuses None.
unfoldable pub with_source : Transaction → Message → Outcome Message
with_source t response = do
  source ← or_raise t.request.destination attribute_error
  returns (record response { source = some source })

abbrev pub is_path : Text → Text → Bool
is_path s t = same_key (octets s) (octets t)

-- The resource is looked up, and None is not found.
unfoldable pub find :
    Directory → Transaction → Text → Message → Handler → Outcome (Directory × Transaction)
unfolding not_found
find directory t path response found = elim (lookup directory path) [
  | none ↦ not_found directory t response
  | some r ↦ found directory (record t { response = some response; resource = some r })
]

unfoldable pub handle_get :
    List ℕ → ResourceLayer → Directory → Transaction → Outcome (Directory × Transaction)
unfolding prepare find
handle_get fresh layer directory t = do
  let defined : Bool = elim (lookup directory discovery_url) [ none ↦ false | some r ↦ true ]
  (path, response) ← prepare fresh t
  if is_path path discovery_url && not defined
      then layer.discover directory (record t { response = some response })
      else if is_path path (text "/")
      then not_found directory t response
      else find directory t path response layer.get_resource

unfoldable pub handle_put :
    List ℕ → ResourceLayer → Directory → Transaction → Outcome (Directory × Transaction)
unfolding prepare with_source find
handle_put fresh layer directory t = do
  (path, response) ← prepare fresh t
  response ← with_source t response
  find directory t path response layer.update_resource

unfoldable pub handle_post :
    List ℕ → ResourceLayer → Directory → Transaction → Outcome (Directory × Transaction)
unfolding prepare with_source
handle_post fresh layer directory t = do
  (path, response) ← prepare fresh t
  response ← with_source t response
  layer.create_resource path directory (record t { response = some response })

unfoldable pub handle_delete :
    List ℕ → ResourceLayer → Directory → Transaction → Outcome (Directory × Transaction)
unfolding prepare with_source find
handle_delete fresh layer directory t = do
  (path, response) ← prepare fresh t
  response ← with_source t response
  find directory t path response (layer.delete_resource path)

-- `method == n`
abbrev pub has_code : Message → ℕ → Bool
has_code m n = elim m.code [ none ↦ false | some c ↦ c == n ]

unfoldable pub receive_request :
    List ℕ → ResourceLayer → Directory → Transaction → Outcome (Directory × Transaction)
unfolding handle_get handle_put handle_post handle_delete
receive_request fresh layer directory t =
    if has_code t.request Codes.get
    then handle_get fresh layer directory t
    else if has_code t.request Codes.post
    then handle_post fresh layer directory t
    else if has_code t.request Codes.put
    then handle_put fresh layer directory t
    else if has_code t.request Codes.delete
    then handle_delete fresh layer directory t
    else returns (directory, record t { response = none })
