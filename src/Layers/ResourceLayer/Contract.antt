-- ===== src/Layers/ResourceLayer/Contract.antt =====
-- resource_layer.py as the resource layer that the request layer calls, and what the request layer gets of
-- it.
use bubot_co_ap.Prelude.{
  ℕ, refl, Bool, true, false, Option, none, some, List, either_branch, either_option, ltb, length,
}
use bubot_co_ap.Outcome.{
  any_exception, or_raise, or_raise-Finishes, type_error, attribute_error, Ends-bind, Any, Finishes,
  Finishes-bind, ◌>>=◌,
}
use bubot_co_ap.Text.{Text, text}
use bubot_co_ap.Defines.Codes
use bubot_co_ap.Messages.Message.{Message, Address, set_code, set_token}
use bubot_co_ap.Messages.Options.Values.Ends.{values_of-Finishes}
use bubot_co_ap.Messages.Response.{init_from_request, response_source}
use bubot_co_ap.Messages.Request.{uri_path, uri_path_number}
use bubot_co_ap.Transaction.{Transaction}
use bubot_co_ap.Server.Directory.{Directory, lookup}
use bubot_co_ap.Layers.RequestLayer
use bubot_co_ap.Layers.RequestLayer.{
  ResourceLayer, Handler, prepare, with_source, find, not_found, handle_get, handle_put,
  handle_post, handle_delete, is_path, has_code, discovery_url,
}
use bubot_co_ap.Layers.ResourceLayer.{Parent, Handlers, Ending, get_resource}
use bubot_co_ap.Layers.ResourceLayer.Post.{create_resource}
use bubot_co_ap.Layers.ResourceLayer.Put.{update_resource}
use bubot_co_ap.Layers.ResourceLayer.Delete.{delete_resource}
use bubot_co_ap.Layers.ResourceLayer.Discovery.{discover}
use bubot_co_ap.Layers.ResourceLayer.Filled.{
  IsCoded, IsFilled, Fills, Acks, set_code-IsCoded, get_resource-Fills,
}
use bubot_co_ap.Layers.ResourceLayer.Filled.Operations.{
  delete_resource-Fills, create_resource-Fills,
}
use bubot_co_ap.Layers.ResourceLayer.Filled.Updates.{update_resource-Fills}
use bubot_co_ap.Layers.ResourceLayer.Filled.Listing.{discover-Fills}

-- ResourceLayer(parent), over the handlers of the resources.
unfoldable pub resource_layer : Parent → Handlers → ResourceLayer
resource_layer send_ack handlers = record {
  discover = discover;
  get_resource = get_resource send_ack handlers;
  create_resource = create_resource send_ack handlers;
  update_resource = update_resource send_ack handlers;
  delete_resource = delete_resource send_ack handlers;
}

abbrev pub AlwaysFills : Handler → Type 0
AlwaysFills f = (directory : Directory) (t : Transaction) → Fills (f directory t)

-- What a resource layer promises: every operation ends, and leaves no response without a code.
pub record IsResourceLayer (layer : ResourceLayer) : Type 0 where
  pub discover_fills : AlwaysFills layer.discover
  pub get_fills : AlwaysFills layer.get_resource
  pub create_fills : (path : Text) → AlwaysFills (layer.create_resource path)
  pub update_fills : AlwaysFills layer.update_resource
  pub delete_fills : (path : Text) → AlwaysFills (layer.delete_resource path)

-- If send_ack ends, by returning or raising, then whatever the handlers of the resources do, every
-- operation of the resource layer ends too, and where it returns, the response, if there is one, has a
-- code.
pub resource_layer-IsResourceLayer :
    (send_ack : Parent) (handlers : Handlers)
    → Acks send_ack
    → IsResourceLayer (resource_layer send_ack handlers)
unfolding resource_layer
resource_layer-IsResourceLayer send_ack handlers acks = record {
  discover_fills = discover-Fills;
  get_fills = get_resource-Fills send_ack handlers acks;
  create_fills = create_resource-Fills send_ack handlers acks;
  update_fills = update_resource-Fills send_ack handlers acks;
  delete_fills = delete_resource-Fills send_ack handlers acks;
}

set_token-Finishes :
    (fresh : List ℕ) (m : Message) (t : Option (List ℕ)) → Finishes (set_token fresh m t)
unfolding set_token any_exception
set_token-Finishes fresh m none = tt
set_token-Finishes fresh m (some t) = either_branch Finishes (ltb 256 (length t)) refl tt

response_source-Finishes :
    (multicast : Bool) (destination : Option Address)
    → Finishes (response_source multicast destination)
unfolding any_exception
response_source-Finishes true destination =
    Finishes-bind Any (or_raise destination type_error) _ (or_raise-Finishes destination type_error)
      (λ d. tt)
response_source-Finishes false destination = or_raise-Finishes destination attribute_error

init_from_request-Finishes : (fresh : List ℕ) (m : Message) → Finishes (init_from_request fresh m)
unfolding init_from_request
init_from_request-Finishes fresh m =
    Finishes-bind Any (response_source m.multicast m.destination) _
      (response_source-Finishes m.multicast m.destination)
      (λ source. set_token-Finishes fresh _ m.token)

prepare-Finishes : (fresh : List ℕ) (t : Transaction) → Finishes (prepare fresh t)
unfolding prepare uri_path
prepare-Finishes fresh t =
    Finishes-bind Any (uri_path t.request) _
      (Finishes-bind Any _ _ (values_of-Finishes uri_path_number t.request.options) (λ vs. tt))
      (λ path.
        Finishes-bind Any (init_from_request fresh t.request) _
          (init_from_request-Finishes fresh t.request) (λ response. tt))

not_found-Fills :
    (directory : Directory) (t : Transaction) (response : Message)
    → Fills (not_found directory t response)
unfolding not_found
not_found-Fills directory t response =
    Ends-bind any_exception (λ m. IsCoded (some m)) IsFilled
      (set_code response (some Codes.not_found)) _ (set_code-IsCoded response Codes.not_found)
      (λ m h. h)

find-Fills :
    (directory : Directory) (t : Transaction) (path : Text) (response : Message) (found : Handler)
    → AlwaysFills found
    → Fills (find directory t path response found)
unfolding find
find-Fills directory t path response found h =
    either_option Fills (lookup directory path) (not_found directory t response) _
      (not_found-Fills directory t response)
      (λ r e. h directory (record t { response = some response; resource = some r }))

module _ (fresh : List ℕ) (layer : ResourceLayer) (h : IsResourceLayer layer) where
  -- The part that PUT, POST and DELETE share.
  sourced-Fills :
      (t : Transaction) (f : Text → Message → Ending)
      → ((path : Text) (response : Message) → Fills (f path response))
      → Fills (
          prepare fresh t >>= λ (path, response).
          with_source t response >>= λ response. f path response)
  unfolding with_source
  sourced-Fills t f g =
      Finishes-bind IsFilled (prepare fresh t) _ (prepare-Finishes fresh t) (λ (path, response).
        Finishes-bind IsFilled (with_source t response) _
          (Finishes-bind Any (or_raise t.request.destination attribute_error) _
            (or_raise-Finishes t.request.destination attribute_error) (λ source. tt))
          (λ response'. g path response'))

  handle_get-Fills : AlwaysFills (handle_get fresh layer)
  unfolding handle_get
  handle_get-Fills directory t =
      Finishes-bind IsFilled (prepare fresh t) _ (prepare-Finishes fresh t) (λ (path, response).
        either_branch Fills _ (h.discover_fills directory (record t { response = some response })) (
          either_branch Fills (is_path path (text "/")) (not_found-Fills directory t response)
            (find-Fills directory t path response layer.get_resource h.get_fills)))

  -- Over a resource layer that keeps its promise the request layer ends on every request, by returning or
  -- raising, and where it returns, the response, if there is one, has a code.
  pub receive_request-Fills :
      (directory : Directory) (t : Transaction)
      → Fills (RequestLayer.receive_request fresh layer directory t)
  unfolding RequestLayer.receive_request handle_put handle_post handle_delete IsCoded
  receive_request-Fills directory t =
      either_branch Fills (has_code t.request Codes.get) (handle_get-Fills directory t) (
        either_branch Fills (has_code t.request Codes.post)
          (sourced-Fills t _ (λ path response.
            h.create_fills path directory (record t { response = some response })))
          (either_branch Fills (has_code t.request Codes.put)
            (sourced-Fills t _ (λ path response.
              find-Fills directory t path response layer.update_resource h.update_fills))
            (either_branch Fills (has_code t.request Codes.delete)
              (sourced-Fills t _ (λ path response.
                find-Fills directory t path response (layer.delete_resource path)
                  (h.delete_fills path)))
              tt)))
