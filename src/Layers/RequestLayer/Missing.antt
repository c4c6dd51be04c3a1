-- ===== src/Layers/RequestLayer/Missing.antt =====
-- request_layer.py: requests for what the server does not have.
use bubot_co_ap.Prelude.{
  ℕ, ◌≤◌, ◌≡◌, ◌⊎◌, inl, inr, refl, false, none, some, List, ◌∷◌, length, either_same,
}
use bubot_co_ap.Outcome.{returns}
use bubot_co_ap.Text.{Text, text}
use bubot_co_ap.Defines.Codes
use bubot_co_ap.Defines.{known_code}
use bubot_co_ap.Messages.Message.{Message, Address, set_code}
use bubot_co_ap.Messages.Request.{uri_path}
use bubot_co_ap.Transaction.{Transaction}
use bubot_co_ap.Server.Directory.{Directory, lookup}
pub use bubot_co_ap.Layers.RequestLayer.Addressed.{answer}
use bubot_co_ap.Layers.RequestLayer.Addressed.{IsAddressed, prepared, sourced, method_is}
use bubot_co_ap.Layers.RequestLayer.{
  Handler, ResourceLayer, discovery_url, is_path, not_found, find, handle_get, handle_put,
  handle_delete, receive_request,
}

-- A unicast GET, PUT or DELETE with an own address and a token, for a path without a resource, which
-- is not the discovery's.
pub record IsMissing (directory : Directory) (t : Transaction) : Type 0 where
  pub code : ℕ
  pub path : Text
  pub here : Address
  pub token : List ℕ
  pub code_set : t.request.code ≡ some code
  pub is_method : (code ≡ Codes.get) ⊎ (code ≡ Codes.put) ⊎ (code ≡ Codes.delete)
  pub unicast : t.request.multicast ≡ false
  pub path_read : uri_path t.request ≡ returns path
  pub destination_set : t.request.destination ≡ some here
  pub token_set : t.request.token ≡ some token
  pub token_short : length token ≤ 256
  pub no_resource : lookup directory (47 ∷ path) ≡ none
  pub no_discovery : is_path (47 ∷ path) discovery_url ≡ false

refusal_coded :
    (m : Message)
    → set_code m (some Codes.not_found) ≡ returns (record m { code = some Codes.not_found })
unfolding set_code known_code
refusal_coded m = refl

module _ (fresh : List ℕ) (directory : Directory) (t : Transaction)
    (h : IsMissing directory t) where
  -- What of the request the response is made of.
  abbrev addressed : IsAddressed t
  addressed = record {
    path = h.path;
    here = h.here;
    token = h.token;
    unicast = h.unicast;
    path_read = h.path_read;
    destination_set = h.destination_set;
    token_set = h.token_set;
    token_short = h.token_short;
  }

  abbrev refused : Transaction
  refused = record t {
    response = some (record (answer t.request h.here h.token) { code = some Codes.not_found });
  }

  not_found_made :
      not_found directory t (answer t.request h.here h.token) ≡ returns (directory, refused)
  unfolding not_found
  not_found_made = rw (refusal_coded (answer t.request h.here h.token)) refl

  not_there :
      (found : Handler)
      → find directory t (47 ∷ h.path) (answer t.request h.here h.token) found
        ≡ returns (directory, refused)
  unfolding find
  not_there found = rw (find, h.no_resource) not_found_made

  get_refused :
      (layer : ResourceLayer) → handle_get fresh layer directory t ≡ returns (directory, refused)
  unfolding handle_get
  get_refused layer =
      rw (prepared fresh t addressed, h.no_discovery, not_there layer.get_resource, not_found_made)
        (either_same (is_path (47 ∷ h.path) (text "/")) (returns (directory, refused)))

  put_refused :
      (layer : ResourceLayer) → handle_put fresh layer directory t ≡ returns (directory, refused)
  unfolding handle_put
  put_refused layer =
      rw (prepared fresh t addressed, sourced t addressed) (not_there layer.update_resource)

  delete_refused :
      (layer : ResourceLayer) → handle_delete fresh layer directory t ≡ returns (directory, refused)
  unfolding handle_delete
  delete_refused layer =
      rw (prepared fresh t addressed, sourced t addressed)
        (not_there (layer.delete_resource (47 ∷ h.path)))

-- Of a unicast GET, PUT or DELETE with an own address and a token of at most 256 bytes, for a path without a
-- resource, and not for the discovery: whatever the resource layer does, the response is NOT_FOUND
-- from the request's destination to its source, with its token, and nothing else of the transaction
-- and of the resources changes.
pub receive_request_missing :
    (fresh : List ℕ) (layer : ResourceLayer) (directory : Directory) (t : Transaction)
    (h : IsMissing directory t)
    → receive_request fresh layer directory t
      ≡ returns (
        directory,
        record t {
          response =
              some (record (answer t.request h.here h.token) { code = some Codes.not_found });
        },
      )
unfolding receive_request
receive_request_missing fresh layer directory t h = elim h.is_method [
  | inl get ↦
      let method = method_is t.request h.code Codes.get h.code_set get in
      rw (method Codes.get) (get_refused fresh directory t h layer)
  | inr other ↦ elim other [
    | inl put ↦
        let method = method_is t.request h.code Codes.put h.code_set put in
        rw (method Codes.get, method Codes.post, method Codes.put)
          (put_refused fresh directory t h layer)
    | inr delete ↦
        let method = method_is t.request h.code Codes.delete h.code_set delete in
        rw (method Codes.get, method Codes.post, method Codes.put, method Codes.delete)
          (delete_refused fresh directory t h layer)
  ]
]
