-- ===== src/Layers/ObserveLayer/Registration.antt =====
-- observe_layer.py: from the registration of an observer to its end.
use bubot_co_ap.Prelude.{
  ℕ, ◌≡◌, refl, true, false, none, some, [], arith, leb, ◌==◌, if◌then◌else◌, ◌∙◌, elim-eq_some,
}
use bubot_co_ap.Outcome.{Outcome, returns, attribute_error, type_error, or_raise, ◌>>=◌}
use bubot_co_ap.Dict
use bubot_co_ap.Dict.{dict_laws, get-put, get-remove}
use bubot_co_ap.Defines.Types
use bubot_co_ap.Defines.Codes
use bubot_co_ap.Messages.Value.{int}
use bubot_co_ap.Messages.Message.{Message}
use bubot_co_ap.Messages.Accessors.{find_observe, set_observe}
use bubot_co_ap.Transaction.{Transaction}
use bubot_co_ap.Resources.{Resource, new_resource}
use bubot_co_ap.Utils.Keys.{Builtins}
use bubot_co_ap.Layers.Keys.{key_token}
use bubot_co_ap.Layers.ObserveLayer.{
  ObserveItem, ObserveLayer, receive_request, receive_empty, send_response, send_content,
  send_keyed, send_observed,
}

-- A request with Observe 0, of which the handler made a response for a resource.
pub record IsObservation (builtins : Builtins) (t answered : Transaction) : Type 0 where
  pub key : ℕ
  pub resource : ℕ
  pub response : Message
  pub code : ℕ
  pub observe_asked : find_observe t.request.options ≡ returns (some (int 0))
  pub key_of_request : key_token builtins t.request.source t.request.token ≡ returns key
  pub request_kept : answered.request ≡ t.request
  pub resource_set : answered.resource ≡ some resource
  pub response_set : answered.response ≡ some response
  pub code_set : response.code ≡ some code

module _ (builtins : Builtins) (directory : ℕ → Resource) (layer : ObserveLayer)
    (t answered : Transaction) (c now later : ℕ) (h : IsObservation builtins t answered) where
  -- The relation that the request opens.
  abbrev opened : ObserveItem
  opened = record {
    timestamp = now;
    non_counter = some 0;
    allowed = Dict.contains layer h.key;
    transaction = some c;
  }

  relation_opened : receive_request builtins layer t c now ≡ returns (Dict.put layer h.key opened)
  unfolding receive_request
  relation_opened = rw (h.observe_asked, h.key_of_request) refl

  relation_found : Dict.get (Dict.put layer h.key opened) h.key ≡ some opened
  relation_found = get-put layer h.key h.key opened ∙ ground arith

  answered_keyed : key_token builtins answered.request.source answered.request.token ≡ returns h.key
  answered_keyed = rw h.request_kept h.key_of_request

  code_read : or_raise h.response.code type_error ≡ returns h.code
  code_read = rw h.code_set refl

  response_read : or_raise answered.response attribute_error ≡ returns h.response
  response_read = rw h.response_set refl

  counted_content : ObserveLayer → ObserveItem → Outcome (ObserveLayer × Transaction)
  counted_content registered item = do
    counted ← set_observe h.response (int (directory h.resource).observe_count)
    returns (
      Dict.put registered h.key
          (record item { timestamp = later; allowed = true; transaction = some c }),
      record answered { response = some counted },
    )

  content_counted :
      (registered : ObserveLayer) (item : ObserveItem)
      → (directory h.resource).observable ≡ true
      → send_content directory registered h.key item answered h.response c later
        ≡ counted_content registered item
  unfolding send_content counted_content
  content_counted registered item observable =
      elim-eq_some answered.resource h.resource _ _ h.resource_set ∙ rw observable refl

  -- What send_response does to a layer with a relation under the key.
  content_sent :
      (registered : ObserveLayer) (item : ObserveItem)
      → Dict.get registered h.key ≡ some item
      → h.code ≡ Codes.content
      → (directory h.resource).observable ≡ true
      → send_response builtins directory registered answered c later
        ≡ counted_content registered item
  unfolding send_response
  content_sent registered item found content observable =
      let content_code : (h.code == Codes.content) ≡ true = rw content refl in
      rw
        (
          answered_keyed,
          send_keyed,
          found,
          send_observed,
          response_read,
          code_read,
          content_code,
          content_counted registered item observable,
        )
        refl

  error_sent :
      (registered : ObserveLayer) (item : ObserveItem)
      → Dict.get registered h.key ≡ some item
      → leb Codes.error_lower_bound h.code ≡ true
      → send_response builtins directory registered answered c later
        ≡ returns (Dict.remove registered h.key, answered)
  unfolding send_response
  error_sent registered item found error =
      let other_code : (h.code == Codes.content) ≡ false = ground arith in
      rw
        (
          answered_keyed, send_keyed, found, send_observed, h.response_set, h.code_set, other_code,
          error,
        )
        refl

-- Of a request with Observe 0 and the CONTENT that answers it for an observable resource: send_response
-- after receive_request adds the resource's observe count to the response, or raises what that raises; the
-- relation under the request's key is then an allowed one of that transaction, no NON counted, and every
-- other relation is as before.
pub send_response-receive_request :
    (builtins : Builtins) (directory : ℕ → Resource) (layer : ObserveLayer)
    (t answered : Transaction) (c now later : ℕ) (h : IsObservation builtins t answered)
    → h.code ≡ Codes.content
    → (directory h.resource).observable ≡ true
    → (layer' : ObserveLayer) × ((receive_request builtins layer t c now >>= λ registered.
          send_response builtins directory registered answered c later)
        ≡ (set_observe h.response (int (directory h.resource).observe_count) >>= λ counted.
            returns (layer', record answered { response = some counted })))
      × ((j : ℕ)
          → Dict.get layer' j ≡ (
              if h.key == j
              then some (record {
                timestamp = later;
                non_counter = some 0;
                allowed = true;
                transaction = some c;
              })
              else Dict.get layer j))
send_response-receive_request builtins directory layer t answered c now later h content observable =
    let item = opened builtins directory layer t answered c now later h in
    let found = relation_found builtins directory layer t answered c now later h in
    let last : ObserveItem = record item {
      timestamp = later;
      allowed = true;
      transaction = some c;
    } in
    (
      Dict.put (Dict.put layer h.key item) h.key last,
      rw (relation_opened builtins directory layer t answered c now later h) (
          unfold counted_content in
          content_sent builtins directory layer t answered c now later h _ item found content
            observable),
      λ j.
          ground
            (arith, get-put (Dict.put layer h.key item) h.key j last, get-put layer h.key j item),
    )

-- Of a request with Observe 0 and an answer with an error code: after send_response no relation is under
-- the request's key, every other one is as before, and the response is unchanged.
send_response-receive_request_error :
    (builtins : Builtins) (directory : ℕ → Resource) (layer : ObserveLayer)
    (t answered : Transaction) (c now later : ℕ) (h : IsObservation builtins t answered)
    → leb Codes.error_lower_bound h.code ≡ true
    → (layer' : ObserveLayer) × ((receive_request builtins layer t c now >>= λ registered.
          send_response builtins directory registered answered c later)
        ≡ returns (layer', answered))
      × ((j : ℕ) → Dict.get layer' j ≡ (if h.key == j then none else Dict.get layer j))
send_response-receive_request_error builtins directory layer t answered c now later h error =
    let item = opened builtins directory layer t answered c now later h in
    let found = relation_found builtins directory layer t answered c now later h in
    (
      Dict.remove (Dict.put layer h.key item) h.key,
      rw (relation_opened builtins directory layer t answered c now later h)
          (error_sent builtins directory layer t answered c now later h _ item found error),
      λ j.
          ground
            (arith, get-remove (Dict.put layer h.key item) h.key j, get-put layer h.key j item),
    )

-- A relation that a request with Observe 0 opened is gone once an RST for its transaction comes in,
-- which completes the transaction; the other relations are as before.
pub receive_empty-receive_request :
    (builtins : Builtins) (layer : ObserveLayer) (empty : Message) (t answered : Transaction)
    (c now : ℕ) (h : IsObservation builtins t answered)
    → empty.type ≡ some Types.rst
    → (layer' : ObserveLayer) × ((receive_request builtins layer t c now >>= λ registered.
          receive_empty builtins registered empty answered)
        ≡ returns (layer', record answered { completed = true }))
      × ((j : ℕ) → Dict.get layer' j ≡ (if h.key == j then none else Dict.get layer j))
unfolding receive_empty
receive_empty-receive_request builtins layer empty t answered c now h rejected =
    let directory : ℕ → Resource = λ r. new_resource [] true true true in
    let item = opened builtins directory layer t answered c now now h in
    (
      Dict.remove (Dict.put layer h.key item) h.key,
      rw
          (
            relation_opened builtins directory layer t answered c now now h,
            rejected,
            answered_keyed builtins directory layer t answered c now now h,
          )
          refl,
      λ j.
          ground
            (arith, get-remove (Dict.put layer h.key item) h.key j, get-put layer h.key j item),
    )
