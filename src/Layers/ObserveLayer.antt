-- ===== src/Layers/ObserveLayer.antt =====
-- src/Bubot_CoAP/layers/observe_layer.py: who observes which resource. A relation names its transaction by
-- the number of its cell, and a transaction its resource by its number in the directory; None stands for
-- no transaction. A call that raises leaves no state: what it changed before is not modelled.
pub mod Notify
pub mod Registration
pub mod Confirmable
pub mod Observers
use bubot_co_ap.Prelude.{
  ℕ, Bool, true, false, ◌&&◌, Option, none, some, List, [], ltb, leb, ◌==◌, if◌then◌else◌,
}
use bubot_co_ap.Outcome.{Outcome, returns, type_error, attribute_error, or_raise, ◌>>=◌}
use bubot_co_ap.Dict
use bubot_co_ap.Dict.{Dict}
use bubot_co_ap.Defines.Types
use bubot_co_ap.Defines.Codes
use bubot_co_ap.Messages.Value.{Value, absent, int, str, bytes}
use bubot_co_ap.Messages.Message.{Message}
use bubot_co_ap.Messages.Accessors.{find_observe, set_observe}
use bubot_co_ap.Transaction.{Transaction}
use bubot_co_ap.Resources.{Resource}
use bubot_co_ap.Utils.Keys.{Builtins}
use bubot_co_ap.Layers.Keys.{key_token}
use bubot_co_ap.Layers.MessageLayer.{is_type}

pub record ObserveItem : Type 0 where
  pub timestamp : ℕ
  pub non_counter : Option ℕ
  pub allowed : Bool
  pub transaction : Option ℕ

-- ObserveLayer: its `_relations`.
abbrev pub ObserveLayer : Type 0
ObserveLayer = Dict ObserveItem

-- `m.observe == n`
unfoldable pub is_observe : Option Value → ℕ → Bool
is_observe none n = false
is_observe (some (int v)) n = v == n
is_observe (some absent) n = false
is_observe (some (str s)) n = false
is_observe (some (bytes b)) n = false

-- The layer after send_request; the request stays as it is.
unfoldable pub send_request : Builtins → ObserveLayer → Message → ℕ → Outcome ObserveLayer
unfolding is_observe
send_request builtins layer request now = do
  observe ← find_observe request.options
  if is_observe observe 0
      then (do
        key ← key_token builtins request.destination request.token
        returns (
            Dict.put layer key
              (record { timestamp = now; non_counter = none; allowed = true; transaction = none })))
      else returns layer

unfoldable pub receive_response : Builtins → ObserveLayer → Transaction → Outcome Transaction
receive_response builtins layer t = do
  response ← or_raise t.response attribute_error
  key ← key_token builtins response.source response.token
  returns (
      if Dict.contains layer key && is_type response Types.con
      then record t { notification = true }
      else t)

unfoldable pub send_empty : Builtins → ObserveLayer → Message → Outcome ObserveLayer
send_empty builtins layer message = do
  key ← key_token builtins message.destination message.token
  returns (
      if Dict.contains layer key && is_type message Types.rst then Dict.remove layer key else layer)

-- The layer after receive_request of the transaction in cell c.
unfoldable pub receive_request :
    Builtins → ObserveLayer → Transaction → ℕ → ℕ → Outcome ObserveLayer
unfolding is_observe
receive_request builtins layer t c now = do
  observe ← find_observe t.request.options
  if is_observe observe 0
      then (do
        key ← key_token builtins t.request.source t.request.token
        returns (
            Dict.put layer key (record {
              timestamp = now;
              non_counter = some 0;
              allowed = Dict.contains layer key;
              transaction = some c;
            })))
      else if is_observe observe 1
      then (do
        key ← key_token builtins t.request.source t.request.token
        returns (Dict.remove layer key))
      else returns layer

unfoldable pub receive_empty :
    Builtins → ObserveLayer → Message → Transaction → Outcome (ObserveLayer × Transaction)
receive_empty builtins layer empty t =
    if is_type empty Types.rst
    then (do
      key ← key_token builtins t.request.source t.request.token
      returns (Dict.remove layer key, record t { completed = true }))
    else returns (layer, t)

-- send_response of a response to an observer, with CONTENT.
unfoldable pub send_content :
    (ℕ → Resource)
    → ObserveLayer
    → ℕ
    → ObserveItem
    → Transaction
    → Message
    → ℕ
    → ℕ
    → Outcome (ObserveLayer × Transaction)
send_content directory layer key item t response c now =
    let dropped = returns (Dict.remove layer key, t) in
    elim t.resource [
      | none ↦ dropped
      | some r ↦
          if (directory r).observable
          then (do
            counted ← set_observe response (int (directory r).observe_count)
            returns (
              Dict.put layer key
                  (record item { timestamp = now; allowed = true; transaction = some c }),
              record t { response = some counted },
            ))
          else dropped
    ]

-- send_response of a transaction whose key has the relation.
unfoldable pub send_observed :
    (ℕ → Resource)
    → ObserveLayer
    → ℕ
    → ObserveItem
    → Transaction
    → ℕ
    → ℕ
    → Outcome (ObserveLayer × Transaction)
unfolding send_content
send_observed directory layer key item t c now = do
  response ← or_raise t.response attribute_error
  code ← or_raise response.code type_error
  if code == Codes.content
      then send_content directory layer key item t response c now
      else returns (if leb Codes.error_lower_bound code then Dict.remove layer key else layer, t)

unfoldable pub send_keyed :
    (ℕ → Resource) → ObserveLayer → ℕ → Transaction → ℕ → ℕ → Outcome (ObserveLayer × Transaction)
unfolding send_observed
send_keyed directory layer key t c now = elim (Dict.get layer key) [
  | none ↦ returns (layer, t)
  | some item ↦ send_observed directory layer key item t c now
]

unfoldable pub send_response :
    Builtins
    → (ℕ → Resource)
    → ObserveLayer
    → Transaction
    → ℕ
    → ℕ
    → Outcome (ObserveLayer × Transaction)
unfolding send_keyed
send_response builtins directory layer t c now = do
  key ← key_token builtins t.request.source t.request.token
  send_keyed directory layer key t c now
