-- ===== src/Layers/ObserveLayer/Notify.antt =====
-- observe_layer.py: notify and remove_subscriber.
use bubot_co_ap.Prelude.{
  ℕ, ◌+◌, Bool, false, ◌||◌, Option, none, some, List, [], ◌∷◌, ltb, ◌==◌, if◌then◌else◌,
}
use bubot_co_ap.Outcome.{Outcome, returns, type_error, attribute_error, or_raise, ◌>>=◌}
use bubot_co_ap.Dict
use bubot_co_ap.Defines.Types
use bubot_co_ap.Messages.Message.{Message, set_type}
use bubot_co_ap.Transaction.{Transaction}
use bubot_co_ap.Utils.Keys.{Builtins}
use bubot_co_ap.Layers.Keys.{key_token}
use bubot_co_ap.Layers.MessageLayer.{is_type}
use bubot_co_ap.Layers.ObserveLayer.{ObserveItem, ObserveLayer}

abbrev pub max_non_notifications : ℕ
max_non_notifications = 10

-- `transaction.response.type = n`
unfoldable pub type_answer : ℕ → Transaction → Outcome Transaction
type_answer n t = do
  response ← or_raise t.response attribute_error
  typed ← set_type response (some n)
  returns (record t { response = some typed })

-- The type of the notification to the observer of the item, and the item's counter after it.
unfoldable pub type_notification : ObserveItem → Transaction → Outcome (ObserveItem × Transaction)
unfolding type_answer
type_notification item t = do
  counter ← or_raise item.non_counter type_error
  if ltb max_non_notifications counter || is_type t.request Types.con
      then (do t' ← type_answer Types.con t; returns (record item { non_counter = some 0 }, t'))
      else if is_type t.request Types.non
      then (do
        t' ← type_answer Types.non t
        returns (record item { non_counter = some (counter + 1) }, t'))
      else returns (item, t)

-- One observer of the resource: its transaction as it is to be answered anew.
unfoldable pub notify_one : ℕ → ObserveItem → Transaction → Outcome (ObserveItem × Transaction)
unfolding type_notification
notify_one resource item t = do
  (item', t') ← type_notification item t
  response ← or_raise t'.response attribute_error
  returns (
    item',
    record t' {
      resource = some resource;
      response = some (record response { mid = none; token = none });
    },
  )

-- `transaction.resource in [resource]`
abbrev pub is_of : ℕ → Transaction → Bool
is_of resource t = elim t.resource [ none ↦ false | some r ↦ r == resource ]

-- notify(resource): the relations, the transactions and the cells to answer, in the relations' order.
unfoldable pub notify :
    ℕ → ObserveLayer → (ℕ → Transaction) → Outcome (ObserveLayer × (ℕ → Transaction) × List ℕ)
unfolding notify_one
notify resource [] cell = returns ([], cell, [])
notify resource ((k, item) ∷ layer) cell = do
  c ← or_raise item.transaction attribute_error
  if is_of resource (cell c)
      then (do
        (item', t) ← notify_one resource item (cell c)
        (layer', cell', cs) ← notify resource layer (λ i. if i == c then t else cell i)
        returns ((k, item') ∷ layer', cell', c ∷ cs))
      else (do
        (layer', cell', cs) ← notify resource layer cell
        returns ((k, item) ∷ layer', cell', cs))

-- The relations, and the cell whose transaction is complete.
unfoldable pub remove_subscriber :
    Builtins → ObserveLayer → Message → Outcome (ObserveLayer × Option ℕ)
remove_subscriber builtins layer message = do
  key ← key_token builtins message.destination message.token
  elim (Dict.get layer key) [
    | none ↦ returns (layer, none)
    | some item ↦ do
      c ← or_raise item.transaction attribute_error
      returns (Dict.remove layer key, some c)
  ]
