-- ===== src/Layers/MessageLayer/Empty.antt =====
-- message_layer.py: send_empty.
use bubot_co_ap.Prelude.{ℕ, true, Option, none, some, List, if◌then◌else◌}
use bubot_co_ap.Outcome.{Outcome, returns, attribute_error, or_raise, ◌>>=◌}
use bubot_co_ap.Defines.Types
use bubot_co_ap.Messages.Message.{
  Message, get_scheme, set_mid, set_token, set_code, set_acknowledged, set_rejected,
}
use bubot_co_ap.Utils.Keys.{Builtins}
use bubot_co_ap.Layers.Keys.{key_token, key_mid}
use bubot_co_ap.Layers.Table
use bubot_co_ap.Layers.Table.{Table, Key, int, octets, nothing}
use bubot_co_ap.Layers.MessageLayer.{MessageLayer, write, is_type}
use bubot_co_ap.Layers.MessageLayer.Sending.{fill_mid}

-- Which message of the transaction `related` is; None is equal to a response that is None.
pub data Related : Type 0 where
  to_request to_response to_nothing : Related

-- The destination, the scheme and code 0.
unfoldable pub answer_to : Message → Message → Outcome Message
answer_to related message = do
  m ← set_code message (some 0)
  returns (record m { destination = related.source; scheme = some (get_scheme related) })

-- The source of an ACK: the setter refuses None.
unfoldable pub from_destination : Message → Message → Outcome Message
from_destination related m = do
  source ← or_raise related.destination attribute_error
  returns (record m { source = some source })

unfoldable pub acknowledge_request : MessageLayer → ℕ → Message → Outcome (MessageLayer × Message)
unfolding answer_to from_destination write
acknowledge_request l c message = do
  let t = l.cell c
  m ← set_mid message t.request.mid
  m ← answer_to t.request m
  m ← from_destination t.request m
  returns (write l c (record t { request = set_acknowledged t.request true; completed = true }), m)

unfoldable pub acknowledge_response :
    List ℕ → MessageLayer → ℕ → Message → Outcome (MessageLayer × Message)
unfolding answer_to from_destination write
acknowledge_response fresh l c message = do
  let t = l.cell c
  r ← or_raise t.response attribute_error
  m ← set_mid message r.mid
  m ← answer_to r m
  m ← set_token fresh m r.token
  m ← from_destination r m
  returns (write l c (record t { response = some (set_acknowledged r true); completed = true }), m)

unfoldable pub reject_request :
    List ℕ → MessageLayer → ℕ → Message → Outcome (MessageLayer × Message)
unfolding answer_to fill_mid write
reject_request fresh l c message = do
  let t = l.cell c
  (l', m) ← fill_mid l (record message { mid = t.request.mid })
  m ← answer_to t.request m
  m ← set_token fresh m t.request.token
  returns (write l' c (record t { request = set_rejected t.request true }), m)

unfoldable pub reject_response :
    List ℕ → MessageLayer → ℕ → Message → Outcome (MessageLayer × Message)
unfolding answer_to fill_mid write
reject_response fresh l c message = do
  let t = l.cell c
  r ← or_raise t.response attribute_error
  (l', m) ← fill_mid l (record message { mid = r.mid })
  m ← answer_to r m
  m ← set_token fresh m r.token
  returns (write l' c (record t { response = some (set_rejected r true); completed = true }), m)

-- send_empty of a transaction.
unfoldable pub send_related :
    List ℕ → MessageLayer → ℕ → Related → Message → Outcome (MessageLayer × Message)
unfolding acknowledge_request acknowledge_response reject_request reject_response
send_related fresh l c related message =
    let on_request =
      if is_type message Types.ack
      then acknowledge_request l c message
      else if is_type message Types.rst
      then reject_request fresh l c message
      else returns (l, message) in
    let on_response =
      if is_type message Types.ack
      then acknowledge_response fresh l c message
      else if is_type message Types.rst
      then reject_response fresh l c message
      else returns (l, message) in
    elim related [
      | to_request ↦ on_request
      | to_response ↦ on_response
      | to_nothing ↦ elim (l.cell c).response [ none ↦ on_response | some r ↦ returns (l, message) ]
    ]

unfoldable pub send_empty :
    Builtins
    → List ℕ
    → MessageLayer
    → Option ℕ
    → Related
    → Message
    → Outcome (MessageLayer × Message)
unfolding send_related
send_empty builtins fresh l (some c) related message = send_related fresh l c related message
send_empty builtins fresh l none related message = do
  by_mid ← key_mid builtins message.destination message.mid
  by_token ← key_token builtins message.destination message.token
  elim (Table.get l.transactions (int by_mid)) [
    | some c ↦ send_related fresh l c to_response message
    | none ↦ elim (Table.get l.transactions_token (int by_token)) [
      | some c ↦ send_related fresh l c to_response message
      | none ↦ returns (l, message)
    ]
  ]
