-- ===== src/Layers/MessageLayer/Sending.antt =====
-- message_layer.py: send_request and send_response.
use bubot_co_ap.Prelude.{ℕ, true, ◌&&◌, not, Option, none, some, List, if◌then◌else◌}
use bubot_co_ap.Outcome.{
  Outcome, returns, type_error, attribute_error, assertion_error, or_raise, raise_if, ◌>>=◌, ◌>>◌,
}
use bubot_co_ap.Defines.Types
use bubot_co_ap.Messages.Message.{
  Message, set_type, set_mid, set_token, set_acknowledged, is_request_object,
}
use bubot_co_ap.Transaction.{Transaction, create}
use bubot_co_ap.Utils.Keys.{Builtins}
use bubot_co_ap.Layers.Keys.{key_token, key_mid}
use bubot_co_ap.Layers.Table
use bubot_co_ap.Layers.Table.{Table, Key, int, octets, nothing}
use bubot_co_ap.Layers.MessageLayer.{MessageLayer, allocate, write, fetch_mid, is_type}

-- `if m.mid is None: m.mid = self.fetch_mid()`
unfoldable pub fill_mid : MessageLayer → Message → Outcome (MessageLayer × Message)
unfolding fetch_mid
fill_mid l m = elim m.mid [
  | some n ↦ returns (l, m)
  | none ↦ let (l', n) = fetch_mid l in do m' ← set_mid m (some n); returns (l', m')
]

-- The request as it goes out: a type, a message id and a token of its own.
unfoldable pub fill_request : List ℕ → MessageLayer → Message → ℕ → Outcome (MessageLayer × Message)
unfolding fill_mid
fill_request fresh l request now = do
  let stamped : Message = record request { timestamp = some now }
  let typed : Message = elim request.type [
    | some n ↦ stamped
    | none ↦ record stamped { type = some Types.con }
  ]
  (l', m) ← fill_mid l typed
  returns (l', elim m.token [ some t ↦ m | none ↦ record m { token = some fresh } ])

unfoldable pub send_request :
    Builtins → List ℕ → MessageLayer → Message → ℕ → Outcome (MessageLayer × ℕ)
unfolding fill_request create allocate
send_request builtins fresh l request now = do
  raise_if (not (is_request_object request)) assertion_error
  destination ← or_raise request.destination type_error
  let t = create request now
  (l, filled) ← fill_request fresh l request now
  let (l, c) = allocate l (record t { request = filled })
  if request.multicast
      then (do
        by_token ← key_token builtins filled.source filled.token
        returns (
          record l {
            transactions_sent_token = Table.put l.transactions_sent_token (int by_token) c;
          },
          c,
        ))
      else (do
        by_mid ← key_mid builtins filled.destination filled.mid
        by_token ← key_token builtins filled.destination filled.token
        returns (
          record l {
            transactions_sent = Table.put l.transactions_sent (int by_mid) c;
            transactions_sent_token = Table.put l.transactions_sent_token (int by_token) c;
          },
          c,
        ))

-- A response without a type gets one; the result is the transaction.
unfoldable pub type_response : List ℕ → Transaction → Message → Outcome Transaction
type_response fresh t response =
    if is_type t.request Types.con && not t.request.acknowledged
    then (do
      m ← set_type response (some Types.ack)
      m ← set_mid m t.request.mid
      returns (record t { response = some (set_acknowledged m true); completed = true }))
    else if is_type t.request Types.non
    then (do m ← set_type response (some Types.non); returns (record t { response = some m }))
    else (do
      m ← set_type response (some Types.con)
      m ← set_token fresh m t.request.token
      returns (record t { response = some m }))

-- A response without a message id gets one, under which the transaction is found again.
unfoldable pub register_response :
    Builtins → MessageLayer → ℕ → Message → Outcome (MessageLayer × Message)
unfolding fill_mid
register_response builtins l c response = elim response.mid [
  | some n ↦ returns (l, response)
  | none ↦ do
    (l, filled) ← fill_mid l response
    by_mid ← key_mid builtins filled.destination filled.mid
    returns (record l { transactions = Table.put l.transactions (int by_mid) c }, filled)
]

-- send_response of a transaction that has a response.
unfoldable pub send_prepared :
    Builtins → List ℕ → MessageLayer → ℕ → Message → Outcome (MessageLayer × Option ℕ)
unfolding type_response register_response write
send_prepared builtins fresh l c response = do
  t ← elim response.type [
    | some n ↦ returns (l.cell c)
    | none ↦ type_response fresh (l.cell c) response
  ]
  typed ← or_raise t.response attribute_error
  (l', filled) ← register_response builtins l c typed
  returns (
    write l' c (record t { response = some filled; request = set_acknowledged t.request true }),
    some c,
  )

unfoldable pub send_response :
    Builtins → List ℕ → MessageLayer → ℕ → Outcome (MessageLayer × Option ℕ)
unfolding send_prepared write
send_response builtins fresh l c = elim (l.cell c).response [
  | none ↦ returns (write l c (record (l.cell c) { completed = true }), none)
  | some response ↦ send_prepared builtins fresh l c response
]
