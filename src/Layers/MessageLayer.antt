-- ===== src/Layers/MessageLayer.antt =====
-- src/Bubot_CoAP/layers/message_layer.py. Transactions are objects that several tables share: the
-- tables hold numbers of cells, and the cells the transactions. A cell that no call of `allocate` gave
-- out holds a transaction that nothing refers to. A lock that another task holds is not modelled, and
-- neither is what a call that raises has changed before. Times are in a unit in which all are whole.
pub mod Sending
pub mod Empty
pub mod Purge
pub mod Invariant
pub mod Numbers
pub mod Pairing
pub mod Duplicates
pub mod Purging
use bubot_co_ap.Prelude.{
  ℕ, ◌+◌, ◌%◌, Bool, true, false, ◌&&◌, ◌||◌, not, Option, none, some, List, [], ◌∷◌, ltb, ◌==◌,
  if◌then◌else◌,
}
use bubot_co_ap.Outcome.{Outcome, returns, type_error, attribute_error, or_raise, ◌>>=◌}
use bubot_co_ap.Text.{Text, text}
use bubot_co_ap.Defines.Types
use bubot_co_ap.Messages.Message.{
  Message, Address, Kind, new_message, set_type, set_mid, set_token, set_code, set_acknowledged,
  set_rejected,
}
use bubot_co_ap.Transaction.{Transaction, new_transaction, create}
use bubot_co_ap.Utils.Keys.{Builtins}
use bubot_co_ap.Layers.Keys.{key_token, key_mid}
use bubot_co_ap.Layers.Table
use bubot_co_ap.Layers.Table.{Table, Key, int, octets, nothing}

pub record MessageLayer : Type 0 where
  pub transactions : Table ℕ
  pub transactions_token : Table ℕ
  pub transactions_sent : Table ℕ
  pub transactions_sent_token : Table ℕ
  pub current_mid : ℕ
  pub cell : ℕ → Transaction
  pub next_cell : ℕ

-- MessageLayer(server, starting_mid); a mid that is None is drawn from 1 to 1000.
unfoldable pub new_message_layer : ℕ → MessageLayer
new_message_layer mid = record {
  transactions = [];
  transactions_token = [];
  transactions_sent = [];
  transactions_sent_token = [];
  current_mid = mid;
  cell = λ i. record (new_transaction (new_message Kind.request)) { timestamp = some 0 };
  next_cell = 0;
}

-- A new object, and a write to one.
unfoldable pub allocate : MessageLayer → Transaction → MessageLayer × ℕ
allocate l t = (
  record l { cell = λ i. if i == l.next_cell then t else l.cell i; next_cell = l.next_cell + 1 },
  l.next_cell,
)

unfoldable pub write : MessageLayer → ℕ → Transaction → MessageLayer
write l c t = record l { cell = λ i. if i == c then t else l.cell i }

unfoldable pub fetch_mid : MessageLayer → MessageLayer × ℕ
fetch_mid l = (record l { current_mid = (l.current_mid + 1) % 65535 }, l.current_mid)

abbrev pub token_key : Option (List ℕ) → Key
token_key none = nothing
token_key (some t) = octets t

abbrev pub number_key : Option ℕ → Key
number_key none = nothing
number_key (some n) = int n

-- `if request.mid`
abbrev pub has_mid : Option ℕ → Bool
has_mid none = false
has_mid (some n) = ltb 0 n

-- The transaction of a request that is none of the duplicates.
unfoldable pub store_request : MessageLayer → Message → ℕ → Key → Key → Outcome (MessageLayer × ℕ)
unfolding allocate write create
store_request l request now by_mid by_token =
    let fresh = do
      let t = create request now
      let (l', c) = allocate l t
      returns (
        record l' {
          transactions_token = Table.put l'.transactions_token by_token c;
          transactions = Table.put l'.transactions by_mid c;
        },
        c,
      )
    in elim (Table.get l.transactions_token by_token) [
      | none ↦ fresh
      | some c ↦ elim (l.cell c).response [
        | none ↦ fresh
        | some response ↦
            let l' = write l c (record (l.cell c) { request = request }) in
            returns (record l' { transactions = Table.put l'.transactions by_mid c }, c)
      ]
    ]

-- The object that a duplicate belongs to.
unfoldable pub duplicate : MessageLayer → ℕ → MessageLayer
unfolding write
duplicate l c =
    let t = l.cell c in write l c (record t { request = record t.request { duplicated = true } })

unfoldable pub receive_request : Builtins → MessageLayer → Message → ℕ → Outcome (MessageLayer × ℕ)
unfolding store_request duplicate
receive_request builtins l request now =
    let stamped = record request { timestamp = some now } in
    if request.multicast
    then (do
      source ← or_raise request.source type_error
      elim (Table.get l.transactions_token (token_key request.token)) [
        | some c ↦ returns (duplicate l c, c)
        | none ↦ store_request l stamped now (number_key request.mid) (token_key request.token)
      ])
    else (do
      by_mid ← key_mid builtins request.source request.mid
      by_token ← key_token builtins request.source request.token
      elim (if has_mid request.mid then Table.get l.transactions (int by_mid) else none) [
        | some c ↦ returns (duplicate l c, c)
        | none ↦ store_request l stamped now (int by_mid) (int by_token)
      ])

-- `m.type == n`
abbrev pub is_type : Message → ℕ → Bool
is_type m n = elim m.type [ none ↦ false | some t ↦ t == n ]

-- `response.token != transaction.request.token`
unfoldable pub same_token : Option (List ℕ) → Option (List ℕ) → Bool
same_token a b = Table.same_key (token_key a) (token_key b)

-- `transaction.retransmit_stop.set()`, if there is one.
unfoldable pub stop_retransmission : Transaction → Transaction
stop_retransmission t = elim t.retransmit_stop [
  | none ↦ t
  | some b ↦ record t { retransmit_stop = some true }
]

-- The transaction that a response is paired with, none for "Un-Matched" and for another token.
unfoldable pub match_response : Builtins → MessageLayer → Message → Outcome (Option ℕ)
unfolding same_token
match_response builtins l response = do
  by_mid ← key_mid builtins response.source response.mid
  by_token ← key_token builtins response.source response.token
  by_destination ← key_token builtins response.destination response.token
  let checked : ℕ → Outcome (Option ℕ) =
      λ c. returns (if same_token response.token (l.cell c).request.token then some c else none)
  let others : Outcome (Option ℕ) = elim (Table.get l.transactions_sent_token (int by_token)) [
    | some c ↦ returns (some c)
    | none ↦ elim (Table.get l.transactions_sent_token (int by_destination)) [
      | some c ↦ checked c
      | none ↦ returns none
    ]
  ]
  let acknowledges = is_type response Types.ack || is_type response Types.rst
  elim (if acknowledges then Table.get l.transactions_sent (int by_mid) else none) [
    | some c ↦ checked c
    | none ↦ others
  ]

-- The transaction and whether to acknowledge the response; None where none is paired.
unfoldable pub receive_response :
    Builtins → MessageLayer → Message → Outcome (MessageLayer × Option (ℕ × Bool))
unfolding match_response write stop_retransmission
receive_response builtins l response = do
  found ← match_response builtins l response
  elim found [
    | none ↦ returns (l, none)
    | some c ↦
        let t = l.cell c in
        let answered = record t {
          request = set_acknowledged t.request true;
          completed = true;
          response = some response;
        } in
        returns (write l c (stop_retransmission answered), some (c, is_type response Types.con))
  ]

-- What an empty message of the type does to the transaction.
unfoldable pub react : Transaction → Option ℕ → Outcome Transaction
react t none = returns t
react t (some n) =
    if n == Types.ack
    then (if not t.request.acknowledged
        then returns (record t { request = set_acknowledged t.request true })
        else elim t.response [
          | none ↦ returns t
          | some r ↦
              returns (
                if r.acknowledged
                then t
                else record t { response = some (set_acknowledged r true) })
        ])
    else if n == Types.rst
    then (if not t.request.acknowledged
        then returns (record t { request = set_rejected t.request true })
        else (do
          r ← or_raise t.response attribute_error
          returns
              (if r.acknowledged then t else record t { response = some (set_rejected r true) })))
    else if n == Types.con
    then returns (record t { request = set_acknowledged t.request true })
    else returns t

-- The address of all nodes, by the family that getaddrinfo finds for the host.
unfoldable pub all_coap_nodes : (Text → Bool) → Text → Text
all_coap_nodes is_ipv6 host = if is_ipv6 host then text "FF00::FD" else text "224.0.1.187"

unfoldable pub match_empty : Builtins → (Text → Bool) → MessageLayer → Message → Outcome (Option ℕ)
unfolding all_coap_nodes
match_empty builtins is_ipv6 l message = do
  source ← or_raise message.source type_error
  let everyone : Address = record source { host = all_coap_nodes is_ipv6 source.host }
  by_mid ← key_mid builtins (some source) message.mid
  by_mid_multicast ← key_mid builtins (some everyone) message.mid
  by_token ← key_token builtins (some source) message.token
  by_token_multicast ← key_token builtins (some everyone) message.token
  returns (elim (Table.get l.transactions (int by_mid)) [
    | some c ↦ some c
    | none ↦ elim (Table.get l.transactions_token (int by_token)) [
      | some c ↦ some c
      | none ↦ elim (Table.get l.transactions (int by_mid_multicast)) [
        | some c ↦ some c
        | none ↦ Table.get l.transactions_token (int by_token_multicast)
      ]
    ]
  ])

unfoldable pub receive_empty :
    Builtins → (Text → Bool) → MessageLayer → Message → Outcome (MessageLayer × Option ℕ)
unfolding match_empty react write stop_retransmission
receive_empty builtins is_ipv6 l message = do
  found ← match_empty builtins is_ipv6 l message
  elim found [
    | none ↦ returns (l, none)
    | some c ↦ do
      t ← react (l.cell c) message.type
      returns (write l c (stop_retransmission t), some c)
  ]
