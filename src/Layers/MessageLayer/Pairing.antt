-- ===== src/Layers/MessageLayer/Pairing.antt =====
-- message_layer.py, send_request and receive_response: which response belongs to which request.
use bubot_co_ap.Prelude.{
  ℕ, ◌≡◌, ◌≢◌, refl, ap, true, false, Option, none, some, List, arith, ◌==◌, if◌then◌else◌,
  Bool-cases, inl, inr,
}
use bubot_co_ap.Outcome.{returns, type_error, or_raise, ◌>>=◌}
use bubot_co_ap.Defines.Types
use bubot_co_ap.Messages.Message.{Message, Address, set_acknowledged, is_request_object}
use bubot_co_ap.Transaction.{Transaction, new_transaction, create}
use bubot_co_ap.Utils.Keys.{Builtins}
use bubot_co_ap.Layers.Keys.{key_token, key_mid}
use bubot_co_ap.Layers.Table
use bubot_co_ap.Layers.Table.{
  Table, Key, int, octets, same_key, same_key_iff, same_key_self, get-put_self,
}
use bubot_co_ap.Layers.MessageLayer.{
  MessageLayer, token_key, allocate, write, same_token, match_response, receive_response,
  stop_retransmission,
}
use bubot_co_ap.Layers.MessageLayer.Sending.{fill_mid, fill_request, send_request}

-- A unicast request that has a peer, a message id and a token, and a response of type ACK from
-- that peer with that message id.
pub record IsExchange (builtins : Builtins) (request response : Message) : Type 0 where
  pub peer : Address
  pub here : Address
  pub mid : ℕ
  pub token : List ℕ
  pub other_token : List ℕ
  pub by_mid : ℕ
  pub by_token : ℕ
  pub is_request : is_request_object request ≡ true
  pub unicast : request.multicast ≡ false
  pub destination_set : request.destination ≡ some peer
  pub mid_set : request.mid ≡ some mid
  pub token_set : request.token ≡ some token
  pub key_of_mid : key_mid builtins (some peer) (some mid) ≡ returns by_mid
  pub key_of_token : key_token builtins (some peer) (some token) ≡ returns by_token
  pub source_given : response.source ≡ some peer
  pub destination_given : response.destination ≡ some here
  pub mid_given : response.mid ≡ some mid
  pub token_given : response.token ≡ some other_token
  pub acknowledges : response.type ≡ some Types.ack

-- The request as send_request fills it: the type is CON unless it has one.
unfoldable pub default_type : Option ℕ → Option ℕ
default_type none = some Types.con
default_type (some n) = some n

abbrev pub filled : Message → ℕ → Message
filled request now = record request { type = default_type request.type; timestamp = some now }

mid_kept : (l : MessageLayer) (m : Message) (n : ℕ) → m.mid ≡ some n → fill_mid l m ≡ returns (l, m)
unfolding fill_mid
mid_kept l m n e = rw e refl

token_kept :
    (o : Option (List ℕ)) (t : List ℕ) (m m' : Message)
    → o ≡ some t
    → Path Message (elim o [ some t ↦ m | none ↦ m' ]) m
token_kept none t m m' e = absurd (cc)
token_kept (some s) t m m' e = refl

pub same_token_self : (a b : Option (List ℕ)) → a ≡ b → same_token a b ≡ true
unfolding same_token
same_token_self a b e = rw e (same_key_self (token_key b))

token_key_injective : (a b : Option (List ℕ)) → token_key a ≡ token_key b → a ≡ b
token_key_injective none none e = refl
token_key_injective none (some t) e = absurd (cc)
token_key_injective (some s) none e = absurd (cc)
token_key_injective (some s) (some t) e = cc

same_token_other : (a b : Option (List ℕ)) → a ≢ b → same_token a b ≡ false
unfolding same_token
same_token_other a b other = elim (Bool-cases (same_token a b)) [
  | inl e ↦
      absurd (other (token_key_injective a b ((same_key_iff (token_key a) (token_key b)).0 e)))
  | inr e ↦ e
]

same_number : (n : ℕ) → (n == n) ≡ true
same_number n = ground arith

module _ (builtins : Builtins) (fresh : List ℕ) (l : MessageLayer) (request response : Message)
    (now : ℕ) (h : IsExchange builtins request response) where
  abbrev pub created : Transaction
  created = record (new_transaction request) { timestamp = some now }

  request_filled :
      (o : Option ℕ)
      → request.type ≡ o
      → fill_request fresh l request now ≡ returns (l, filled request now)
  unfolding fill_request fill_mid default_type
  request_filled none e =
      let m : Message = record (record request { timestamp = some now }) {
        type = some Types.con;
      } in
      rw
        (
          e,
          mid_kept l m h.mid h.mid_set,
          token_kept request.token h.token m (record m { token = some fresh }) h.token_set,
        )
        refl
  request_filled (some n) e =
      let m : Message = record request { timestamp = some now } in
      rw
        (
          e,
          mid_kept l m h.mid h.mid_set,
          token_kept request.token h.token m (record m { token = some fresh }) h.token_set,
        )
        (ap (λ o. returns (l, record request { type = o; timestamp = some now })) e)

  abbrev pub sent_layer : MessageLayer
  sent_layer =
      let (l', c) = allocate l (record created { request = filled request now }) in
      record l' {
        transactions_sent = Table.put l'.transactions_sent (int h.by_mid) c;
        transactions_sent_token = Table.put l'.transactions_sent_token (int h.by_token) c;
      }

  mid_keyed : key_mid builtins request.destination request.mid ≡ returns h.by_mid
  mid_keyed = rw (h.destination_set, h.mid_set) h.key_of_mid

  token_keyed : key_token builtins request.destination request.token ≡ returns h.by_token
  token_keyed = rw (h.destination_set, h.token_set) h.key_of_token

  destination_named : or_raise request.destination type_error ≡ returns h.peer
  destination_named = rw h.destination_set refl

  pub request_sent : send_request builtins fresh l request now ≡ returns (sent_layer, l.next_cell)
  unfolding send_request allocate create
  request_sent =
      rw
        (
          h.is_request,
          destination_named,
          request_filled request.type refl,
          h.unicast,
          mid_keyed,
          token_keyed,
        )
        refl

  response_matched :
      match_response builtins sent_layer response
      ≡ returns (if same_token response.token request.token then some l.next_cell else none)
  unfolding match_response key_token allocate
  response_matched =
      rw
        (
          h.source_given,
          h.mid_given,
          h.key_of_mid,
          h.destination_given,
          h.acknowledges,
          get-put_self l.transactions_sent (int h.by_mid) l.next_cell,
          same_number l.next_cell,
        )
        refl

  -- The layer once the response is taken.
  abbrev pub answered_layer : MessageLayer
  unfolding write
  answered_layer =
      let answered = record (sent_layer.cell l.next_cell) {
        request = set_acknowledged (sent_layer.cell l.next_cell).request true;
        completed = true;
        response = some response;
      } in
      write sent_layer l.next_cell (stop_retransmission answered)

  pub response_taken :
      same_token response.token request.token ≡ true
      → receive_response builtins sent_layer response
        ≡ returns (answered_layer, some (l.next_cell, false))
  unfolding receive_response
  response_taken matched = rw (response_matched, matched, h.acknowledges) refl

  pub response_held :
      ((answered_layer.cell l.next_cell).response ≡ some response)
      × ((answered_layer.cell l.next_cell).completed ≡ true)
      × ((answered_layer.cell l.next_cell).request.acknowledged ≡ true)
  unfolding allocate stop_retransmission set_acknowledged answered_layer
  response_held = rw (same_number l.next_cell) (refl, refl, refl)

  pub request_held : sent_layer.cell l.next_cell ≡ record created { request = filled request now }
  unfolding allocate
  request_held = rw (same_number l.next_cell) refl

  pub not_notified : (answered_layer.cell l.next_cell).notification ≡ false
  unfolding allocate stop_retransmission set_acknowledged answered_layer
  not_notified = rw (same_number l.next_cell) refl

-- Of a unicast request with a peer, a message id and a token, and an ACK from that peer with
-- that message id, received after send_request: when the ACK has the token of the request, receive_response
-- returns the transaction that send_request made and no ACK to send; the transaction then holds the
-- response, is complete, and its request is acknowledged.
pub receive_response-send_request_same :
    (builtins : Builtins) (fresh : List ℕ) (l : MessageLayer) (request response : Message) (now : ℕ)
    → IsExchange builtins request response
    → response.token ≡ request.token
    → (l' : MessageLayer) × ((send_request builtins fresh l request now >>= λ (sent, c).
          receive_response builtins sent response)
        ≡ returns (l', some (l.next_cell, false)))
      × ((l'.cell l.next_cell).response ≡ some response)
      × ((l'.cell l.next_cell).completed ≡ true)
      × ((l'.cell l.next_cell).request.acknowledged ≡ true)
receive_response-send_request_same builtins fresh l request response now h same =
    let held = response_held builtins fresh l request response now h in
    (
      answered_layer builtins fresh l request response now h,
      rw (request_sent builtins fresh l request response now h)
          (response_taken builtins fresh l request response now h (same_token_self _ _ same)),
      held.0,
      held.1,
      held.2,
    )

-- Of such a request and such an ACK, when the ACK has another token than the request: receive_response
-- finds no transaction and changes nothing.
pub receive_response-send_request_other :
    (builtins : Builtins) (fresh : List ℕ) (l : MessageLayer) (request response : Message) (now : ℕ)
    → IsExchange builtins request response
    → response.token ≢ request.token
    → (send_request builtins fresh l request now >>= λ (sent, c).
        receive_response builtins sent response)
      ≡ (send_request builtins fresh l request now >>= λ (sent, c). returns (sent, none))
unfolding receive_response
receive_response-send_request_other builtins fresh l request response now h other =
    let differ : same_token response.token request.token ≡ false = same_token_other _ _ other in
    rw
      (
        request_sent builtins fresh l request response now h,
        response_matched builtins fresh l request response now h,
        differ,
      )
      refl
