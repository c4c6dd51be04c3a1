-- ===== src/Server/Pipeline/NotFound.antt =====
-- server.py, receive_request: a confirmable request for a path without a resource.
use bubot_co_ap.Prelude.{
  ℕ, ◌≡◌, refl, sym, ap, ◌∙◌, true, false, ◌&&◌, not, none, some, [], ◌∷◌, ltb, ◌==◌, arith,
  elim-eq_none, if-eq_false, elim-eq_some,
}
use bubot_co_ap.Outcome.{returns}
use bubot_co_ap.Dict
use bubot_co_ap.Defines.Types
use bubot_co_ap.Defines.Codes
use bubot_co_ap.Messages.Message.{Message, new_message, set_type, set_mid, set_acknowledged}
use bubot_co_ap.Messages.Accessors.{get_block1, get_block2, find_observe}
use bubot_co_ap.Transaction.{Transaction}
use bubot_co_ap.Resources.{Resource}
use bubot_co_ap.Layers.Keys.{key_token}
use bubot_co_ap.Layers.Block
use bubot_co_ap.Layers.Block.Sending as BlockSending
use bubot_co_ap.Layers.Block.Sending.{is_long}
use bubot_co_ap.Layers.MessageLayer.{MessageLayer, write, is_type}
use bubot_co_ap.Layers.MessageLayer.Sending as MessageSending
use bubot_co_ap.Layers.MessageLayer.Sending.{send_prepared, type_response, register_response}
use bubot_co_ap.Layers.ObserveLayer
use bubot_co_ap.Layers.RequestLayer.{ResourceLayer}
use bubot_co_ap.Layers.RequestLayer.Missing.{IsMissing, answer, receive_request_missing}
use bubot_co_ap.Server.Pipeline.{
  Server, Machine, notify_change, send_out, emit, send_found, handle, respond, process, continue,
  receive_request,
}
use bubot_co_ap.Server.Retransmission.{starts_retransmission}

-- A confirmable GET, PUT or DELETE that has not been acknowledged, without Block1, Block2 and Observe, from a peer that
-- observes nothing under its token and gets no blocks under it, for a path without a resource.
pub record IsRefused (machine : Machine) (s : Server) (t : Transaction) : Type 0 where
  pub missing : IsMissing s.directory t
  pub key : ℕ
  pub mid : ℕ
  pub key_of_request : key_token machine.builtins t.request.source t.request.token ≡ returns key
  pub confirmable : t.request.type ≡ some Types.con
  pub unacknowledged : t.request.acknowledged ≡ false
  pub mid_set : t.request.mid ≡ some mid
  pub mid_fits : ltb 65536 mid ≡ false
  pub no_block2 : get_block2 t.request ≡ returns none
  pub no_block1 : get_block1 t.request ≡ returns none
  pub no_observe : find_observe t.request.options ≡ returns none
  pub no_transfer : t.block_transfer ≡ false
  pub no_resource : t.resource ≡ none
  pub not_observed : Dict.get s.observe_layer key ≡ none
  pub not_sent : Dict.get s.block_layer.block2_receive key ≡ none

write_self : (l : MessageLayer) (c : ℕ) (t : Transaction) → (write l c t).cell c ≡ t
unfolding write
write_self l c t = let self : (c == c) ≡ true = ground arith in rw self refl

module _ (machine : Machine) (s : Server) (t : Transaction) (h : IsRefused machine s t) where
  -- NOT_FOUND, as the request layer makes it.
  abbrev refused : Message
  refused = record (answer t.request h.missing.here h.missing.token) { code = some Codes.not_found }

  abbrev answered : Transaction
  answered = record t { response = some refused }

  -- The ACK that goes out.
  abbrev refusal : Message
  refusal = set_acknowledged (record refused { type = some Types.ack; mid = some h.mid }) true

  abbrev closed : Transaction
  closed = record t {
    request = set_acknowledged t.request true;
    response = some refusal;
    completed = true;
  }

  block_passed :
      Block.receive_request machine.builtins machine.fresh s.block_layer t
      ≡ returns (s.block_layer, t)
  unfolding Block.receive_request
  block_passed = rw (h.no_block2, h.no_block1) refl

  observe_passed :
      (c now : ℕ)
      → ObserveLayer.receive_request machine.builtins s.observe_layer t c now
        ≡ returns s.observe_layer
  unfolding ObserveLayer.receive_request ObserveLayer.is_observe
  observe_passed c now = rw (h.no_observe) refl

  handled :
      (resources : ResourceLayer)
      → handle machine resources s.directory t ≡ returns (s.directory, answered)
  unfolding handle
  handled resources =
      elim-eq_none t.resource _ _ h.no_resource
      ∙ receive_request_missing machine.fresh resources s.directory t h.missing

  not_changed : (s' : Server) → notify_change machine s' answered ≡ returns s'
  unfolding notify_change
  not_changed s' = elim-eq_none t.resource _ _ h.no_resource

  observe_sent :
      (c now : ℕ) (directory : ℕ → Resource)
      → ObserveLayer.send_response machine.builtins directory s.observe_layer answered c now
        ≡ returns (s.observe_layer, answered)
  unfolding ObserveLayer.send_response
  observe_sent c now directory = rw (h.key_of_request, ObserveLayer.send_keyed, h.not_observed) refl

  block_sent :
      BlockSending.send_response machine.builtins s.block_layer answered
      ≡ returns (s.block_layer, answered)
  unfolding BlockSending.send_response new_message is_long
  block_sent = rw (h.key_of_request, BlockSending.send_keyed, h.not_sent) refl

  mid_copied : (m : Message) → set_mid m t.request.mid ≡ returns (record m { mid = some h.mid })
  unfolding set_mid
  mid_copied m = ap (λ o. set_mid m o) h.mid_set ∙ rw h.mid_fits refl

  piggybacked : (is_type t.request Types.con && not t.request.acknowledged) ≡ true
  piggybacked = rw (h.confirmable, h.unacknowledged) refl

  response_typed :
      type_response machine.fresh answered refused
      ≡ returns (record t { response = some refusal; completed = true })
  unfolding type_response set_type
  response_typed = rw (piggybacked, mid_copied (record refused { type = some Types.ack })) refl

  prepared :
      (l : MessageLayer) (c : ℕ)
      → l.cell c ≡ answered
      → send_prepared machine.builtins machine.fresh l c refused
        ≡ returns (write l c closed, some c)
  unfolding send_prepared new_message register_response set_acknowledged
  prepared l c e = rw (e, response_typed) refl

  sent :
      (l : MessageLayer) (c : ℕ)
      → MessageSending.send_response machine.builtins machine.fresh (write l c answered) c
        ≡ returns (write (write l c answered) c closed, some c)
  unfolding MessageSending.send_response
  sent l c =
      elim-eq_some ((write l c answered).cell c).response refused _ _
        (ap (λ (x : Transaction). x.response) (write_self l c answered))
      ∙ prepared (write l c answered) c (write_self l c answered)

  found :
      (s' : Server) (c : ℕ) (messages : MessageLayer)
      → send_found s' c messages closed refusal
        ≡ returns (
          record s' { message_layer = write messages c closed },
          record { datagrams = refusal ∷ []; retransmits = false },
        )
  unfolding send_found starts_retransmission set_acknowledged
  found s' c messages = rw h.missing.unicast refl

  emitted :
      (s' : Server) (c : ℕ) (messages : MessageLayer)
      → messages.cell c ≡ closed
      → emit s' c messages ≡ send_found s' c messages closed refusal
  unfolding emit
  emitted s' c messages e =
      elim-eq_some (messages.cell c).response refusal _ _ (ap (λ (x : Transaction). x.response) e)
      ∙ ap (λ x. send_found s' c messages x refusal) e

  out :
      (s' : Server) (c : ℕ)
      → send_out machine s' c answered
        ≡ returns (
          record s' {
            message_layer = write (write (write s'.message_layer c answered) c closed) c closed;
          },
          record { datagrams = refusal ∷ []; retransmits = false },
        )
  unfolding send_out
  out s' c =
      let messages = write (write s'.message_layer c answered) c closed in
      rw (sent s'.message_layer c) (
        emitted s' c messages (write_self (write s'.message_layer c answered) c closed)
        ∙ found s' c messages)

  -- The server when the layers below the request layer have seen the transaction.
  abbrev left : MessageLayer → ℕ → Server
  left l c = record s { message_layer = write (write (write l c answered) c closed) c closed }

  responded :
      (l : MessageLayer) (c now : ℕ)
      → respond machine (record s { message_layer = l }) c answered now
        ≡ returns (left l c, record { datagrams = refusal ∷ []; retransmits = false })
  unfolding respond
  responded l c now =
      rw (observe_sent c now s.directory.resource, block_sent)
        (out (record s { message_layer = l }) c)

  processed :
      (resources : ResourceLayer) (c now : ℕ)
      → process machine resources s c t now
        ≡ returns (
          left (write s.message_layer c answered) c,
          record { datagrams = refusal ∷ []; retransmits = false },
        )
  unfolding process
  processed resources c now =
      rw
        (
          handled resources,
          not_changed (record s { message_layer = write s.message_layer c answered }),
        )
        (responded (write s.message_layer c answered) c now)

  continued :
      (resources : ResourceLayer) (c now : ℕ)
      → continue machine resources s c t now
        ≡ returns (
          left (write s.message_layer c answered) c,
          record { datagrams = refusal ∷ []; retransmits = false },
        )
  unfolding continue
  continued resources c now =
      if-eq_false t.block_transfer _ _ h.no_transfer
      ∙ rw (observe_passed c now) (processed resources c now)

-- Of a confirmable unicast GET, PUT or DELETE that has not been acknowledged, with an own address, a token of
-- at most 256 bytes and a message id of at most 65536 and without Block1, Block2 and Observe, for a path
-- without a resource that is not the discovery's, in a transaction that has no resource and is no transfer
-- of blocks, from a peer that observes nothing under its token and gets no blocks under it, whatever the
-- resource layer does: receive_request sends one datagram and starts no retransmission. It is an ACK with
-- NOT_FOUND, with the request's message id and token, to where the request came from; the transaction is
-- then complete and its request acknowledged, and the resources, the observers, the block transfers and
-- the table of the message ids are as before.
pub receive_request_refused :
    (machine : Machine) (resources : ResourceLayer) (s : Server) (c now : ℕ)
    → IsRefused machine s (s.message_layer.cell c)
    → (s' : Server) × (m : Message) × (receive_request machine resources s c now
        ≡ returns (s', record { datagrams = m ∷ []; retransmits = false }))
      × (m.type ≡ some Types.ack)
      × (m.code ≡ some Codes.not_found)
      × (m.mid ≡ (s.message_layer.cell c).request.mid)
      × (m.token ≡ (s.message_layer.cell c).request.token)
      × (m.destination ≡ (s.message_layer.cell c).request.source)
      × ((s'.message_layer.cell c).completed ≡ true)
      × ((s'.message_layer.cell c).request.acknowledged ≡ true)
      × (s'.directory ≡ s.directory)
      × (s'.observe_layer ≡ s.observe_layer)
      × (s'.block_layer ≡ s.block_layer)
      × (s'.message_layer.transactions ≡ s.message_layer.transactions)
unfolding receive_request set_acknowledged write
receive_request_refused machine resources s c now h =
    let t = s.message_layer.cell c in
    let kept =
      write_self
        (write (write (write s.message_layer c (answered machine s t h)) c (answered machine s t h))
          c (closed machine s t h))
        c (closed machine s t h) in
    (
      left machine s t h (write s.message_layer c (answered machine s t h)) c,
      refusal machine s t h,
      rw (block_passed machine s t h) (continued machine s t h resources c now),
      refl,
      refl,
      sym h.mid_set,
      sym h.missing.token_set,
      refl,
      ap (λ (x : Transaction). x.completed) kept,
      ap (λ (x : Transaction). x.request.acknowledged) kept,
      refl,
      refl,
      refl,
      refl,
    )
