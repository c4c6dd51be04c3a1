-- ===== src/Server/Exchange.antt =====
-- server.py, send_message and send_block_request, and coap_protocol.py, datagram_received_response: a
-- request that goes out, and a response that comes in. A datagram that is sent is put on a list; that
-- sending fails is not modelled, and the wait for an earlier retransmission is the event loop's.
pub mod Answered
use bubot_co_ap.Prelude.{
  ℕ, Bool, true, false, Option, none, some, List, [], ◌∷◌, ◌++◌, if◌then◌else◌,
}
use bubot_co_ap.Outcome.{
  Outcome, returns, raises, stuck, timeout_error, ext_exception, attribute_error, or_raise, ◌>>=◌,
}
use bubot_co_ap.Messages.Message.{Message, set_token, set_acknowledged, is_request_object}
use bubot_co_ap.Transaction.{Transaction}
use bubot_co_ap.Layers.Block.Sending as BlockSending
use bubot_co_ap.Layers.Block.Responses as BlockResponses
use bubot_co_ap.Layers.MessageLayer
use bubot_co_ap.Layers.MessageLayer.{write}
use bubot_co_ap.Layers.MessageLayer.Sending as MessageSending
use bubot_co_ap.Layers.MessageLayer.Empty.{to_response, send_empty}
use bubot_co_ap.Layers.ObserveLayer
use bubot_co_ap.Layers.CallbackLayer.{CallbackLayer, Answer, begin_wait, end_wait, set_result}
use bubot_co_ap.Server.Retransmission.{starts_retransmission}
use bubot_co_ap.Server.Pipeline.{Server, Sent, Machine}
use bubot_co_ap.Server.Reception.{silent, new_ack, acknowledge_message}

-- The server with those that wait for a response.
pub record Node : Type 0 where
  pub server : Server
  pub callback_layer : CallbackLayer

-- The except clauses of send_message.
unfoldable pub wrapped {ℓ} : {A : Type ℓ} → Outcome A → Outcome A
wrapped (returns a) = returns a
wrapped (raises timeout_error) = raises timeout_error
wrapped (raises e) = raises ext_exception
wrapped stuck = stuck

-- `if message.token is None`
unfoldable pub with_token : List ℕ → Message → Outcome Message
with_token fresh m = elim m.token [ none ↦ set_token fresh m (some fresh) | some t ↦ returns m ]

-- The request goes out and is waited for; the number is the waiter's. The request layer passes it on.
unfoldable pub send_waited : Machine → Node → Message → ℕ → Outcome (Node × Sent × Option ℕ)
send_waited machine n request now = do
  (messages, c) ←
      MessageSending.send_request machine.builtins machine.fresh n.server.message_layer request now
  let t = messages.cell c
  let (waiters, w) = begin_wait n.callback_layer t.request
  returns (
    record n { server = record n.server { message_layer = messages }; callback_layer = waiters },
    record { datagrams = t.request ∷ []; retransmits = starts_retransmission t t.request },
    some w,
  )

-- With no_response, the message layer is passed by.
unfoldable pub send_request : Machine → Node → Message → Bool → ℕ → Outcome (Node × Sent × Option ℕ)
unfolding with_token send_waited
send_request machine n message no_response now = do
  tokened ← with_token machine.fresh message
  relations ← ObserveLayer.send_request machine.builtins n.server.observe_layer tokened now
  (blocks, request) ← BlockSending.send_request machine.builtins n.server.block_layer tokened
  let n' = record n { server = record n.server { observe_layer = relations; block_layer = blocks } }
  if no_response
      then returns (n', record { datagrams = request ∷ []; retransmits = false }, none)
      else send_waited machine n' request now

-- An empty message or a response.
unfoldable pub send_other : Machine → Node → Message → Outcome (Node × Sent × Option ℕ)
send_other machine n message = do
  relations ← ObserveLayer.send_empty machine.builtins n.server.observe_layer message
  (messages, sent) ←
      send_empty machine.builtins machine.fresh n.server.message_layer none to_response message
  returns (
    record n { server = record n.server { observe_layer = relations; message_layer = messages } },
    record { datagrams = sent ∷ []; retransmits = false },
    none,
  )

-- send_message up to its wait.
unfoldable pub send_message : Machine → Node → Message → Bool → ℕ → Outcome (Node × Sent × Option ℕ)
unfolding wrapped send_request send_other
send_message machine n message no_response now = wrapped (
    if is_request_object message
    then send_request machine n message no_response now
    else send_other machine n message)

-- The end of the wait, and of send_message.
unfoldable pub end_message : Node → ℕ → Node × Outcome Answer
unfolding wrapped
end_message n w =
    let (waiters, answer) = end_wait n.callback_layer w in
    (record n { callback_layer = waiters }, wrapped answer)

-- The request of a transfer of blocks goes out again, in a transaction of its own.
unfoldable pub send_block_request : Machine → Server → Message → ℕ → Outcome (Server × Sent)
send_block_request machine s request now = do
  (messages, c) ←
      MessageSending.send_request machine.builtins machine.fresh s.message_layer request now
  let t = messages.cell c
  let t' = record t { request = set_acknowledged t.request false }
  returns (
    record s { message_layer = write messages c t' },
    record { datagrams = t'.request ∷ []; retransmits = starts_retransmission t' t'.request },
  )

-- The result of the block layer is dropped: where it is None, the transaction has been marked.
unfoldable pub receive_blocks : Machine → Server → ℕ → Outcome Server
receive_blocks machine s c = do
  let t = s.message_layer.cell c
  (blocks, found) ← BlockResponses.receive_response machine.builtins machine.fresh s.block_layer t
  let t' : Transaction = elim found [ none ↦ record t { block_transfer = true } | some t' ↦ t' ]
  returns (record s { message_layer = write s.message_layer c t'; block_layer = blocks })

-- The response of the transaction goes to who waits for it.
unfoldable pub deliver : Node → ℕ → Outcome Node
deliver n c = do
  response ← or_raise (n.server.message_layer.cell c).response attribute_error
  waiters ← set_result n.callback_layer response
  returns (record n { callback_layer = waiters })

-- A notification is acknowledged once more, but that datagram is not awaited.
unfoldable pub take_response : Machine → Node → ℕ → Outcome Node
unfolding deliver
take_response machine n c = do
  let s = n.server
  t ← ObserveLayer.receive_response machine.builtins s.observe_layer (s.message_layer.cell c)
  let seen = write s.message_layer c t
  if t.notification
      then (do
        (messages, ack) ←
            send_empty machine.builtins machine.fresh seen (some c) to_response new_ack
        deliver (record n { server = record s { message_layer = messages } }) c)
      else deliver (record n { server = record s { message_layer = seen } }) c

-- `if send_ack: await self.server.send_ack(transaction, transaction.response)`
unfoldable pub acknowledge_response : Machine → Server → ℕ → Bool → Outcome (Server × Sent)
acknowledge_response machine s c false = returns (s, silent)
acknowledge_response machine s c true = do
  response ← or_raise (s.message_layer.cell c).response attribute_error
  acknowledge_message machine s c to_response response

-- datagram_received_response, of the transaction in the cell.
unfoldable pub take_paired : Machine → Node → ℕ → Bool → ℕ → Outcome (Node × Sent)
unfolding acknowledge_response receive_blocks send_block_request take_response
take_paired machine n c ack now = do
  (s, acked) ← acknowledge_response machine n.server c ack
  s ← receive_blocks machine s c
  let t = s.message_layer.cell c
  if t.block_transfer
      then (do
        (s, sent) ← send_block_request machine s t.request now
        returns (
          record n { server = s },
          record { datagrams = acked.datagrams ++ sent.datagrams; retransmits = sent.retransmits },
        ))
      else (do n' ← take_response machine (record n { server = s }) c; returns (n', acked))

unfoldable pub datagram_received_response : Machine → Node → Message → ℕ → Outcome (Node × Sent)
unfolding take_paired
datagram_received_response machine n message now = do
  (messages, found) ← MessageLayer.receive_response machine.builtins n.server.message_layer message
  let n' = record n { server = record n.server { message_layer = messages } }
  elim found [ none ↦ returns (n', silent) | some (c, ack) ↦ take_paired machine n' c ack now ]
