-- ===== src/Server/Reception.antt =====
-- coap_protocol.py: what a request and an empty message do to the server, with send_ack of server.py.
pub mod Repeated
use bubot_co_ap.Prelude.{
  ℕ, ◌≡◌, Bool, true, false, ◌&&◌, not, none, some, [], ◌∷◌, ◌==◌, if◌then◌else◌, arith, if-eq_true,
}
use bubot_co_ap.Outcome.{Outcome, returns, ◌>>=◌}
use bubot_co_ap.Text.{Text}
use bubot_co_ap.Defines.Types
use bubot_co_ap.Messages.Message.{Message, Kind, new_message}
use bubot_co_ap.Transaction.{Transaction}
use bubot_co_ap.Layers.Table
use bubot_co_ap.Layers.Table.{int}
use bubot_co_ap.Layers.MessageLayer
use bubot_co_ap.Layers.MessageLayer.{MessageLayer, write, duplicate, receive_empty, is_type}
use bubot_co_ap.Layers.MessageLayer.Empty.{Related, to_request, send_empty}
use bubot_co_ap.Layers.MessageLayer.Duplicates.{IsNumbered, duplicate_found}
use bubot_co_ap.Layers.ObserveLayer
use bubot_co_ap.Layers.RequestLayer.{ResourceLayer}
use bubot_co_ap.Server.Pipeline
use bubot_co_ap.Server.Pipeline.{Server, Sent, Machine}

abbrev pub silent : Sent
silent = record { datagrams = []; retransmits = false }

-- Message() with the type ACK.
unfoldable pub new_ack : Message
new_ack = record (new_message Kind.plain) { type = some Types.ack }

-- send_ack(transaction, message), of a message of the transaction in the cell.
unfoldable pub acknowledge_message :
    Machine → Server → ℕ → Related → Message → Outcome (Server × Sent)
unfolding new_ack
acknowledge_message machine s c related message =
    if not message.acknowledged && is_type message Types.con
    then (do
      (messages, ack) ←
          send_empty machine.builtins machine.fresh s.message_layer (some c) related new_ack
      let complete : Bool = elim ack.type [
        | none ↦ false
        | some n ↦ elim ack.mid [ none ↦ false | some i ↦ true ]
      ]
      returns (
        record s { message_layer = messages },
        record { datagrams = if complete then ack ∷ [] else []; retransmits = false },
      ))
    else returns (s, silent)

-- send_ack(transaction): the message is the request.
unfoldable pub send_ack : Machine → Server → ℕ → Outcome (Server × Sent)
unfolding acknowledge_message
send_ack machine s c = acknowledge_message machine s c to_request (s.message_layer.cell c).request

-- A request whose transaction is in the cell. The coroutine that would send the response of a completed one
-- again is not awaited, so nothing goes out.
unfoldable pub take_request : Machine → ResourceLayer → Server → ℕ → ℕ → Outcome (Server × Sent)
unfolding send_ack
take_request machine resources s c now =
    let t : Transaction = s.message_layer.cell c in
    if t.request.duplicated && t.completed
    then returns (s, silent)
    else if t.request.duplicated
    then send_ack machine s c
    else Pipeline.receive_request machine resources s c now

unfoldable pub datagram_received_request :
    Machine → ResourceLayer → Server → Message → ℕ → Outcome (Server × Sent)
unfolding take_request
datagram_received_request machine resources s message now = do
  (messages, c) ← MessageLayer.receive_request machine.builtins s.message_layer message now
  take_request machine resources (record s { message_layer = messages }) c now

-- The block layer's receive_empty does nothing.
unfoldable pub datagram_received_message :
    Machine → (Text → Bool) → Server → Message → Outcome Server
datagram_received_message machine is_ipv6 s message = do
  (messages, found) ← receive_empty machine.builtins is_ipv6 s.message_layer message
  elim found [
    | none ↦ returns (record s { message_layer = messages })
    | some c ↦ do
      (relations, t) ←
          ObserveLayer.receive_empty machine.builtins s.observe_layer message (messages.cell c)
      returns (record s { message_layer = write messages c t; observe_layer = relations })
  ]
