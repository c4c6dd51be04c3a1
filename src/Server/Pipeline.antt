-- ===== src/Server/Pipeline.antt =====
-- server.py, receive_request: a request's way through the layers, and what goes out. A datagram that is sent
-- is put on a list; the separate timer and the sleeps are the event loop's. The transaction of the call
-- is in the cell `c` of the message layer; it is written back before a call that reads the store.
pub mod NotFound
use bubot_co_ap.Prelude.{
  ℕ, Bool, true, false, Option, none, some, List, [], ◌∷◌, ◌==◌, if◌then◌else◌,
}
use bubot_co_ap.Outcome.{
  Exception, Outcome, returns, raises, type_error, attribute_error, or_raise, ◌>>=◌,
}
use bubot_co_ap.Defines.Types
use bubot_co_ap.Messages.Message.{Message}
use bubot_co_ap.Transaction.{Transaction}
use bubot_co_ap.Resources.{Resource}
use bubot_co_ap.Utils.Keys.{Builtins}
use bubot_co_ap.Layers.Block
use bubot_co_ap.Layers.Block.{BlockLayer}
use bubot_co_ap.Layers.Block.Sending as BlockSending
use bubot_co_ap.Layers.MessageLayer.{MessageLayer, write}
use bubot_co_ap.Layers.MessageLayer.Sending as MessageSending
use bubot_co_ap.Layers.ObserveLayer
use bubot_co_ap.Layers.ObserveLayer.{ObserveLayer}
use bubot_co_ap.Layers.ObserveLayer.Notify
use bubot_co_ap.Layers.RequestLayer
use bubot_co_ap.Layers.RequestLayer.{ResourceLayer}
use bubot_co_ap.Server.Directory.{Directory}
use bubot_co_ap.Server.Retransmission.{starts_retransmission}

pub record Server : Type 0 where
  pub message_layer : MessageLayer
  pub block_layer : BlockLayer
  pub observe_layer : ObserveLayer
  pub directory : Directory

-- What the call sends, and whether it starts a retransmission.
pub record Sent : Type 0 where
  pub datagrams : List Message
  pub retransmits : Bool

-- What the code uses of the machine it runs on: Python's functions, the exception of `with` on an object
-- without __enter__, and the eight random bytes of a token.
pub record Machine : Type 0 where
  pub builtins : Builtins
  pub no_context : Exception
  pub fresh : List ℕ

-- notify(resource): where there are observers, `with transaction` raises.
unfoldable pub notify : Machine → Server → ℕ → Outcome Server
notify machine s resource = do
  (relations, cell, cs) ← Notify.notify resource s.observe_layer s.message_layer.cell
  elim cs [
    | [] ↦ returns (record s {
      observe_layer = relations;
      message_layer = record s.message_layer { cell = cell };
    })
    | c ∷ cs' ↦ raises machine.no_context
  ]

unfoldable pub set_resource : Server → ℕ → Resource → Server
set_resource s r resource = record s {
  directory = record s.directory {
    resource = λ i. if i == r then resource else s.directory.resource i;
  };
}

-- The observers of a resource that the request has changed or deleted.
unfoldable pub notify_change : Machine → Server → Transaction → Outcome Server
unfolding notify set_resource
notify_change machine s t = elim t.resource [
  | none ↦ returns s
  | some r ↦
      if (s.directory.resource r).changed
      then (do
        s' ← notify machine s r
        returns (set_resource s' r (record (s'.directory.resource r) { changed = false })))
      else if (s.directory.resource r).deleted
      then (do
        s' ← notify machine s r
        returns (set_resource s' r (record (s'.directory.resource r) { deleted = false })))
      else returns s
]

-- `transaction.response.source = (transaction.response.source[0], None)`; 0 stands for the port None.
unfoldable pub hide_port : Message → Outcome Message
hide_port m = do
  source ← or_raise m.source type_error
  returns (record m { source = some (record source { port = 0 }) })

-- The response of the transaction goes out.
unfoldable pub send_found :
    Server → ℕ → MessageLayer → Transaction → Message → Outcome (Server × Sent)
unfolding hide_port write
send_found s c messages t response = do
  addressed ← if t.request.multicast then hide_port response else returns response
  returns (
    record s { message_layer = write messages c (record t { response = some addressed }) },
    record { datagrams = addressed ∷ []; retransmits = starts_retransmission t response },
  )

unfoldable pub emit : Server → ℕ → MessageLayer → Outcome (Server × Sent)
unfolding send_found
emit s c messages = elim (messages.cell c).response [
  | none ↦
      returns
        (record s { message_layer = messages }, record { datagrams = []; retransmits = false })
  | some response ↦ send_found s c messages (messages.cell c) response
]

-- After the layers: send_response of the message layer, and the datagram.
unfoldable pub send_out : Machine → Server → ℕ → Transaction → Outcome (Server × Sent)
unfolding emit write
send_out machine s c t = do
  (messages, found) ←
      MessageSending.send_response machine.builtins machine.fresh (write s.message_layer c t) c
  emit s c messages

-- A transfer of blocks that goes on: the response goes out at once.
unfoldable pub send_block : Machine → Server → ℕ → Transaction → Outcome (Server × Sent)
unfolding write
send_block machine s c t = do
  (messages, found) ←
      MessageSending.send_response machine.builtins machine.fresh (write s.message_layer c t) c
  response ← or_raise (messages.cell c).response attribute_error
  returns (
    record s { message_layer = messages },
    record { datagrams = response ∷ []; retransmits = false },
  )

-- `if transaction.resource is None: await self.request_layer.receive_request(transaction)`
unfoldable pub handle :
    Machine → ResourceLayer → Directory → Transaction → Outcome (Directory × Transaction)
handle machine resources directory t = elim t.resource [
  | none ↦ RequestLayer.receive_request machine.fresh resources directory t
  | some r ↦ returns (directory, t)
]

-- The layers that the response goes through.
unfoldable pub respond : Machine → Server → ℕ → Transaction → ℕ → Outcome (Server × Sent)
unfolding send_out
respond machine s c t now = do
  (relations, t) ←
      ObserveLayer.send_response machine.builtins s.directory.resource s.observe_layer t c now
  (blocks, t) ← BlockSending.send_response machine.builtins s.block_layer t
  send_out machine (record s { observe_layer = relations; block_layer = blocks }) c t

-- The layers from the request layer on, of a transaction that the observe layer has seen.
unfoldable pub process :
    Machine → ResourceLayer → Server → ℕ → Transaction → ℕ → Outcome (Server × Sent)
unfolding handle notify_change respond write
process machine resources s c t now = do
  (directory, t) ← handle machine resources s.directory t
  s ←
      notify_change machine
        (record s { directory = directory; message_layer = write s.message_layer c t }) t
  respond machine s c t now

-- A transaction that the block layer has seen.
unfoldable pub continue :
    Machine → ResourceLayer → Server → ℕ → Transaction → ℕ → Outcome (Server × Sent)
unfolding send_block process
continue machine resources s c t now = if t.block_transfer then send_block machine s c t else (do
  relations ← ObserveLayer.receive_request machine.builtins s.observe_layer t c now
  process machine resources (record s { observe_layer = relations }) c t now)

unfoldable pub receive_request : Machine → ResourceLayer → Server → ℕ → ℕ → Outcome (Server × Sent)
unfolding continue
receive_request machine resources s c now = do
  (blocks, t) ←
      Block.receive_request machine.builtins machine.fresh s.block_layer (s.message_layer.cell c)
  continue machine resources (record s { block_layer = blocks }) c t now
