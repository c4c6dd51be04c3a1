-- ===== src/Server/Reception/Repeated.antt =====
-- coap_protocol.py, datagram_received_request: a request that comes again once it is answered.
use bubot_co_ap.Prelude.{ℕ, some}
use bubot_co_ap.Defines.Types
use bubot_co_ap.Defines.Codes
use bubot_co_ap.Messages.Message.{Message}
use bubot_co_ap.Transaction.{Transaction, new_transaction}
use bubot_co_ap.Layers.Table
use bubot_co_ap.Layers.Table.{int}
use bubot_co_ap.Layers.MessageLayer
use bubot_co_ap.Layers.MessageLayer.{MessageLayer, allocate}
use bubot_co_ap.Layers.MessageLayer.Duplicates.{IsNumbered}
use bubot_co_ap.Server.Pipeline
use bubot_co_ap.Server.Pipeline.{Server, Machine}

-- The transaction of a request that comes for the first time.
abbrev pub first : Message → ℕ → Transaction
first message now = record (new_transaction (record message { timestamp = some now })) {
  timestamp = some now;
}

module _ (machine : Machine) (s : Server) (message : Message) (now : ℕ)
    (h : IsNumbered machine.builtins message) where
  abbrev l : MessageLayer
  l = s.message_layer

  -- The layer once it has the request.
  abbrev stored_layer : MessageLayer
  unfolding allocate
  stored_layer =
      let (l', c) = allocate l (first message now) in
      record l' {
        transactions_token = Table.put l'.transactions_token (int h.by_token) c;
        transactions = Table.put l'.transactions (int h.by_mid) c;
      }
