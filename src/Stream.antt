-- ===== src/Stream.antt =====
-- src/Bubot_CoAP/coap_tcp_protocol.py: data_received of a connection. A deserializer's exception
-- leaves the bytes of the message in the spool.
pub mod Fragments
use bubot_co_ap.Prelude.{
  ℕ, ◌+◌, Bool, true, false, Option, none, some, List, [], ◌++◌, length, take, drop, ltb,
  if◌then◌else◌,
}
use bubot_co_ap.Outcome.{Exception, Outcome, returns, raises, stuck, attribute_error}
use bubot_co_ap.Text.{Text}
use bubot_co_ap.Defines.{ByteOrder}
use bubot_co_ap.Messages.Message.{Message, Address}
use bubot_co_ap.Serializer.Decode.{Parsed, parsed, failed}
use bubot_co_ap.Serializer.Tcp
use bubot_co_ap.Serializer.Tcp.{Sizes, extract_message_size}

-- What a connection keeps beside its spool.
pub record Connection : Type 0 where
  pub order : ByteOrder
  pub remote_address : Address
  pub endpoint_address : Address
  pub scheme : Option Text
  pub is_server : Bool

-- What a call of data_received does beside the spool: nothing, message_received, an exception, or no
-- end.
pub data Event : Type 0 where
  waits : Event
  received : Message → Event
  fails : Exception → Event
  hangs : Event

-- sum(msg_header)
unfoldable pub msg_size : Sizes → ℕ
msg_size s = s.token_offset + s.token_length + s.body_length

-- A message as it goes to message_received.
unfoldable pub arrived : Connection → Message → Message
arrived c m = record m {
  destination = some c.endpoint_address;
  multicast = false;
  scheme = (if c.is_server then c.scheme else m.scheme);
}

-- The spool behind a message of `size` bytes, by what deserialize made of it. The class has no method
-- datagram_received_bad_message, so a malformed message ends in AttributeError.
unfoldable pub dispatch : Connection → List ℕ → ℕ → Outcome Parsed → List ℕ × Event
unfolding arrived
dispatch c spool size (returns (parsed m)) = (drop size spool, received (arrived c m))
dispatch c spool size (returns (failed code)) = (drop size spool, fails attribute_error)
dispatch c spool size (raises e) = (spool, fails e)
dispatch c spool size stuck = (spool, hangs)

-- The loop on the spool, which every branch of its body leaves.
unfoldable pub take_message : Connection → List ℕ → List ℕ → List ℕ × Event
unfolding dispatch msg_size
take_message c fresh spool = elim (extract_message_size spool) [
  | none ↦ (spool, waits)
  | some sizes ↦
      let size = msg_size sizes in
      if ltb (length spool) size
      then (spool, waits)
      else dispatch c spool size (Tcp.deserialize c.order fresh (take size spool) c.remote_address)
]

unfoldable pub data_received : Connection → List ℕ → List ℕ → List ℕ → List ℕ × Event
unfolding take_message
data_received c fresh spool chunk = take_message c fresh (spool ++ chunk)
