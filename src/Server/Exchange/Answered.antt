-- ===== src/Server/Exchange/Answered.antt =====
-- server.py, send_message, and coap_protocol.py, datagram_received_response: a request and its response.
use bubot_co_ap.Prelude.{
  ℕ, ◌≡◌, refl, sym, ap, ◌∙◌, Bool, true, false, ◌&&◌, none, some, [], ◌∷◌, ◌==◌, arith,
  elim-eq_some, if-eq_false,
}
use bubot_co_ap.Outcome.{Outcome, returns, or_raise, attribute_error, ◌>>=◌}
use bubot_co_ap.Dict
use bubot_co_ap.Messages.Message.{Message}
use bubot_co_ap.Messages.Accessors.{get_block1, get_block2, find_observe}
use bubot_co_ap.Transaction.{Transaction}
use bubot_co_ap.Layers.Keys.{key_token}
use bubot_co_ap.Layers.Block.Sending as BlockSending
use bubot_co_ap.Layers.Block.Sending.{is_long}
use bubot_co_ap.Layers.Block.Responses as BlockResponses
use bubot_co_ap.Layers.MessageLayer.{MessageLayer, write, token_key}
use bubot_co_ap.Layers.MessageLayer.Pairing.{
  IsExchange, filled, sent_layer, request_sent, request_held, answered_layer, response_taken,
  response_held, not_notified, same_token_self,
}
use bubot_co_ap.Layers.ObserveLayer
use bubot_co_ap.Layers.CallbackLayer.{CallbackLayer, begin_wait, single}
use bubot_co_ap.Layers.CallbackLayer.Collected.{wait_unicast}
use bubot_co_ap.Server.Retransmission.{starts_retransmission}
use bubot_co_ap.Server.Pipeline.{Sent, Machine}
use bubot_co_ap.Server.Reception.{silent}
use bubot_co_ap.Server.Exchange.{
  Node, with_token, send_waited, send_request, send_message, end_message, receive_blocks, deliver,
  take_response, take_paired, datagram_received_response, wrapped,
}

-- A unicast request without Observe, Block1 and Block2 and with a payload that is not cut, from a server that
-- sends its peer no blocks under its token, and an ACK with that token and without Block2.
pub record IsPlain (machine : Machine) (n : Node) (request response : Message) : Type 0 where
  pub exchange : IsExchange machine.builtins request response
  pub same : response.token ≡ request.token
  pub no_observe : find_observe request.options ≡ returns none
  pub no_block1 : get_block1 request ≡ returns none
  pub no_block2 : get_block2 request ≡ returns none
  pub short : is_long request.payload ≡ returns false
  pub one_block : get_block2 response ≡ returns none
  pub not_sent : Dict.get n.server.block_layer.block1_sent exchange.by_token ≡ none

write_self : (l : MessageLayer) (c : ℕ) (t : Transaction) → (write l c t).cell c ≡ t
unfolding write
write_self l c t = let self : (c == c) ≡ true = ground arith in rw self refl

and_false : (a b : Bool) → b ≡ false → (a && b) ≡ false
and_false true b e = e
and_false false b e = refl

module _ (machine : Machine) (n : Node) (request response : Message) (now : ℕ)
    (h : IsPlain machine n request response) where
  abbrev l : MessageLayer
  l = n.server.message_layer

  abbrev sent : MessageLayer
  sent = sent_layer machine.builtins machine.fresh l request response now h.exchange

  -- The request as it goes out.
  abbrev asked : Message
  asked = (sent.cell l.next_cell).request

  abbrev waiting : Node
  waiting = record n {
    server = record n.server { message_layer = sent };
    callback_layer = (begin_wait n.callback_layer asked).0;
  }

  token_there : with_token machine.fresh request ≡ returns request
  unfolding with_token
  token_there = elim-eq_some request.token h.exchange.token _ _ h.exchange.token_set

  observe_passed :
      ObserveLayer.send_request machine.builtins n.server.observe_layer request now
      ≡ returns n.server.observe_layer
  unfolding ObserveLayer.send_request ObserveLayer.is_observe
  observe_passed = rw (h.no_observe) refl

  block_passed :
      BlockSending.send_request machine.builtins n.server.block_layer request
      ≡ returns (n.server.block_layer, request)
  unfolding BlockSending.send_request
  block_passed = rw (h.no_block1, h.short, h.no_block2) refl

  message_sent :
      send_message machine n request false now
      ≡ returns (
        waiting,
        record {
          datagrams = asked ∷ [];
          retransmits = starts_retransmission (sent.cell l.next_cell) asked;
        },
        some n.callback_layer.next_waiter,
      )
  unfolding send_message send_request send_waited wrapped begin_wait
  message_sent =
      rw
        (
          h.exchange.is_request,
          token_there,
          observe_passed,
          block_passed,
          request_sent machine.builtins machine.fresh l request response now h.exchange,
        )
        refl

  abbrev answered : MessageLayer
  answered = answered_layer machine.builtins machine.fresh l request response now h.exchange

  abbrev taken : Transaction
  taken = record (answered.cell l.next_cell) { block_transfer = false }

  answer_held : taken.response ≡ some response
  answer_held = (response_held machine.builtins machine.fresh l request response now h.exchange).0

  response_named :
      (t : Transaction)
      → t.response ≡ some response
      → or_raise t.response attribute_error ≡ returns response
  response_named t e = rw e refl

  answer_keyed :
      key_token machine.builtins response.source response.token ≡ returns h.exchange.by_token
  answer_keyed = rw (h.exchange.source_given, h.same, h.exchange.token_set) h.exchange.key_of_token

  blocks_passed :
      BlockResponses.receive_response machine.builtins machine.fresh n.server.block_layer
        (answered.cell l.next_cell)
      ≡ returns (n.server.block_layer, some taken)
  unfolding BlockResponses.receive_response BlockResponses.receive_keyed
      BlockResponses.receive_other_response
  blocks_passed =
      rw
        (
          response_named (answered.cell l.next_cell) answer_held,
          answer_keyed,
          BlockResponses.receive_keyed,
          h.not_sent,
          h.one_block,
        )
        refl

  relations_passed :
      (t : Transaction)
      → t.response ≡ some response
      → ObserveLayer.receive_response machine.builtins n.server.observe_layer t ≡ returns t
  unfolding ObserveLayer.receive_response
  relations_passed t e =
      rw
        (
          e,
          answer_keyed,
          h.exchange.acknowledges,
          and_false (Dict.contains n.server.observe_layer h.exchange.by_token) false refl,
        )
        refl

  blocks_received :
      receive_blocks machine (record n.server { message_layer = answered }) l.next_cell
      ≡ returns (record n.server { message_layer = write answered l.next_cell taken })
  unfolding receive_blocks
  blocks_received = rw blocks_passed refl

  request_same : asked ≡ filled request now
  request_same =
      ap (λ (t : Transaction). t.request)
        (request_held machine.builtins machine.fresh l request response now h.exchange)

  asked_unicast : asked.multicast ≡ false
  asked_unicast = ap (λ (m : Message). m.multicast) request_same ∙ h.exchange.unicast

  asked_token : token_key response.token ≡ token_key asked.token
  asked_token = ap token_key (h.same ∙ sym (ap (λ (m : Message). m.token) request_same))

  -- The layer of those that wait, with the response.
  abbrev given : CallbackLayer
  given = (wait_unicast n.callback_layer asked response asked_unicast asked_token).0

  abbrev settled : Node
  settled = record n {
    server = record n.server {
      message_layer = write (write answered l.next_cell taken) l.next_cell taken;
    };
    callback_layer = given;
  }

  delivered :
      deliver
        (record waiting {
          server = record n.server {
            message_layer = write (write answered l.next_cell taken) l.next_cell taken;
          };
        })
        l.next_cell
      ≡ returns settled
  unfolding deliver
  delivered =
      rw
        (
          write_self (write answered l.next_cell taken) l.next_cell taken,
          response_named taken answer_held,
          (wait_unicast n.callback_layer asked response asked_unicast asked_token).1,
        )
        refl

  abbrev passed : Outcome Node → Outcome (Node × Sent)
  passed o = o >>= λ n'. returns (n', silent)

  paired :
      (later : ℕ)
      → take_paired machine
          (record waiting { server = record n.server { message_layer = answered } })
          l.next_cell
          false
          later
        ≡ returns (settled, silent)
  unfolding take_paired take_response
  paired later =
      rw
        (blocks_received, write_self answered l.next_cell taken, relations_passed taken answer_held)
        (ap (λ o. passed o)
          (if-eq_false taken.notification _ _
              (not_notified machine.builtins machine.fresh l request response now h.exchange)
            ∙ delivered))

  received :
      (later : ℕ)
      → datagram_received_response machine waiting response later ≡ returns (settled, silent)
  unfolding datagram_received_response
  received later =
      rw
        (response_taken machine.builtins machine.fresh l request response now h.exchange
          (same_token_self _ _ h.same))
        (paired later)

-- Of a unicast request without Observe, Block1 and Block2 and with a payload that is not cut, from a server
-- that sends its peer no blocks under its token, and an ACK with its message id and token and without
-- Block2: send_message sends one datagram, with that message id and token, and waits. The response, whenever
-- it comes in, makes the server send nothing, and send_message then returns it.
pub send_message_answered :
    (machine : Machine) (n : Node) (request response : Message) (now later : ℕ)
    → IsPlain machine n request response
    → (n' : Node) × (end : Node) × (m : Message) × (retransmits : Bool) × (send_message machine n
          request false now
        ≡ returns (
          n',
          record { datagrams = m ∷ []; retransmits = retransmits },
          some n.callback_layer.next_waiter,
        ))
      × (m.mid ≡ request.mid)
      × (m.token ≡ request.token)
      × (datagram_received_response machine n' response later ≡ returns (end, silent))
      × ((end_message end n.callback_layer.next_waiter).1 ≡ returns (single response))
unfolding end_message wrapped begin_wait
send_message_answered machine n request response now later h =
    let same = request_same machine n request response now h in
    let (waiters, e, answer, again) =
      wait_unicast n.callback_layer (asked machine n request response now h) response
        (asked_unicast machine n request response now h)
        (asked_token machine n request response now h) in
    (
      waiting machine n request response now h,
      settled machine n request response now h,
      asked machine n request response now h,
      _,
      message_sent machine n request response now h,
      ap (λ (x : Message). x.mid) same,
      ap (λ (x : Message). x.token) same,
      received machine n request response now h later,
      rw answer refl,
    )
