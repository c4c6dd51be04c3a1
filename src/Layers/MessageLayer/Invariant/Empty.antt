-- ===== src/Layers/MessageLayer/Invariant/Empty.antt =====
-- message_layer.py: send_empty and purge keep the layer well-formed.
use bubot_co_ap.Prelude.{
  ℕ, refl, Bool, true, Option, none, some, List, [], ◌∷◌, either_branch, either_option,
}
use bubot_co_ap.Outcome.{
  Outcome, Ends, Ends-bind, Any, or_raise-Ends, type_error, attribute_error, returns, or_raise,
}
use bubot_co_ap.Defines.Types
use bubot_co_ap.Defines.{known_code}
use bubot_co_ap.Messages.Message.{Message, set_code}
use bubot_co_ap.Transaction.{Transaction}
use bubot_co_ap.Utils.Keys.{Builtins}
use bubot_co_ap.Layers.Table
use bubot_co_ap.Layers.Table.{Table, Key, int}
use bubot_co_ap.Layers.Block.{BlockLayer}
use bubot_co_ap.Layers.MessageLayer.{MessageLayer, is_type}
use bubot_co_ap.Layers.MessageLayer.Sending.{fill_mid}
use bubot_co_ap.Layers.MessageLayer.Empty.{
  Related, to_request, to_response, to_nothing, answer_to, from_destination, acknowledge_request,
  acknowledge_response, reject_request, reject_response, send_related, send_empty,
}
use bubot_co_ap.Layers.MessageLayer.Purge.{purge_table, purge}
use bubot_co_ap.Layers.MessageLayer.Invariant.{
  IsSettled, IsSettledResponse, IsSound, IsWellFormed, AreGiven, is_reported, write-IsWellFormed,
  set_acknowledged-IsSettled, set_rejected-IsSettled,
}
use bubot_co_ap.Layers.MessageLayer.Invariant.Receive.{HoldsFor, key_token-Ends, key_mid-Ends}
use bubot_co_ap.Layers.MessageLayer.Invariant.Send.{
  Filled, fill_mid-Filled, set_mid-IsSettled, set_token-IsSettled,
}

set_code-IsSettled :
    (m : Message) (code : ℕ) → IsSettled m → Ends is_reported IsSettled (set_code m (some code))
unfolding set_code is_reported IsSettled
set_code-IsSettled m code h = either_branch (Ends is_reported IsSettled) (known_code code) h refl

answer_to-IsSettled :
    (related message : Message)
    → IsSettled message
    → Ends is_reported IsSettled (answer_to related message)
unfolding answer_to IsSettled
answer_to-IsSettled related message h =
    Ends-bind is_reported IsSettled IsSettled _ _ (set_code-IsSettled message 0 h) (λ m hm. hm)

from_destination-IsSettled :
    (related m : Message) → IsSettled m → Ends is_reported IsSettled (from_destination related m)
unfolding from_destination is_reported IsSettled
from_destination-IsSettled related m h =
    Ends-bind is_reported Any IsSettled (or_raise related.destination attribute_error) _
      (or_raise-Ends is_reported Any related.destination attribute_error refl (λ a e. tt))
      (λ a _. h)

module _ (l : MessageLayer) (c : ℕ) (h : IsWellFormed l) where
  request_written :
      (m : Message) (b : Bool)
      → IsSettled m
      → IsSound (record (l.cell c) { request = m; completed = b })
  request_written m b settled = record {
    request_settled = settled;
    response_settled = (h.settled c).response_settled;
    stamped = (h.settled c).stamped;
  }

  response_written :
      (m : Message) (b : Bool)
      → IsSettled m
      → IsSound (record (l.cell c) { response = some m; completed = b })
  unfolding IsSettledResponse
  response_written m b settled = record {
    request_settled = (h.settled c).request_settled;
    response_settled = settled;
    stamped = (h.settled c).stamped;
  }

  acknowledge_request-Holds :
      (message : Message)
      → IsSettled message
      → Ends is_reported HoldsFor (acknowledge_request l c message)
  unfolding acknowledge_request
  acknowledge_request-Holds message settled =
      let t = l.cell c in
      Ends-bind is_reported IsSettled HoldsFor _ _ (set_mid-IsSettled message t.request.mid settled)
        (λ m hm.
          Ends-bind is_reported IsSettled HoldsFor _ _ (answer_to-IsSettled t.request m hm) (λ m hm.
            Ends-bind is_reported IsSettled HoldsFor _ _ (from_destination-IsSettled t.request m hm)
              (λ m hm.
                write-IsWellFormed l c _ h
                  (request_written _ true (set_acknowledged-IsSettled t.request true refl)))))

  acknowledge_response-Holds :
      (fresh : List ℕ) (message : Message)
      → IsSettled message
      → Ends is_reported HoldsFor (acknowledge_response fresh l c message)
  unfolding acknowledge_response is_reported
  acknowledge_response-Holds fresh message settled =
      Ends-bind is_reported Any HoldsFor (or_raise (l.cell c).response attribute_error) _
        (or_raise-Ends is_reported Any (l.cell c).response attribute_error refl (λ a e. tt))
        (λ r _.
          Ends-bind is_reported IsSettled HoldsFor _ _ (set_mid-IsSettled message r.mid settled)
            (λ m hm.
              Ends-bind is_reported IsSettled HoldsFor _ _ (answer_to-IsSettled r m hm) (λ m hm.
                Ends-bind is_reported IsSettled HoldsFor _ _
                  (set_token-IsSettled fresh m r.token hm)
                  (λ m hm.
                    Ends-bind is_reported IsSettled HoldsFor _ _ (from_destination-IsSettled r m hm)
                      (λ m hm.
                        write-IsWellFormed l c _ h
                          (response_written _ true (set_acknowledged-IsSettled r true refl)))))))

  reject_request-Holds :
      (fresh : List ℕ) (message : Message)
      → IsSettled message
      → Ends is_reported HoldsFor (reject_request fresh l c message)
  unfolding reject_request IsSettled
  reject_request-Holds fresh message settled =
      let t = l.cell c in
      let given : Message = record message { mid = t.request.mid } in
      Ends-bind is_reported (Filled l) HoldsFor (fill_mid l given) _
        (fill_mid-Filled l given h settled)
        (λ (l', m) (h', hm, same).
          Ends-bind is_reported IsSettled HoldsFor _ _ (answer_to-IsSettled t.request m hm) (λ m hm.
            Ends-bind is_reported IsSettled HoldsFor _ _
              (set_token-IsSettled fresh m t.request.token hm)
              (λ m hm.
                write-IsWellFormed l' c _ h'
                  (request_written _ t.completed (set_rejected-IsSettled t.request true refl)))))

  reject_response-Holds :
      (fresh : List ℕ) (message : Message)
      → IsSettled message
      → Ends is_reported HoldsFor (reject_response fresh l c message)
  unfolding reject_response IsSettled is_reported
  reject_response-Holds fresh message settled =
      Ends-bind is_reported Any HoldsFor (or_raise (l.cell c).response attribute_error) _
        (or_raise-Ends is_reported Any (l.cell c).response attribute_error refl (λ a e. tt))
        (λ r _.
          let given : Message = record message { mid = r.mid } in
          Ends-bind is_reported (Filled l) HoldsFor (fill_mid l given) _
            (fill_mid-Filled l given h settled)
            (λ (l', m) (h', hm, same).
              Ends-bind is_reported IsSettled HoldsFor _ _ (answer_to-IsSettled r m hm) (λ m hm.
                Ends-bind is_reported IsSettled HoldsFor _ _
                  (set_token-IsSettled fresh m r.token hm)
                  (λ m hm.
                    write-IsWellFormed l' c _ h'
                      (response_written _ true (set_rejected-IsSettled r true refl))))))

  on_request-Holds :
      (fresh : List ℕ) (message : Message)
      → IsSettled message
      → Ends is_reported HoldsFor (send_related fresh l c to_request message)
  unfolding send_related
  on_request-Holds fresh message settled =
      either_branch (Ends is_reported HoldsFor) (is_type message Types.ack)
        (acknowledge_request-Holds message settled)
        (either_branch (Ends is_reported HoldsFor) (is_type message Types.rst)
          (reject_request-Holds fresh message settled) h)

  on_response-Holds :
      (fresh : List ℕ) (message : Message)
      → IsSettled message
      → Ends is_reported HoldsFor (send_related fresh l c to_response message)
  unfolding send_related
  on_response-Holds fresh message settled =
      either_branch (Ends is_reported HoldsFor) (is_type message Types.ack)
        (acknowledge_response-Holds fresh message settled)
        (either_branch (Ends is_reported HoldsFor) (is_type message Types.rst)
          (reject_response-Holds fresh message settled) h)

  send_related-Holds :
      (fresh : List ℕ) (related : Related) (message : Message)
      → IsSettled message
      → Ends is_reported HoldsFor (send_related fresh l c related message)
  unfolding send_related
  send_related-Holds fresh to_request message settled = on_request-Holds fresh message settled
  send_related-Holds fresh to_response message settled = on_response-Holds fresh message settled
  send_related-Holds fresh to_nothing message settled =
      either_option (Ends is_reported HoldsFor) (l.cell c).response _ (λ r. returns (l, message))
        (on_response-Holds fresh message settled) (λ r e. h)

pub send_empty-Holds :
    (builtins : Builtins) (fresh : List ℕ) (l : MessageLayer) (transaction : Option ℕ)
    (related : Related) (message : Message)
    → IsWellFormed l
    → IsSettled message
    → Ends is_reported HoldsFor (send_empty builtins fresh l transaction related message)
unfolding send_empty
send_empty-Holds builtins fresh l (some c) related message h settled =
    send_related-Holds l c h fresh related message settled
send_empty-Holds builtins fresh l none related message h settled =
    let Goal : Outcome (MessageLayer × Message) → Type 0 = Ends is_reported HoldsFor in
    Ends-bind is_reported Any HoldsFor _ _ (key_mid-Ends builtins message.destination message.mid)
      (λ by_mid _.
        Ends-bind is_reported Any HoldsFor _ _
          (key_token-Ends builtins message.destination message.token)
          (λ by_token _.
            either_option Goal (Table.get l.transactions (int by_mid)) _ _
              (either_option Goal (Table.get l.transactions_token (int by_token)) _ _ h
                (λ c e. send_related-Holds l c h fresh to_response message settled))
              (λ c e. send_related-Holds l c h fresh to_response message settled)))

-- What stays in the table is objects that were given out.
abbrev Kept : ℕ → Table ℕ × List Key → Type 0
Kept n (kept, gone) = AreGiven n kept

purge_table-AreGiven :
    (n : ℕ) (cell : ℕ → Transaction) (timeout now : ℕ) (table : Table ℕ)
    → AreGiven n table
    → Ends is_reported (Kept n) (purge_table cell timeout now table)
unfolding purge_table is_reported
purge_table-AreGiven n cell timeout now [] h = tt
purge_table-AreGiven n cell timeout now ((k, c) ∷ table) h =
    Ends-bind is_reported Any (Kept n) _ _
      (Ends-bind is_reported Any Any (or_raise (cell c).timestamp type_error) _
        (or_raise-Ends is_reported Any (cell c).timestamp type_error refl (λ a e. tt)) (λ a _. tt))
      (λ over _.
        Ends-bind is_reported (Kept n) (Kept n) _ _
          (purge_table-AreGiven n cell timeout now table h.1)
          (λ (kept, gone) hk.
            either_branch (Kept n) over {x = (kept, k ∷ gone)} {y = ((k, c) ∷ kept, gone)} hk
              (h.0, hk)))

pub purge-Holds :
    (l : MessageLayer) (blocks : BlockLayer) (timeout now : ℕ)
    → IsWellFormed l
    → Ends is_reported HoldsFor (purge l blocks timeout now)
unfolding purge
purge-Holds l blocks timeout now h =
    Ends-bind is_reported (Kept l.next_cell) HoldsFor _ _
      (purge_table-AreGiven l.next_cell l.cell timeout now l.transactions h.transactions_given)
      (λ (kept, gone) hk.
        Ends-bind is_reported (Kept l.next_cell) HoldsFor _ _
          (purge_table-AreGiven l.next_cell l.cell timeout now l.transactions_token h.tokens_given)
          (λ (kept', gone') hk'. record {
            transactions_given = hk;
            tokens_given = hk';
            sent_given = h.sent_given;
            sent_tokens_given = h.sent_tokens_given;
            mid_fits = h.mid_fits;
            settled = h.settled;
          }))
