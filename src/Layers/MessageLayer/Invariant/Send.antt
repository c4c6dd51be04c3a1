-- ===== src/Layers/MessageLayer/Invariant/Send.antt =====
-- message_layer.py: send_request and send_response keep the layer well-formed.
use bubot_co_ap.Prelude.{
  ℕ, ◌<◌, ◌≡◌, refl, Bool, true, false, ◌&&◌, not, Option, none, some, List, arith, ltb, length,
  if◌then◌else◌, either_branch, either_option,
}
use bubot_co_ap.Outcome.{
  Outcome, Ends, Ends-bind, Any, or_raise-Ends, raise_if-Ends, type_error, attribute_error,
  assertion_error, returns, raises, or_raise,
}
use bubot_co_ap.Defines.Types
use bubot_co_ap.Messages.Message.{Message, set_type, set_mid, set_token, is_request_object}
use bubot_co_ap.Transaction.{create, Transaction}
use bubot_co_ap.Utils.Keys.{Builtins}
use bubot_co_ap.Layers.Table.{int}
use bubot_co_ap.Layers.MessageLayer.{MessageLayer, fetch_mid, is_type}
use bubot_co_ap.Layers.MessageLayer.Sending.{
  fill_mid, fill_request, send_request, type_response, register_response, send_prepared,
  send_response,
}
use bubot_co_ap.Layers.MessageLayer.Invariant.{
  IsSettled, IsSettledResponse, IsSound, IsWellFormed, is_reported, put-AreGiven,
  write-IsWellFormed, allocate-IsWellFormed, fetch_mid-IsWellFormed, set_acknowledged-IsSettled,
  response-IsSettled,
}
use bubot_co_ap.Layers.MessageLayer.Invariant.Receive.{
  Holds, HoldsFor, key_token-Ends, key_mid-Ends, create-IsSound,
}

-- A setter that stores or raises AttributeError.
abbrev guarded : Bool → Message → Outcome Message
guarded refused m = if refused then raises attribute_error else returns m

guarded-IsSettled :
    (refused : Bool) (m : Message) → IsSettled m → Ends is_reported IsSettled (guarded refused m)
unfolding is_reported
guarded-IsSettled true m h = refl
guarded-IsSettled false m h = h

pub set_mid-IsSettled :
    (m : Message) (v : Option ℕ) → IsSettled m → Ends is_reported IsSettled (set_mid m v)
unfolding set_mid IsSettled
set_mid-IsSettled m none h = h
set_mid-IsSettled m (some v) h = guarded-IsSettled (ltb 65536 v) (record m { mid = some v }) h

pub set_type-IsSettled :
    (m : Message) (v : Option ℕ) → IsSettled m → Ends is_reported IsSettled (set_type m v)
unfolding set_type IsSettled is_reported
set_type-IsSettled m none h = h
set_type-IsSettled m (some v) h = either_branch (Ends is_reported IsSettled) (ltb v 4) h refl

pub set_token-IsSettled :
    (fresh : List ℕ) (m : Message) (v : Option (List ℕ))
    → IsSettled m
    → Ends is_reported IsSettled (set_token fresh m v)
unfolding set_token IsSettled
set_token-IsSettled fresh m none h = h
set_token-IsSettled fresh m (some v) h =
    guarded-IsSettled (ltb 256 (length v)) (record m { token = some v }) h

-- A well-formed layer with the same objects, and a message.
abbrev pub Filled : MessageLayer → MessageLayer × Message → Type 0
Filled l (l', m) = IsWellFormed l' × IsSettled m × (l'.next_cell ≡ l.next_cell)

pub fill_mid-Filled :
    (l : MessageLayer) (m : Message)
    → IsWellFormed l
    → IsSettled m
    → Ends is_reported (Filled l) (fill_mid l m)
unfolding fill_mid fetch_mid
fill_mid-Filled l m h settled =
    either_option (Ends is_reported (Filled l)) m.mid _ _
      (Ends-bind is_reported IsSettled (Filled l) _ _
        (set_mid-IsSettled m (some l.current_mid) settled)
        (λ m' settled'. (fetch_mid-IsWellFormed l h, settled', refl)))
      (λ n e. (h, settled, refl))

fill_request-Filled :
    (fresh : List ℕ) (l : MessageLayer) (request : Message) (now : ℕ)
    → IsWellFormed l
    → IsSettled request
    → Ends is_reported (Filled l) (fill_request fresh l request now)
unfolding fill_request IsSettled
fill_request-Filled fresh l request now h settled =
    let typed : Message = elim request.type [
      | some n ↦ record request { timestamp = some now }
      | none ↦ record (record request { timestamp = some now }) { type = some Types.con }
    ] in
    let typed_settled : IsSettled typed =
      either_option IsSettled request.type _ _ settled (λ n e. settled) in
    Ends-bind is_reported (Filled l) (Filled l) (fill_mid l typed) _
      (fill_mid-Filled l typed h typed_settled)
      (λ (l', m) (h', settled', same).
        (h', either_option IsSettled m.token _ _ settled' (λ t e. settled'), same))

pub send_request-Holds :
    (builtins : Builtins) (fresh : List ℕ) (l : MessageLayer) (request : Message) (now : ℕ)
    → IsWellFormed l
    → IsSettled request
    → Ends is_reported Holds (send_request builtins fresh l request now)
unfolding send_request is_reported
send_request-Holds builtins fresh l request now h settled =
    Ends-bind is_reported Any Holds _ _
      (raise_if-Ends is_reported (not (is_request_object request)) assertion_error refl)
      (λ _ _.
        Ends-bind is_reported Any Holds (or_raise request.destination type_error) _
          (or_raise-Ends is_reported Any request.destination type_error refl (λ a e. tt))
          (λ _ _.
            let t = create request now in
            let ht = create-IsSound request now settled in
            Ends-bind is_reported (Filled l) Holds _ _
              (fill_request-Filled fresh l request now h settled)
              (λ (l', m) (h', settled', same).
                let (h'', below) =
                  allocate-IsWellFormed l' (record t { request = m }) h'
                    (record {
                      request_settled = settled';
                      response_settled = ht.response_settled;
                      stamped = ht.stamped;
                    }) in
                either_branch (Ends is_reported Holds) request.multicast
                  (Ends-bind is_reported Any Holds _ _ (key_token-Ends builtins m.source m.token)
                    (λ by_token _. (
                      record {
                        transactions_given = h''.transactions_given;
                        tokens_given = h''.tokens_given;
                        sent_given = h''.sent_given;
                        sent_tokens_given =
                            put-AreGiven _ _ (int by_token) _ h''.sent_tokens_given below;
                        mid_fits = h''.mid_fits;
                        settled = h''.settled;
                      },
                      below,
                    )))
                  (Ends-bind is_reported Any Holds _ _ (key_mid-Ends builtins m.destination m.mid)
                    (λ by_mid _.
                      Ends-bind is_reported Any Holds _ _
                        (key_token-Ends builtins m.destination m.token)
                        (λ by_token _. (
                          record {
                            transactions_given = h''.transactions_given;
                            tokens_given = h''.tokens_given;
                            sent_given = put-AreGiven _ _ (int by_mid) _ h''.sent_given below;
                            sent_tokens_given =
                                put-AreGiven _ _ (int by_token) _ h''.sent_tokens_given below;
                            mid_fits = h''.mid_fits;
                            settled = h''.settled;
                          },
                          below,
                        )))))))

type_response-IsSettled :
    (fresh : List ℕ) (t : Transaction) (response : Message)
    → IsSound t
    → IsSettled response
    → Ends is_reported IsSound (type_response fresh t response)
unfolding type_response IsSettledResponse
type_response-IsSettled fresh t response h settled =
    let Goal : Outcome Transaction → Type 0 = Ends is_reported IsSound in
    let typed : (n : ℕ) → Ends is_reported IsSettled (set_type response (some n)) =
      λ n. set_type-IsSettled response (some n) settled in
    let kept : (m : Message) → IsSettled m → IsSound (record t { response = some m }) = λ m hm.
      record { request_settled = h.request_settled; response_settled = hm; stamped = h.stamped } in
    either_branch Goal (is_type t.request Types.con && not t.request.acknowledged)
      (Ends-bind is_reported IsSettled IsSound _ _ (typed Types.ack) (λ m hm.
        Ends-bind is_reported IsSettled IsSound _ _ (set_mid-IsSettled m t.request.mid hm) (λ m' _.
          record {
            request_settled = h.request_settled;
            response_settled = set_acknowledged-IsSettled m' true refl;
            stamped = h.stamped;
          })))
      (either_branch Goal (is_type t.request Types.non)
        (Ends-bind is_reported IsSettled IsSound _ _ (typed Types.non) kept)
        (Ends-bind is_reported IsSettled IsSound _ _ (typed Types.con) (λ m hm.
          Ends-bind is_reported IsSettled IsSound _ _
            (set_token-IsSettled fresh m t.request.token hm) kept)))

register_response-Filled :
    (builtins : Builtins) (l : MessageLayer) (c : ℕ) (response : Message)
    → IsWellFormed l
    → c < l.next_cell
    → IsSettled response
    → Ends is_reported (Filled l) (register_response builtins l c response)
unfolding register_response
register_response-Filled builtins l c response h below settled =
    either_option (Ends is_reported (Filled l)) response.mid _ _
      (Ends-bind is_reported (Filled l) (Filled l) _ _ (fill_mid-Filled l response h settled)
        (λ (l', m) (h', settled', same).
          Ends-bind is_reported Any (Filled l) _ _ (key_mid-Ends builtins m.destination m.mid)
            (λ by_mid _. (
              record {
                transactions_given =
                    put-AreGiven _ _ (int by_mid) c h'.transactions_given (omega arith);
                tokens_given = h'.tokens_given;
                sent_given = h'.sent_given;
                sent_tokens_given = h'.sent_tokens_given;
                mid_fits = h'.mid_fits;
                settled = h'.settled;
              },
              settled',
              same,
            ))))
      (λ n e. (h, settled, refl))

send_prepared-Holds :
    (builtins : Builtins) (fresh : List ℕ) (l : MessageLayer) (c : ℕ) (response : Message)
    → IsWellFormed l
    → c < l.next_cell
    → IsSettled response
    → Ends is_reported HoldsFor (send_prepared builtins fresh l c response)
unfolding send_prepared IsSettledResponse is_reported
send_prepared-Holds builtins fresh l c response h below settled =
    Ends-bind is_reported IsSound HoldsFor _ _
      (either_option (Ends is_reported IsSound) response.type _ _
        (type_response-IsSettled fresh (l.cell c) response (h.settled c) settled)
        (λ n e. h.settled c))
      (λ t ht.
        Ends-bind is_reported IsSettled HoldsFor (or_raise t.response attribute_error) _
          (or_raise-Ends is_reported IsSettled t.response attribute_error refl
            (λ r e. response-IsSettled t r ht e))
          (λ typed settled'.
            Ends-bind is_reported (Filled l) HoldsFor _ _
              (register_response-Filled builtins l c typed h below settled')
              (λ (l', m) (h', settled'', same). write-IsWellFormed l' c _ h' (record {
                request_settled = set_acknowledged-IsSettled t.request true refl;
                response_settled = settled'';
                stamped = ht.stamped;
              }))))

pub send_response-Holds :
    (builtins : Builtins) (fresh : List ℕ) (l : MessageLayer) (c : ℕ)
    → IsWellFormed l
    → c < l.next_cell
    → Ends is_reported HoldsFor (send_response builtins fresh l c)
unfolding send_response IsSettledResponse
send_response-Holds builtins fresh l c h below =
    either_option (Ends is_reported HoldsFor) (l.cell c).response _ _
      (write-IsWellFormed l c _ h (record {
        request_settled = (h.settled c).request_settled;
        response_settled = (h.settled c).response_settled;
        stamped = (h.settled c).stamped;
      }))
      (λ response e.
        send_prepared-Holds builtins fresh l c response h below
          (response-IsSettled (l.cell c) response (h.settled c) e))
