-- ===== src/Layers/MessageLayer/Invariant/Receive.antt =====
-- message_layer.py: receive_request, receive_response and receive_empty keep the layer well-formed.
use bubot_co_ap.Prelude.{
  ℕ, ◌<◌, ◌≡◌, refl, Bool, true, false, ◌||◌, not, Option, none, some, List, arith, ◌==◌,
  if◌then◌else◌, either_branch, either_option, guarded-eq_some,
}
use bubot_co_ap.Outcome.{
  Outcome, Ends, Ends-bind, Any, or_raise-Ends, type_error, attribute_error, returns, or_raise,
}
use bubot_co_ap.Text.{Text}
use bubot_co_ap.Defines.Types
use bubot_co_ap.Messages.Message.{Message, Address, set_acknowledged, set_rejected}
use bubot_co_ap.Transaction.{Transaction, create}
use bubot_co_ap.Utils.Keys.{Builtins}
use bubot_co_ap.Layers.Keys.{key_token, key_mid}
use bubot_co_ap.Layers.Table
use bubot_co_ap.Layers.Table.{Table, Key, int}
use bubot_co_ap.Layers.MessageLayer.{
  MessageLayer, allocate, write, store_request, duplicate, receive_request, match_response,
  receive_response, react, match_empty, receive_empty, token_key, number_key, has_mid,
  stop_retransmission, is_type,
}
use bubot_co_ap.Layers.MessageLayer.Invariant.{
  IsSettled, IsSettledResponse, IsSound, IsWellFormed, is_reported, put-AreGiven, get-AreGiven,
  write-IsWellFormed, allocate-IsWellFormed, set_acknowledged-IsSettled, set_rejected-IsSettled,
}

-- A well-formed layer and one of its transactions.
abbrev pub Holds : MessageLayer × ℕ → Type 0
Holds (l, c) = IsWellFormed l × (c < l.next_cell)

pub key_token-Ends :
    (builtins : Builtins) (a : Option Address) (t : Option (List ℕ))
    → Ends is_reported Any (key_token builtins a t)
unfolding key_token is_reported
key_token-Ends builtins none t = refl
key_token-Ends builtins (some a) t = tt

pub key_mid-Ends :
    (builtins : Builtins) (a : Option Address) (m : Option ℕ)
    → Ends is_reported Any (key_mid builtins a m)
unfolding key_mid is_reported
key_mid-Ends builtins none m = refl
key_mid-Ends builtins (some a) m = tt

pub create-IsSound : (m : Message) (now : ℕ) → IsSettled m → IsSound (create m now)
unfolding create IsSettledResponse
create-IsSound m now h = record {
  request_settled = h;
  response_settled = tt;
  stamped = (now, refl);
}

fresh-Holds :
    (l : MessageLayer) (request : Message) (now : ℕ) (by_mid by_token : Key)
    → IsWellFormed l
    → IsSettled request
    → Ends is_reported Holds (do
      let t = create request now
      let (l', c) = allocate l t
      returns (
        record l' {
          transactions_token = Table.put l'.transactions_token by_token c;
          transactions = Table.put l'.transactions by_mid c;
        },
        c,
      ))
fresh-Holds l request now by_mid by_token h settled =
    let t = create request now in
    let ht = create-IsSound request now settled in
    let (h', below) = allocate-IsWellFormed l t h ht in
    (
      record {
        transactions_given = put-AreGiven _ _ by_mid _ h'.transactions_given below;
        tokens_given = put-AreGiven _ _ by_token _ h'.tokens_given below;
        sent_given = h'.sent_given;
        sent_tokens_given = h'.sent_tokens_given;
        mid_fits = h'.mid_fits;
        settled = h'.settled;
      },
      below,
    )

store_request-Holds :
    (l : MessageLayer) (request : Message) (now : ℕ) (by_mid by_token : Key)
    → IsWellFormed l
    → IsSettled request
    → Ends is_reported Holds (store_request l request now by_mid by_token)
unfolding store_request write
store_request-Holds l request now by_mid by_token h settled =
    let fresh = fresh-Holds l request now by_mid by_token h settled in
    either_option (Ends is_reported Holds) (Table.get l.transactions_token by_token) _ _ fresh
      (λ c e. either_option (Ends is_reported Holds) (l.cell c).response _ _ fresh (λ response r.
        let below = get-AreGiven _ _ by_token c h.tokens_given e in
        let h' =
          write-IsWellFormed l c (record (l.cell c) { request = request }) h
            (record {
              request_settled = settled;
              response_settled = (h.settled c).response_settled;
              stamped = (h.settled c).stamped;
            }) in
        (
          record {
            transactions_given = put-AreGiven _ _ by_mid _ h.transactions_given below;
            tokens_given = h'.tokens_given;
            sent_given = h'.sent_given;
            sent_tokens_given = h'.sent_tokens_given;
            mid_fits = h'.mid_fits;
            settled = h'.settled;
          },
          below,
        )))

duplicate-Holds :
    (l : MessageLayer) (c : ℕ) → IsWellFormed l → c < l.next_cell → Holds (duplicate l c, c)
unfolding duplicate write IsSettled
duplicate-Holds l c h below = (
  write-IsWellFormed l c _ h (record {
    request_settled = (h.settled c).request_settled;
    response_settled = (h.settled c).response_settled;
    stamped = (h.settled c).stamped;
  }),
  below,
)

pub receive_request-Holds :
    (builtins : Builtins) (l : MessageLayer) (request : Message) (now : ℕ)
    → IsWellFormed l
    → IsSettled request
    → Ends is_reported Holds (receive_request builtins l request now)
unfolding receive_request IsSettled is_reported
receive_request-Holds builtins l request now h settled =
    let stored : (by_mid by_token : Key)
        → Ends is_reported Holds
            (store_request l (record request { timestamp = some now }) now by_mid by_token) =
      λ by_mid by_token. store_request-Holds l _ now by_mid by_token h settled in
    either_branch (Ends is_reported Holds) request.multicast
      (Ends-bind is_reported Any Holds (or_raise request.source type_error) _
        (or_raise-Ends is_reported Any request.source type_error refl (λ a e. tt))
        (λ a _.
          either_option (Ends is_reported Holds)
            (Table.get l.transactions_token (token_key request.token)) _ _
            (stored (number_key request.mid) (token_key request.token))
            (λ c e. duplicate-Holds l c h (get-AreGiven _ _ _ c h.tokens_given e))))
      (Ends-bind is_reported Any Holds _ _ (key_mid-Ends builtins request.source request.mid)
        (λ by_mid _.
          Ends-bind is_reported Any Holds _ _ (key_token-Ends builtins request.source request.token)
            (λ by_token _.
              either_option (Ends is_reported Holds)
                (if has_mid request.mid then Table.get l.transactions (int by_mid) else none) _ _
                (stored (int by_mid) (int by_token))
                (λ c e. duplicate-Holds l c h (
                  get-AreGiven _ _ _ c h.transactions_given
                    (guarded-eq_some (has_mid request.mid) _ c e))))))

-- A transaction that is found is one that the layer gave out.
abbrev pub IsFound : MessageLayer → Option ℕ → Type 0
IsFound l o = (c : ℕ) → o ≡ some c → c < l.next_cell

checked-IsFound :
    (l : MessageLayer) (b : Bool) (c : ℕ) → c < l.next_cell → IsFound l (if b then some c else none)
checked-IsFound l true c below d e = ground arith
checked-IsFound l false c below d e = absurd (cc)

match_response-IsFound :
    (builtins : Builtins) (l : MessageLayer) (response : Message)
    → IsWellFormed l
    → Ends is_reported (IsFound l) (match_response builtins l response)
unfolding match_response is_reported
match_response-IsFound builtins l response h =
    Ends-bind is_reported Any (IsFound l) _ _ (key_mid-Ends builtins response.source response.mid)
      (λ by_mid _.
        Ends-bind is_reported Any (IsFound l) _ _
          (key_token-Ends builtins response.source response.token)
          (λ by_token _.
            Ends-bind is_reported Any (IsFound l) _ _
              (key_token-Ends builtins response.destination response.token)
              (λ by_destination _.
                let acknowledges = is_type response Types.ack || is_type response Types.rst in
                either_option (Ends is_reported (IsFound l))
                  (if acknowledges then Table.get l.transactions_sent (int by_mid) else none) _ _
                  (either_option (Ends is_reported (IsFound l))
                    (Table.get l.transactions_sent_token (int by_token)) _ _
                    (either_option (Ends is_reported (IsFound l))
                      (Table.get l.transactions_sent_token (int by_destination)) (returns none) _
                      (λ d e. absurd (cc))
                      (λ c e. checked-IsFound l _ c (get-AreGiven _ _ _ c h.sent_tokens_given e)))
                    (λ c e d e'.
                      ground (arith, get-AreGiven _ _ (int by_token) c h.sent_tokens_given e)))
                  (λ c e.
                    checked-IsFound l _ c
                      (get-AreGiven _ _ _ c h.sent_given (guarded-eq_some acknowledges _ c e))))))

stop_retransmission-IsSettled : (t : Transaction) → IsSound t → IsSound (stop_retransmission t)
unfolding stop_retransmission
stop_retransmission-IsSettled t h = either_option IsSound t.retransmit_stop _ _ h (λ b e. record {
  request_settled = h.request_settled;
  response_settled = h.response_settled;
  stamped = h.stamped;
})

-- A well-formed layer and, if there is one, a transaction of it.
abbrev pub HoldsFor {ℓ} : {A : Type ℓ} → MessageLayer × A → Type 0
HoldsFor (l, a) = IsWellFormed l

pub receive_response-Holds :
    (builtins : Builtins) (l : MessageLayer) (response : Message)
    → IsWellFormed l
    → IsSettled response
    → Ends is_reported HoldsFor (receive_response builtins l response)
unfolding receive_response IsSettledResponse
receive_response-Holds builtins l response h settled =
    Ends-bind is_reported (IsFound l) HoldsFor _ _ (match_response-IsFound builtins l response h)
      (λ found _. either_option (Ends is_reported HoldsFor) found _ _ h (λ c e.
        let answered = record (l.cell c) {
          request = set_acknowledged (l.cell c).request true;
          completed = true;
          response = some response;
        } in
        write-IsWellFormed l c _ h (
          stop_retransmission-IsSettled answered (record {
            request_settled = set_acknowledged-IsSettled (l.cell c).request true refl;
            response_settled = settled;
            stamped = (h.settled c).stamped;
          }))))

acknowledge-IsSettled :
    (t : Transaction) → IsSound t → IsSound (record t { request = set_acknowledged t.request true })
acknowledge-IsSettled t h = record {
  request_settled = set_acknowledged-IsSettled t.request true refl;
  response_settled = h.response_settled;
  stamped = h.stamped;
}

reject-IsSettled :
    (t : Transaction) → IsSound t → IsSound (record t { request = set_rejected t.request true })
reject-IsSettled t h = record {
  request_settled = set_rejected-IsSettled t.request true refl;
  response_settled = h.response_settled;
  stamped = h.stamped;
}

respond-IsSettled :
    (t : Transaction) (r : Message)
    → IsSound t
    → IsSettled r
    → IsSound (record t { response = some r })
unfolding IsSettledResponse
respond-IsSettled t r h settled = record {
  request_settled = h.request_settled;
  response_settled = settled;
  stamped = h.stamped;
}

react-IsSettled :
    (t : Transaction) (type : Option ℕ) → IsSound t → Ends is_reported IsSound (react t type)
unfolding react is_reported
react-IsSettled t none h = h
react-IsSettled t (some n) h =
    let Goal : Outcome Transaction → Type 0 = Ends is_reported IsSound in
    either_branch Goal (n == Types.ack)
      (either_branch Goal (not t.request.acknowledged) (acknowledge-IsSettled t h) (
        either_option Goal t.response (returns t) _ h (λ r e.
          either_branch IsSound r.acknowledged h
            (respond-IsSettled t _ h (set_acknowledged-IsSettled r true refl)))))
      (either_branch Goal (n == Types.rst)
        (either_branch Goal (not t.request.acknowledged) (reject-IsSettled t h) (
          Ends-bind is_reported Any IsSound (or_raise t.response attribute_error) _
            (or_raise-Ends is_reported Any t.response attribute_error refl (λ r e. tt))
            (λ r _.
              either_branch IsSound r.acknowledged h
                (respond-IsSettled t _ h (set_rejected-IsSettled r true refl)))))
        (either_branch Goal (n == Types.con) (acknowledge-IsSettled t h) h))

match_empty-Ends :
    (builtins : Builtins) (is_ipv6 : Text → Bool) (l : MessageLayer) (message : Message)
    → Ends is_reported Any (match_empty builtins is_ipv6 l message)
unfolding match_empty is_reported
match_empty-Ends builtins is_ipv6 l message =
    Ends-bind is_reported Any Any (or_raise message.source type_error) _
      (or_raise-Ends is_reported Any message.source type_error refl (λ a e. tt))
      (λ source _. Ends-bind is_reported Any Any _ _ (key_mid-Ends builtins _ message.mid) (λ _ _.
        Ends-bind is_reported Any Any _ _ (key_mid-Ends builtins _ message.mid) (λ _ _.
          Ends-bind is_reported Any Any _ _ (key_token-Ends builtins _ message.token) (λ _ _.
            Ends-bind is_reported Any Any _ _ (key_token-Ends builtins _ message.token)
              (λ _ _. tt)))))

pub receive_empty-Holds :
    (builtins : Builtins) (is_ipv6 : Text → Bool) (l : MessageLayer) (message : Message)
    → IsWellFormed l
    → Ends is_reported HoldsFor (receive_empty builtins is_ipv6 l message)
unfolding receive_empty
receive_empty-Holds builtins is_ipv6 l message h =
    Ends-bind is_reported Any HoldsFor _ _ (match_empty-Ends builtins is_ipv6 l message) (λ found _.
      either_option (Ends is_reported HoldsFor) found _ _ h (λ c e.
        Ends-bind is_reported IsSound HoldsFor _ _
          (react-IsSettled (l.cell c) message.type (h.settled c))
          (λ t settled. write-IsWellFormed l c _ h (stop_retransmission-IsSettled t settled))))
