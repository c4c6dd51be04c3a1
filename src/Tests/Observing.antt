-- ===== src/Tests/Observing.antt =====
-- The theorems on the observe layer at concrete inputs.
use bubot_co_ap.Prelude.{
  ℕ, suc, ◌+◌, ◌<◌, ◌≡◌, refl, none, some, List, [], ◌∷◌, true, ◌==◌, if◌then◌else◌,
}
use bubot_co_ap.Outcome.{returns, Ends, ◌>>=◌}
use bubot_co_ap.Dict
use bubot_co_ap.Text.{text}
use bubot_co_ap.Defines.{item_of}
use bubot_co_ap.Defines.Types
use bubot_co_ap.Messages.Value.{int}
use bubot_co_ap.Messages.CoapOption.{get_value, read}
use bubot_co_ap.Messages.Message.{Message, Kind}
use bubot_co_ap.Messages.Accessors.{find_observe, set_observe, or_zero}
use bubot_co_ap.Transaction.{Transaction, new_transaction}
use bubot_co_ap.Resources.{Resource, new_resource}
use bubot_co_ap.Utils.Keys.{str_append_hash, append_all, appended}
use bubot_co_ap.Utils.Keys.{Builtins}
use bubot_co_ap.Utils.{byte_len}
use bubot_co_ap.Text.{text_of_int}
use bubot_co_ap.Layers.Keys.{key_token}
use bubot_co_ap.Layers.ObserveLayer.{
  ObserveItem, ObserveLayer, receive_request, receive_empty, send_response,
}
use bubot_co_ap.Layers.ObserveLayer.Notify.{notify}
use bubot_co_ap.Layers.ObserveLayer.Registration.{
  IsObservation, send_response-receive_request, receive_empty-receive_request,
}
use bubot_co_ap.Layers.ObserveLayer.Confirmable.{notified, notification, notified_confirmable}
use bubot_co_ap.Layers.ObserveLayer.Observers.{
  IsAnswered, IsComplete, no_exception, notify-IsComplete,
}
use bubot_co_ap.Tests.Samples.{peer, put_temp}

abbrev size : List ℕ → ℕ
size [] = 0
size (c ∷ s) = size s + 1

abbrev counting : Builtins
counting = record { lower = λ s. s; hash = size }

-- A NON GET with Observe 0, and its answers.
abbrev watch : Message
watch = record put_temp {
  type = some 1;
  code = some 1;
  options = record { number = 6; raw = int 0 } ∷ [];
}

abbrev asked : Transaction
asked = new_transaction watch

abbrev content : Message
content = record put_temp {
  kind = Kind.response;
  code = some 69;
  options = [];
  source = none;
  destination = some peer;
}

abbrev given : Transaction
given = record asked { response = some content; resource = some 4 }

abbrev thermometer : ℕ → Resource
unfolding new_resource
thermometer i = new_resource (text "temp") true true true

given-IsObservation : IsObservation counting asked given
unfolding find_observe get_value read item_of or_zero key_token str_append_hash append_all appended
    text_of_int byte_len
given-IsObservation = record {
  key = _;
  resource = 4;
  response = content;
  code = 69;
  observe_asked = refl;
  key_of_request = refl;
  request_kept = refl;
  resource_set = refl;
  response_set = refl;
  code_set = refl;
}

send_response-receive_request_example :
    (layer' : ObserveLayer) × ((receive_request counting [] asked 0 5 >>= λ registered.
    send_response counting thermometer registered given 0 6)
      ≡ (set_observe content (int 1) >>= λ counted.
          returns (layer', record given { response = some counted })))
    × ((j : ℕ)
        → Dict.get layer' j ≡ (
            if given-IsObservation.key == j
            then some (record {
              timestamp = 6;
              non_counter = some 0;
              allowed = true;
              transaction = some 0;
            })
            else none))
unfolding given-IsObservation new_resource Dict.get thermometer
send_response-receive_request_example =
    send_response-receive_request counting thermometer [] asked given 0 5 6 given-IsObservation refl
      refl

abbrev reset : Message
reset = record put_temp { kind = Kind.plain; type = some 3; code = some 0; options = [] }

receive_empty-receive_request_example :
    (layer' : ObserveLayer) × ((receive_request counting [] asked 0 5 >>= λ registered.
    receive_empty counting registered reset given)
      ≡ returns (layer', record given { completed = true }))
    × ((j : ℕ) → Dict.get layer' j ≡ (if given-IsObservation.key == j then none else none))
unfolding given-IsObservation Dict.get
receive_empty-receive_request_example =
    receive_empty-receive_request counting [] reset asked given 0 5 given-IsObservation refl

abbrev watcher : ObserveItem
watcher = record { timestamp = 5; non_counter = some 9; allowed = true; transaction = some 0 }

notified_confirmable_example :
    ((j : ℕ)
      → j < 2
      → notified (suc j) 4 watcher given
        ≡ returns (
          record watcher { non_counter = some (9 + suc j) },
          notification 4 Types.non given content,
        ))
    × (notified 3 4 watcher given
        ≡ returns (record watcher { non_counter = some 0 }, notification 4 Types.con given content))
notified_confirmable_example = notified_confirmable 4 watcher 2 9 given content refl refl refl

watcher-IsAnswered : IsAnswered (λ i. given) watcher
watcher-IsAnswered = record {
  number = 0;
  counter = 9;
  transaction_set = refl;
  counter_set = refl;
  response_set = refl;
}

notify-IsComplete_example :
    Ends no_exception
      (IsComplete 4 (λ i. given) ((17, watcher) ∷ []))
      (notify 4 ((17, watcher) ∷ []) (λ i. given))
notify-IsComplete_example =
    notify-IsComplete 4 ((17, watcher) ∷ []) (λ i. given) (watcher-IsAnswered, tt)
