-- ===== src/Tests/Serving.antt =====
-- The theorems on the callback layer, the request layer and the server at concrete inputs.
use bubot_co_ap.Prelude.{ℕ, ◌≡◌, refl, inl, inr, none, some, [], ◌∷◌, arith, true, false}
use bubot_co_ap.Outcome.{Ends, returns, raises, invalid_state_error}
use bubot_co_ap.Text.{Text, text}
use bubot_co_ap.Defines.{item_of}
use bubot_co_ap.Defines.Codes
use bubot_co_ap.Messages.CoapOption.{get_value, read}
use bubot_co_ap.Messages.Message.{Message, Kind, get_scheme}
use bubot_co_ap.Messages.Request.{uri_path, segments, str_of, drop_last}
use bubot_co_ap.Messages.Options.Values.{values_of}
use bubot_co_ap.Transaction.{Transaction, new_transaction, ends_with}
use bubot_co_ap.Resources.{new_resource}
use bubot_co_ap.Layers.Table
use bubot_co_ap.Layers.Table.{same_key}
use bubot_co_ap.Layers.MessageLayer.{token_key}
use bubot_co_ap.Layers.CallbackLayer.{
  CallbackLayer, new_callback_layer, begin_wait, set_result, end_wait, single, several,
}
use bubot_co_ap.Layers.CallbackLayer.Collected.{
  IsFresh, deliver, of_token, is_answered_twice, wait_multicast, wait_unicast,
}
use bubot_co_ap.Layers.RequestLayer.{ResourceLayer, receive_request}
use bubot_co_ap.Layers.RequestLayer.Missing.{IsMissing, answer, receive_request_missing}
use bubot_co_ap.Server.Directory.{Directory, lookup, actual_path, add_resource, remove_resource}
use bubot_co_ap.Server.Directory.Laws.{remove_resource-add_resource}
use bubot_co_ap.Server.Retransmission.{Seen, World, rounds, starts_retransmission}
use bubot_co_ap.Server.Retransmission.Bounds.{
  IsOver, begun, no_exception, retransmit-IsOver, starts_retransmission_idle,
}
use bubot_co_ap.Tests.Samples.{peer, put_temp, path_option}

abbrev nobody : CallbackLayer
unfolding new_callback_layer
nobody = new_callback_layer put_temp

nobody-IsFresh : IsFresh nobody
unfolding nobody new_callback_layer Table.get
nobody-IsFresh j c e = absurd (cc)

abbrev everyone : Message
everyone = record put_temp { multicast = true }

abbrev reply : Message
reply = record put_temp { kind = Kind.response; type = some 1; code = some 69; options = [] }

wait_multicast_example :
    Ends is_answered_twice
      (λ l'.
        (end_wait l' (begin_wait nobody everyone).1).1
        ≡ returns (several (of_token (token_key everyone.token) (reply ∷ reply ∷ []))))
      (deliver (begin_wait nobody everyone).0 (reply ∷ reply ∷ []))
wait_multicast_example = wait_multicast nobody everyone (reply ∷ reply ∷ []) nobody-IsFresh refl

wait_unicast_example :
    (l' : CallbackLayer) × (set_result (begin_wait nobody put_temp).0 reply ≡ returns l')
    × ((end_wait l' (begin_wait nobody put_temp).1).1 ≡ returns (single reply))
    × (set_result l' reply ≡ raises invalid_state_error)
wait_unicast_example = wait_unicast nobody put_temp reply refl refl

abbrev quiet : Seen
quiet = record { acknowledged = false; rejected = false; stopped = false }

abbrev silence : World
silence = record { has_stop = true; after_wait = λ n. quiet; after_send = λ n. quiet }

retransmit-IsOver_example : Ends no_exception IsOver (rounds 6 silence (begun 2 quiet))
retransmit-IsOver_example = retransmit-IsOver silence 2 quiet

abbrev known : Message
known = record put_temp { acknowledged = true }

starts_retransmission_idle_example :
    rounds 6 silence (begun 2 (record quiet { acknowledged = true }))
    ≡ returns (begun 2 (record quiet { acknowledged = true }))
unfolding starts_retransmission ends_with get_scheme
starts_retransmission_idle_example =
    starts_retransmission_idle silence (new_transaction known) known 2
      (record quiet { acknowledged = true }) refl refl

abbrev empty : Directory
unfolding new_resource
empty = record { root = []; resource = λ i. new_resource (text "r") true true true }

remove_resource-add_resource_example :
    (d' : Directory) × (remove_resource (add_resource empty (text "/a/b/") 3) (text "/a/b/")
      ≡ (d', some 3))
    × (lookup d' (actual_path (text "/a/b/")) ≡ none)
    × ((q : Text) (x : ℕ) → lookup empty q ≡ some x → lookup d' q ≡ some x)
remove_resource-add_resource_example =
    remove_resource-add_resource empty (text "/a/b/") 3 (unfold lookup Table.get empty in refl)

abbrev no_resources : ResourceLayer
no_resources = record {
  discover = λ d t. returns (d, t);
  get_resource = λ d t. returns (d, t);
  create_resource = λ path d t. returns (d, t);
  update_resource = λ d t. returns (d, t);
  delete_resource = λ path d t. returns (d, t);
}

abbrev put_here : Transaction
put_here = new_transaction (record put_temp { options = path_option ∷ []; destination = some peer })

put_here-IsMissing : IsMissing empty put_here
unfolding uri_path segments str_of values_of drop_last get_value read item_of lookup Table.get
    same_key empty
put_here-IsMissing = record {
  code = 3;
  path = text "temp";
  here = peer;
  token = 1 ∷ 2 ∷ 3 ∷ 4 ∷ [];
  code_set = refl;
  is_method = inr (inl refl);
  unicast = refl;
  path_read = refl;
  destination_set = refl;
  token_set = refl;
  token_short = omega arith;
  no_resource = refl;
  no_discovery = refl;
}

receive_request_missing_example :
    receive_request [] no_resources empty put_here
    ≡ returns (
      empty,
      record put_here {
        response = some (record (answer put_here.request peer (1 ∷ 2 ∷ 3 ∷ 4 ∷ [])) {
          code = some Codes.not_found;
        });
      },
    )
unfolding put_here-IsMissing
receive_request_missing_example =
    receive_request_missing [] no_resources empty put_here put_here-IsMissing
