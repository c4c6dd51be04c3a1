-- ===== src/Tests/MessageLayer.antt =====
-- The theorems on the message layer at concrete inputs.
use bubot_co_ap.Prelude.{
  ℕ, ◌+◌, ◌%◌, ◌<◌, ◌≡◌, ◌≢◌, refl, not, none, some, List, [], ◌∷◌, arith, true, false,
}
use bubot_co_ap.Outcome.{returns, ◌>>=◌}
use bubot_co_ap.Text.{text, text_of_int}
use bubot_co_ap.Messages.Message.{Message, Kind, set_type, set_mid, is_request_object}
use bubot_co_ap.Utils.Keys.{Builtins, appended, append_all, str_append_hash}
use bubot_co_ap.Layers.Keys.{key_token, key_mid}
use bubot_co_ap.Layers.Table
use bubot_co_ap.Layers.Block.{new_block_layer}
use bubot_co_ap.Layers.MessageLayer.{
  MessageLayer, new_message_layer, allocate, fetch_mid, duplicate, receive_request,
  receive_response,
}
use bubot_co_ap.Layers.MessageLayer.Sending.{fill_mid, fill_request, send_request}
use bubot_co_ap.Layers.MessageLayer.Purge.{purge, purge_blocks}
use bubot_co_ap.Layers.MessageLayer.Invariant.{IsSettled, IsWellFormed}
use bubot_co_ap.Layers.MessageLayer.Invariant.Reach.{
  Reached, started, stepped, request_sent, Reached-IsWellFormed,
}
use bubot_co_ap.Layers.MessageLayer.Numbers.{fetched, fetch_mid-fetched}
use bubot_co_ap.Layers.MessageLayer.Pairing.{
  IsExchange, receive_response-send_request_same, receive_response-send_request_other,
}
use bubot_co_ap.Layers.MessageLayer.Duplicates.{IsNumbered, receive_request_twice}
use bubot_co_ap.Layers.MessageLayer.Purging.{is_past, entries, keys, purge-entries}
use bubot_co_ap.Tests.Samples.{peer, put_temp, path_option}

-- lower as the identity, and the length of the text for hash.
abbrev size : List ℕ → ℕ
size [] = 0
size (c ∷ s) = size s + 1

abbrev counting : Builtins
counting = record { lower = λ s. s; hash = size }

-- A confirmable GET-like request to the peer, and its acknowledgement.
abbrev asked : Message
asked = record put_temp {
  options = path_option ∷ [];
  source = none;
  destination = some peer;
  scheme = some (text "coap");
}

abbrev reply : Message
reply = record put_temp {
  kind = Kind.response;
  type = some 2;
  code = some 69;
  options = [];
  source = some peer;
  destination = some peer;
}

abbrev stray : Message
stray = record reply { token = some (9 ∷ []) }

abbrev fresh : List ℕ
fresh = 7 ∷ 7 ∷ []

abbrev start : MessageLayer
unfolding new_message_layer
start = new_message_layer 1

asked-IsExchange : IsExchange counting asked reply
unfolding is_request_object key_mid key_token str_append_hash append_all appended text_of_int
asked-IsExchange = record {
  peer = peer;
  here = peer;
  mid = 0x1234;
  token = 1 ∷ 2 ∷ 3 ∷ 4 ∷ [];
  other_token = 1 ∷ 2 ∷ 3 ∷ 4 ∷ [];
  by_mid = _;
  by_token = _;
  is_request = refl;
  unicast = refl;
  destination_set = refl;
  mid_set = refl;
  token_set = refl;
  key_of_mid = refl;
  key_of_token = refl;
  source_given = refl;
  destination_given = refl;
  mid_given = refl;
  token_given = refl;
  acknowledges = refl;
}

stray-IsExchange : IsExchange counting asked stray
unfolding asked-IsExchange
stray-IsExchange = record {
  peer = peer;
  here = peer;
  mid = 0x1234;
  token = 1 ∷ 2 ∷ 3 ∷ 4 ∷ [];
  other_token = 9 ∷ [];
  by_mid = asked-IsExchange.by_mid;
  by_token = asked-IsExchange.by_token;
  is_request = asked-IsExchange.is_request;
  unicast = refl;
  destination_set = refl;
  mid_set = refl;
  token_set = refl;
  key_of_mid = asked-IsExchange.key_of_mid;
  key_of_token = asked-IsExchange.key_of_token;
  source_given = refl;
  destination_given = refl;
  mid_given = refl;
  token_given = refl;
  acknowledges = refl;
}

receive_response-send_request_same_example :
    (l' : MessageLayer) × ((send_request counting fresh start asked 5 >>= λ (sent, c).
    receive_response counting sent reply)
      ≡ returns (l', some (start.next_cell, false)))
    × ((l'.cell start.next_cell).response ≡ some reply)
    × ((l'.cell start.next_cell).completed ≡ true)
    × ((l'.cell start.next_cell).request.acknowledged ≡ true)
receive_response-send_request_same_example =
    receive_response-send_request_same counting fresh start asked reply 5 asked-IsExchange refl

stray_differs : stray.token ≢ asked.token
stray_differs e = ground arith

receive_response-send_request_other_example :
    (send_request counting fresh start asked 5 >>= λ (sent, c).
    receive_response counting sent stray)
    ≡ (send_request counting fresh start asked 5 >>= λ (sent, c). returns (sent, none))
receive_response-send_request_other_example =
    receive_response-send_request_other counting fresh start asked stray 5 stray-IsExchange
      stray_differs

-- The layer after that request has gone out.
abbrev later : MessageLayer
unfolding send_request fill_request fill_mid allocate set_mid set_type is_request_object key_mid
    key_token str_append_hash append_all appended text_of_int Table.put new_message_layer
later = elim (send_request counting fresh start asked 5) [ returns (l, c) ↦ l | _ ↦ start ]

later-Reached : Reached counting (λ host. false) 1 later
unfolding later start IsSettled send_request fill_request fill_mid allocate set_mid set_type
    is_request_object key_mid key_token str_append_hash append_all appended text_of_int Table.put
    new_message_layer
later-Reached = stepped started (request_sent {c = 0} fresh asked 5 refl refl)

Reached-IsWellFormed_example : IsWellFormed later
Reached-IsWellFormed_example =
    Reached-IsWellFormed counting (λ host. false) 1 later (omega arith) later-Reached

purge-entries_example :
    purge later new_block_layer 10 20
    ≡ returns (
      record later {
        transactions = entries (λ c. not (is_past 10 20 (later.cell c))) later.transactions;
        transactions_token =
            entries (λ c. not (is_past 10 20 (later.cell c))) later.transactions_token;
      },
      purge_blocks new_block_layer
          (keys (entries (λ c. is_past 10 20 (later.cell c)) later.transactions_token)),
    )
purge-entries_example =
    purge-entries later new_block_layer 10 20
      (Reached-IsWellFormed counting (λ host. false) 1 later (omega arith) later-Reached)

fetch_mid-fetched_example :
    ((fetch_mid (fetched 3 start)).1 ≡ (start.current_mid + 3) % 65535)
    × ((fetch_mid (fetched 3 start)).1 < 65535)
    × ((fetch_mid (fetched 3 start)).1 ≢ (fetch_mid (fetched 9 start)).1)
unfolding start new_message_layer
fetch_mid-fetched_example = fetch_mid-fetched start 3 5 (omega arith) (omega arith)

-- The same request as it comes in.
abbrev come : Message
come = record put_temp { scheme = some (text "coap"); source = some peer; destination = some peer }

come-IsNumbered : IsNumbered counting come
unfolding key_mid key_token str_append_hash append_all appended text_of_int
come-IsNumbered = record {
  mid = 0x1234;
  by_mid = _;
  by_token = _;
  unicast = refl;
  mid_set = refl;
  mid_positive = omega arith;
  key_of_mid = refl;
  key_of_token = refl;
}

abbrev received : MessageLayer
unfolding receive_request key_mid key_token str_append_hash append_all appended text_of_int
    Table.put Table.get allocate new_message_layer
received = elim (receive_request counting start come 5) [ returns (l, c) ↦ l | _ ↦ start ]

come-received : receive_request counting start come 5 ≡ returns (received, 0)
unfolding received start receive_request key_mid key_token str_append_hash append_all appended
    text_of_int Table.put Table.get allocate new_message_layer
come-received = refl

receive_request_twice_example :
    receive_request counting received come 9 ≡ returns (duplicate received 0, 0)
receive_request_twice_example =
    receive_request_twice counting start received come 5 9 0 come-IsNumbered come-received
