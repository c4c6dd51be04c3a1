-- ===== src/Layers/MessageLayer/Invariant/Reach.antt =====
-- message_layer.py: the layers that calls of the operations lead to.
use bubot_co_ap.Prelude.{ℕ, ◌<◌, ◌≡◌, refl, Bool, Option, List}
use mathlib.Core.Path.{subst}
use bubot_co_ap.Outcome.{Ends, returns}
use bubot_co_ap.Text.{Text}
use bubot_co_ap.Messages.Message.{Message, new_message}
use bubot_co_ap.Utils.Keys.{Builtins}
use bubot_co_ap.Layers.Block.{BlockLayer}
use bubot_co_ap.Layers.MessageLayer.{
  MessageLayer, new_message_layer, receive_request, receive_response, receive_empty,
}
use bubot_co_ap.Layers.MessageLayer.Sending.{send_request, send_response}
use bubot_co_ap.Layers.MessageLayer.Empty.{Related, send_empty}
use bubot_co_ap.Layers.MessageLayer.Purge.{purge}
use bubot_co_ap.Layers.MessageLayer.Invariant.{
  IsSettled, IsSettledResponse, IsWellFormed, is_reported,
}
use bubot_co_ap.Layers.MessageLayer.Invariant.Receive.{
  Holds, HoldsFor, receive_request-Holds, receive_response-Holds, receive_empty-Holds,
}
use bubot_co_ap.Layers.MessageLayer.Invariant.Send.{send_request-Holds, send_response-Holds}
use bubot_co_ap.Layers.MessageLayer.Invariant.Empty.{send_empty-Holds, purge-Holds}

-- A call that returns. A message that comes in or goes out is not both acknowledged and rejected, and a
-- transaction that is answered is one that the layer gave out.
pub data Step (builtins : Builtins) (is_ipv6 : Text → Bool)
    : MessageLayer → MessageLayer → Type 0 where
  request_received :
      {l l' : MessageLayer} {c : ℕ} (request : Message) (now : ℕ)
      → IsSettled request
      → receive_request builtins l request now ≡ returns (l', c)
      → Step builtins is_ipv6 l l'
  response_received :
      {l l' : MessageLayer} {found : Option (ℕ × Bool)} (response : Message)
      → IsSettled response
      → receive_response builtins l response ≡ returns (l', found)
      → Step builtins is_ipv6 l l'
  empty_received :
      {l l' : MessageLayer} {found : Option ℕ} (message : Message)
      → receive_empty builtins is_ipv6 l message ≡ returns (l', found)
      → Step builtins is_ipv6 l l'
  request_sent :
      {l l' : MessageLayer} {c : ℕ} (fresh : List ℕ) (request : Message) (now : ℕ)
      → IsSettled request
      → send_request builtins fresh l request now ≡ returns (l', c)
      → Step builtins is_ipv6 l l'
  response_sent :
      {l l' : MessageLayer} {found : Option ℕ} (fresh : List ℕ) (c : ℕ)
      → c < l.next_cell
      → send_response builtins fresh l c ≡ returns (l', found)
      → Step builtins is_ipv6 l l'
  empty_sent :
      {l l' : MessageLayer} {sent : Message} (fresh : List ℕ) (transaction : Option ℕ)
      (related : Related) (message : Message)
      → IsSettled message
      → send_empty builtins fresh l transaction related message ≡ returns (l', sent)
      → Step builtins is_ipv6 l l'
  purged :
      {l l' : MessageLayer} {blocks' : BlockLayer} (blocks : BlockLayer) (timeout now : ℕ)
      → purge l blocks timeout now ≡ returns (l', blocks')
      → Step builtins is_ipv6 l l'

pub data Reached (builtins : Builtins) (is_ipv6 : Text → Bool) (mid : ℕ)
    : MessageLayer → Type 0 where
  started : Reached builtins is_ipv6 mid (new_message_layer mid)
  stepped :
      {l l' : MessageLayer}
      → Reached builtins is_ipv6 mid l
      → Step builtins is_ipv6 l l'
      → Reached builtins is_ipv6 mid l'

new_message_layer-IsWellFormed : (mid : ℕ) → mid < 65535 → IsWellFormed (new_message_layer mid)
unfolding new_message_layer IsSettled IsSettledResponse new_message
new_message_layer-IsWellFormed mid h = record {
  transactions_given = tt;
  tokens_given = tt;
  sent_given = tt;
  sent_tokens_given = tt;
  mid_fits = h;
  settled = λ i. record { request_settled = refl; response_settled = tt; stamped = (0, refl) };
}

-- Every call keeps a layer well-formed.
Step-IsWellFormed :
    (builtins : Builtins) (is_ipv6 : Text → Bool) (l l' : MessageLayer)
    → Step builtins is_ipv6 l l'
    → IsWellFormed l
    → IsWellFormed l'
Step-IsWellFormed builtins is_ipv6 l l' (request_received request now settled e) h =
    (subst (Ends is_reported Holds) e (receive_request-Holds builtins l request now h settled)).0
Step-IsWellFormed builtins is_ipv6 l l' (response_received response settled e) h =
    subst (Ends is_reported HoldsFor) e (receive_response-Holds builtins l response h settled)
Step-IsWellFormed builtins is_ipv6 l l' (empty_received message e) h =
    subst (Ends is_reported HoldsFor) e (receive_empty-Holds builtins is_ipv6 l message h)
Step-IsWellFormed builtins is_ipv6 l l' (request_sent fresh request now settled e) h =
    (subst (Ends is_reported Holds) e (send_request-Holds builtins fresh l request now h settled)).0
Step-IsWellFormed builtins is_ipv6 l l' (response_sent fresh c below e) h =
    subst (Ends is_reported HoldsFor) e (send_response-Holds builtins fresh l c h below)
Step-IsWellFormed builtins is_ipv6 l l' (empty_sent fresh transaction related message settled e) h =
    subst (Ends is_reported HoldsFor) e
      (send_empty-Holds builtins fresh l transaction related message h settled)
Step-IsWellFormed builtins is_ipv6 l l' (purged blocks timeout now e) h =
    subst (Ends is_reported HoldsFor) e (purge-Holds l blocks timeout now h)

-- Of a layer that any sequence of calls of the seven operations leads to, from an empty one with a first
-- message id below 65535: every entry of the four tables is an object that the layer gave out, the next
-- message id is below 65535, and no transaction holds a request or a response that is both acknowledged
-- and rejected. Each message that comes in or goes out is not both, and each transaction that is
-- answered is one that the layer gave out.
pub Reached-IsWellFormed :
    (builtins : Builtins) (is_ipv6 : Text → Bool) (mid : ℕ) (l : MessageLayer)
    → mid < 65535
    → Reached builtins is_ipv6 mid l
    → IsWellFormed l
Reached-IsWellFormed builtins is_ipv6 mid l below started = new_message_layer-IsWellFormed mid below
Reached-IsWellFormed builtins is_ipv6 mid l below (stepped {l = k} r s) =
    Step-IsWellFormed builtins is_ipv6 k l s (Reached-IsWellFormed builtins is_ipv6 mid k below r)
