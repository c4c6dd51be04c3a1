-- ===== src/Layers/RequestLayer/Addressed.antt =====
-- request_layer.py: the response that is made for a request, before anything is looked up.
use bubot_co_ap.Prelude.{ℕ, ◌≤◌, ◌≡◌, refl, ap, false, some, List, ◌∷◌, length, ltb, ◌==◌, arith}
use bubot_co_ap.Outcome.{returns, attribute_error, or_raise, ◌>>=◌}
use bubot_co_ap.Text.{Text}
use bubot_co_ap.Messages.Message.{get_scheme, Message, Kind, Address, new_message, set_token}
use bubot_co_ap.Messages.Response.{init_from_request}
use bubot_co_ap.Messages.Request.{uri_path}
use bubot_co_ap.Transaction.{Transaction}
use bubot_co_ap.Layers.RequestLayer.{prepare, with_source, has_code}

-- A unicast request with an own address, a path and a token.
pub record IsAddressed (t : Transaction) : Type 0 where
  pub path : Text
  pub here : Address
  pub token : List ℕ
  pub unicast : t.request.multicast ≡ false
  pub path_read : uri_path t.request ≡ returns path
  pub destination_set : t.request.destination ≡ some here
  pub token_set : t.request.token ≡ some token
  pub token_short : length token ≤ 256

-- The response to a request, without a code.
abbrev pub answer : Message → Address → List ℕ → Message
answer request here token = record (new_message Kind.response) {
  destination = request.source;
  source = some here;
  scheme = some (get_scheme request);
  token = some token;
}

pub method_is :
    (m : Message) (code n : ℕ) → m.code ≡ some code → code ≡ n → (k : ℕ) → has_code m k ≡ (n == k)
method_is m code n e e' k = rw (e, e') refl

answer_made :
    (fresh : List ℕ) (t : Transaction) (h : IsAddressed t)
    → init_from_request fresh t.request ≡ returns (answer t.request h.here h.token)
unfolding init_from_request set_token
answer_made fresh t h =
    let fits : ltb 256 (length h.token) ≡ false = ground (arith, h.token_short) in
    rw (h.unicast, h.destination_set, h.token_set, fits) refl

pub prepared :
    (fresh : List ℕ) (t : Transaction) (h : IsAddressed t)
    → prepare fresh t ≡ returns (47 ∷ h.path, answer t.request h.here h.token)
unfolding prepare
prepared fresh t h = rw (h.path_read, answer_made fresh t h) refl

pub sourced :
    (t : Transaction) (h : IsAddressed t)
    → with_source t (answer t.request h.here h.token) ≡ returns (answer t.request h.here h.token)
unfolding with_source
sourced t h =
    ap
      (λ o. or_raise o attribute_error >>= λ source.
        returns (record (answer t.request h.here h.token) { source = some source }))
      h.destination_set
