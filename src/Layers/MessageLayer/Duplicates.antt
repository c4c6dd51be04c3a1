-- ===== src/Layers/MessageLayer/Duplicates.antt =====
-- message_layer.py, receive_request: a request that comes twice.
use bubot_co_ap.Prelude.{
  ℕ, ◌<◌, ◌≡◌, refl, true, false, none, some, if◌then◌else◌, lt→ltb, either_option, guarded-eq_some,
}
use mathlib.Core.Path.{subst}
use bubot_co_ap.Outcome.{any_exception, Ends, returns}
use bubot_co_ap.Messages.Message.{Message}
use bubot_co_ap.Transaction.{create}
use bubot_co_ap.Utils.Keys.{Builtins}
use bubot_co_ap.Layers.Keys.{key_token, key_mid}
use bubot_co_ap.Layers.Table
use bubot_co_ap.Layers.Table.{Table, Key, int, get-put_self}
use bubot_co_ap.Layers.MessageLayer.{
  MessageLayer, allocate, write, store_request, duplicate, receive_request, has_mid,
}

-- The request comes from an address, by unicast, under a message id that is not 0.
pub record IsNumbered (builtins : Builtins) (request : Message) : Type 0 where
  pub mid : ℕ
  pub by_mid : ℕ
  pub by_token : ℕ
  pub unicast : request.multicast ≡ false
  pub mid_set : request.mid ≡ some mid
  pub mid_positive : 0 < mid
  pub key_of_mid : key_mid builtins request.source request.mid ≡ returns by_mid
  pub key_of_token : key_token builtins request.source request.token ≡ returns by_token

-- What a second call does to a layer whose table has the request's key.
pub duplicate_found :
    (builtins : Builtins) (l : MessageLayer) (request : Message) (now c : ℕ)
    (h : IsNumbered builtins request)
    → Table.get l.transactions (int h.by_mid) ≡ some c
    → receive_request builtins l request now ≡ returns (duplicate l c, c)
unfolding receive_request
duplicate_found builtins l request now c h found =
    let numbered : has_mid request.mid ≡ true = rw h.mid_set (lt→ltb 0 h.mid h.mid_positive) in
    rw (h.unicast, h.key_of_mid, h.key_of_token, numbered, found) refl

-- The key leads to the transaction.
abbrev LeadsTo : Key → MessageLayer × ℕ → Type 0
LeadsTo by_mid (l, c) = Table.get l.transactions by_mid ≡ some c

store_request-LeadsTo :
    (l : MessageLayer) (request : Message) (now : ℕ) (by_mid by_token : Key)
    → Ends any_exception (LeadsTo by_mid) (store_request l request now by_mid by_token)
unfolding store_request any_exception create allocate write
store_request-LeadsTo l request now by_mid by_token =
    let fresh : Ends any_exception (LeadsTo by_mid) (do
      let t = create request now
      let (l', c) = allocate l t
      returns (
        record l' {
          transactions_token = Table.put l'.transactions_token by_token c;
          transactions = Table.put l'.transactions by_mid c;
        },
        c,
      )) =
      get-put_self l.transactions by_mid l.next_cell in
    either_option (Ends any_exception (LeadsTo by_mid)) (Table.get l.transactions_token by_token) _
      _ fresh
      (λ c e.
        either_option (Ends any_exception (LeadsTo by_mid)) (l.cell c).response _ _ fresh
          (λ response e'. get-put_self l.transactions by_mid c))

receive_request-LeadsTo :
    (builtins : Builtins) (l : MessageLayer) (request : Message) (now : ℕ)
    (h : IsNumbered builtins request)
    → Ends any_exception (LeadsTo (int h.by_mid)) (receive_request builtins l request now)
unfolding receive_request duplicate write
receive_request-LeadsTo builtins l request now h =
    rw (h.unicast, h.key_of_mid, h.key_of_token)
      (either_option (Ends any_exception (LeadsTo (int h.by_mid)))
        (if has_mid request.mid then Table.get l.transactions (int h.by_mid) else none) _ _
        (store_request-LeadsTo l _ now (int h.by_mid) (int h.by_token))
        (λ c e. guarded-eq_some (has_mid request.mid) _ c e))

-- Of a unicast request with an address and a message id other than 0: when
-- receive_request returns a transaction, a second call with the same request, at whatever time, returns
-- that transaction again, marks its request as duplicated and changes nothing else.
pub receive_request_twice :
    (builtins : Builtins) (l l' : MessageLayer) (request : Message) (now later c : ℕ)
    → IsNumbered builtins request
    → receive_request builtins l request now ≡ returns (l', c)
    → receive_request builtins l' request later ≡ returns (duplicate l' c, c)
receive_request_twice builtins l l' request now later c h e =
    duplicate_found builtins l' request later c h (
      subst (Ends any_exception (LeadsTo (int h.by_mid))) e
        (receive_request-LeadsTo builtins l request now h))
