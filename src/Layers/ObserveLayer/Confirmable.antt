-- ===== src/Layers/ObserveLayer/Confirmable.antt =====
-- observe_layer.py, notify: of notifications to one observer, which are confirmable.
use bubot_co_ap.Prelude.{ℕ, zero, suc, ◌+◌, ◌<◌, ◌≡◌, refl, false, none, some, arith, ltb}
use bubot_co_ap.Outcome.{Outcome, returns, ◌>>=◌}
use bubot_co_ap.Defines.Types
use bubot_co_ap.Messages.Message.{Message, set_type}
use bubot_co_ap.Transaction.{Transaction}
use bubot_co_ap.Layers.ObserveLayer.{ObserveItem}
use bubot_co_ap.Layers.ObserveLayer.Notify.{notify_one, type_notification, type_answer}

-- n notifications of the resource to the same observer, one after the other.
unfoldable pub notified : ℕ → ℕ → ObserveItem → Transaction → Outcome (ObserveItem × Transaction)
unfolding notify_one
notified zero resource item t = returns (item, t)
notified (suc n) resource item t = do
  (item', t') ← notify_one resource item t
  notified n resource item' t'

-- The transaction with its response typed for the next notification.
unfoldable pub notification : ℕ → ℕ → Transaction → Message → Transaction
notification resource type t response = record t {
  resource = some resource;
  response = some (record response { type = some type; mid = none; token = none });
}

abbrev counted : ObserveItem → ℕ → ObserveItem
counted item n = record item { non_counter = some n }

module _ (resource : ℕ) (item : ObserveItem) (t : Transaction) (response : Message)
    (asked : t.request.type ≡ some Types.non) (answered : t.response ≡ some response) where
  notify_one-non :
      (n : ℕ)
      → n < 11
      → notify_one resource (counted item n) t
        ≡ returns (counted item (n + 1), notification resource Types.non t response)
  unfolding notify_one type_notification type_answer set_type notification
  notify_one-non n below =
      let few : ltb 10 n ≡ false = ground arith in rw (few, asked, answered) refl

  notify_one-con :
      notify_one resource (counted item 11) t
      ≡ returns (counted item 0, notification resource Types.con t response)
  unfolding notify_one type_notification type_answer set_type notification
  notify_one-con = rw (answered) refl

typed : ℕ → Message → Message
typed type response = record response { type = some type; mid = none; token = none }

-- Every notification before the counter passes 11 is a NON.
notified-non :
    (resource : ℕ) (item : ObserveItem) (j n : ℕ) (t : Transaction) (response : Message)
    → t.request.type ≡ some Types.non
    → t.response ≡ some response
    → n + j < 11
    → notified (suc j) resource (counted item n) t
      ≡ returns (counted item (n + suc j), notification resource Types.non t response)
unfolding notified notification
notified-non resource item zero n t response asked answered below =
    rw (notify_one-non resource item t response asked answered n (omega arith)) refl
notified-non resource item (suc j) n t response asked answered below =
    let t' = notification resource Types.non t response in
    let shift : n + 1 + suc j ≡ n + suc (suc j) = omega arith in
    rw
      (
        notify_one-non resource item t response asked answered n (omega arith),
        notified-non resource item j (n + 1) t' (typed Types.non response) asked
            (unfold typed in refl) (omega arith),
        shift,
      )
      (unfold typed in refl)

-- Of an observer whose request is a NON, whose transaction has a response and whose counter is n, at most
-- 11: each of the next 11 - n notifications of the resource is a NON and counts one more, and the one
-- after them is a CON and sets the counter to 0. So of any 12 in a row one is a CON.
pub notified_confirmable :
    (resource : ℕ) (item : ObserveItem) (d n : ℕ) (t : Transaction) (response : Message)
    → t.request.type ≡ some Types.non
    → t.response ≡ some response
    → n + d ≡ 11
    → ((j : ℕ)
        → j < d
        → notified (suc j) resource (record item { non_counter = some n }) t
          ≡ returns (
            record item { non_counter = some (n + suc j) },
            notification resource Types.non t response,
          ))
      × (notified (suc d) resource (record item { non_counter = some n }) t
          ≡ returns
              (record item { non_counter = some 0 }, notification resource Types.con t response))
unfolding notified notification
notified_confirmable resource item d n t response asked answered sum = (
  λ j below. notified-non resource item j n t response asked answered (omega arith),
  last d n t response asked answered sum,
)
  where
    last :
        (d n : ℕ) (t : Transaction) (response : Message)
        → t.request.type ≡ some Types.non
        → t.response ≡ some response
        → n + d ≡ 11
        → notified (suc d) resource (counted item n) t
          ≡ returns (counted item 0, notification resource Types.con t response)
    last zero n t response asked answered sum =
        let eleven : n ≡ 11 = omega arith in
        rw (eleven, notify_one-con resource item t response asked answered) refl
    last (suc d) n t response asked answered sum =
        let t' = notification resource Types.non t response in
        rw
          (
            notify_one-non resource item t response asked answered n (omega arith),
            last d (n + 1) t' (typed Types.non response) asked (unfold typed in refl) (omega arith),
          )
          (unfold typed in refl)
