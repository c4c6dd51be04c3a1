-- ===== src/Server/Retransmission.antt =====
-- server.py, start_retransmission and _retransmit: a confirmable message goes out again until it is
-- acknowledged or rejected. What happens while the task is suspended is a parameter: what it sees of the
-- message and of `stopped` after the wait and after the datagram of each round. Times are in a unit in
-- which all are whole.
pub mod Bounds
use bubot_co_ap.Prelude.{
  ℕ, zero, suc, ◌+◌, ◌*◌, Bool, true, false, ◌&&◌, ◌||◌, not, Option, none, some, List, [], ◌∷◌,
  ◌++◌, ltb, ◌==◌, if◌then◌else◌,
}
use bubot_co_ap.Outcome.{Outcome, returns, stuck, ◌>>=◌}
use bubot_co_ap.Defines.Types
use bubot_co_ap.Messages.Message.{Message, set_timeouted}
use bubot_co_ap.Messages.Accessors.{find_observe}
use bubot_co_ap.Transaction.{Transaction}
use bubot_co_ap.Utils.Keys.{Builtins}
use bubot_co_ap.Layers.MessageLayer.{is_type}
use bubot_co_ap.Layers.ObserveLayer.{ObserveLayer}
use bubot_co_ap.Layers.ObserveLayer.Notify.{remove_subscriber}

-- defines.MAX_RETRANSMIT
abbrev pub max_retransmit : ℕ
max_retransmit = 4

-- What the task reads when it runs.
pub record Seen : Type 0 where
  pub acknowledged : Bool
  pub rejected : Bool
  pub stopped : Bool

-- `not message.acknowledged and not message.rejected and not self.stopped.is_set()`
abbrev pub is_open : Seen → Bool
is_open s = not s.acknowledged && not s.rejected && not s.stopped

-- What is seen after the wait and after the datagram of the round with this retransmit_count.
pub record World : Type 0 where
  pub has_stop : Bool
  pub after_wait : ℕ → Seen
  pub after_send : ℕ → Seen

-- retransmit_count, future_time, the timeouts of the waits so far and the number of datagrams sent.
pub record Run : Type 0 where
  pub count : ℕ
  pub future_time : ℕ
  pub waits : List ℕ
  pub sent : ℕ
  pub seen : Seen

-- start_retransmission: whether the task is made.
unfoldable pub starts_retransmission : Transaction → Message → Bool
starts_retransmission t message =
    is_type message Types.con && message.acknowledged && not t.over_tcp

-- The wait on retransmit_stop, if there is one.
unfoldable pub wait : World → Run → Run
wait world s =
    if world.has_stop
    then record s { waits = s.waits ++ (s.future_time ∷ []); seen = world.after_wait s.count }
    else s

-- The body after the wait.
unfoldable pub send_again : World → Run → Run
send_again world s =
    if is_open s.seen
    then (let next = record s { count = s.count + 1; future_time = s.future_time * 2 } in
        if ltb (s.count + 1) max_retransmit
        then record next { sent = s.sent + 1; seen = world.after_send s.count }
        else next)
    else s

-- One round of `while`, none where its condition fails.
unfoldable pub round : World → Run → Option Run
unfolding wait send_again
round world s =
    if ltb s.count max_retransmit && is_open s.seen
    then some (send_again world (wait world s))
    else none

unfoldable pub rounds : ℕ → World → Run → Outcome Run
unfolding round
rounds zero world s = stuck
rounds (suc fuel) world s = elim (round world s) [
  | none ↦ returns s
  | some s' ↦ rounds fuel world s'
]

-- What the task does with the message after the loop; a message that it gives up with an Observe option
-- ends the observation.
unfoldable pub conclude :
    Builtins → ObserveLayer → Message → Seen → Outcome (ObserveLayer × Message)
conclude builtins layer message seen =
    if seen.acknowledged || seen.rejected then returns (layer, set_timeouted message false) else (do
      let given_up : Message = set_timeouted message true
      observe ← find_observe message.options
      elim observe [
        | none ↦ returns (layer, given_up)
        | some v ↦ do
          (layer', c) ← remove_subscriber builtins layer given_up
          returns (layer', given_up)
      ])
