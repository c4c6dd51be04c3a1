-- ===== src/Layers/CallbackLayer.antt =====
-- src/Bubot_CoAP/layers/callback_layer.py: who waits for which response. The table names a waiter by the
-- number of its cell, since `wait` keeps the waiter that it made when the table no longer has it. The event
-- loop is a parameter of the order of calls: `begin_wait` is what wait does up to its await, and
-- `end_wait` what it does once the future is done or the timeout has passed. A wait that its task cancels
-- is not modelled.
pub mod Collected
use bubot_co_ap.Prelude.{
  ℕ, ◌+◌, Bool, true, false, Option, none, some, List, [], ◌∷◌, ◌++◌, ◌==◌, if◌then◌else◌,
}
use bubot_co_ap.Outcome.{
  Exception, Outcome, returns, raises, timeout_error, invalid_state_error, ext_exception, ◌>>=◌,
}
use bubot_co_ap.Messages.Message.{Message}
use bubot_co_ap.Layers.Table
use bubot_co_ap.Layers.Table.{Table, Key}
use bubot_co_ap.Layers.MessageLayer.{token_key}

-- An asyncio.Future.
pub data Future : Type 0 where
  pending : Future
  resolved : Message → Future
  failed : Exception → Future

pub record Waiter : Type 0 where
  pub key : Key
  pub multicast : Bool
  pub future : Future
  pub result : List Message

pub record CallbackLayer : Type 0 where
  pub waited_answer : Table ℕ
  pub waiter : ℕ → Waiter
  pub next_waiter : ℕ

-- Waiter(request)
unfoldable pub new_waiter : Message → Waiter
new_waiter request = record {
  key = token_key request.token;
  multicast = request.multicast;
  future = pending;
  result = [];
}

-- CallbackLayer(server); a number that no wait gave out stands for nothing.
unfoldable pub new_callback_layer : Message → CallbackLayer
unfolding new_waiter
new_callback_layer nobody = record {
  waited_answer = [];
  waiter = λ i. new_waiter nobody;
  next_waiter = 0;
}

unfoldable pub set_waiter : CallbackLayer → ℕ → Waiter → CallbackLayer
set_waiter l c w = record l { waiter = λ i. if i == c then w else l.waiter i }

unfoldable pub begin_wait : CallbackLayer → Message → CallbackLayer × ℕ
unfolding new_waiter
begin_wait l request = (
  record l {
    waited_answer = Table.put l.waited_answer (token_key request.token) l.next_waiter;
    waiter = λ i. if i == l.next_waiter then new_waiter request else l.waiter i;
    next_waiter = l.next_waiter + 1;
  },
  l.next_waiter,
)

-- `waiter.future = value`: set_result of a future that is done raises InvalidStateError.
unfoldable pub set_future : Waiter → Message → Outcome Waiter
set_future w value =
    if w.multicast
    then returns (record w { result = w.result ++ (value ∷ []) })
    else elim w.future [
      | pending ↦ returns (record w { future = resolved value })
      | resolved m ↦ raises invalid_state_error
      | failed e ↦ raises invalid_state_error
    ]

unfoldable pub set_result : CallbackLayer → Message → Outcome CallbackLayer
unfolding set_future set_waiter
set_result l response = elim (Table.get l.waited_answer (token_key response.token)) [
  | none ↦ returns l
  | some c ↦ do w ← set_future (l.waiter c) response; returns (set_waiter l c w)
]

-- `if not waiter.future.done(): waiter.future.set_exception(exception)`
unfoldable pub fail_future : Waiter → Exception → Waiter
fail_future w e = elim w.future [
  | pending ↦ record w { future = failed e }
  | resolved m ↦ w
  | failed e' ↦ w
]

-- cancel_waited takes every waiter out of the table.
unfoldable pub cancel_all : CallbackLayer → Exception → Table ℕ → CallbackLayer
unfolding fail_future set_waiter
cancel_all l e [] = record l { waited_answer = [] }
cancel_all l e ((k, c) ∷ table) = cancel_all (set_waiter l c (fail_future (l.waiter c) e)) e table

unfoldable pub cancel_waited : CallbackLayer → Exception → CallbackLayer
unfolding cancel_all
cancel_waited l e = cancel_all l e l.waited_answer

-- What wait returns: the response, or the responses to a multicast.
pub data Answer : Type 0 where
  single : Message → Answer
  several : List Message → Answer

-- A TimeoutError, of the wait or of the future.
unfoldable pub time_out : Waiter → Outcome Answer
time_out w = if w.multicast then returns (several w.result) else raises timeout_error

unfoldable pub answer_of : Waiter → Outcome Answer
unfolding time_out
answer_of w = elim w.future [
  | pending ↦ time_out w
  | resolved m ↦ returns (single m)
  | failed e ↦ elim e [ timeout_error ↦ time_out w | _ ↦ raises ext_exception ]
]

-- The end of the wait, with its `finally`.
unfoldable pub end_wait : CallbackLayer → ℕ → CallbackLayer × Outcome Answer
unfolding answer_of
end_wait l c = (
  record l { waited_answer = Table.remove l.waited_answer (l.waiter c).key },
  answer_of (l.waiter c),
)
