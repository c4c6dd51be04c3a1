-- ===== src/Layers/CallbackLayer/Collected.antt =====
-- callback_layer.py: what a wait gives after the responses that come in meanwhile.
use bubot_co_ap.Prelude.{
  ℕ, ◌<◌, ◌≡◌, refl, sym, ap, ◌∙◌, Bool, true, false, some, List, [], ◌∷◌, ◌++◌, append_assoc,
  append-nil, arith, ◌==◌, if◌then◌else◌, either_branch, either_option, elim-eq_some, Bool-cases,
  inl, inr, ==_iff,
}
use mathlib.Core.Path.{subst}
use bubot_co_ap.Outcome.{
  Exception, Outcome, Ends, Ends-bind, Ends-mono, Any, raises, invalid_state_error, returns, ◌>>=◌,
}
use bubot_co_ap.Messages.Message.{Message}
use bubot_co_ap.Layers.Table
use bubot_co_ap.Layers.Table.{
  Table, Key, same_key, same_key_iff, same_key_self, get-put, get-put_self, get-remove,
}
use bubot_co_ap.Layers.MessageLayer.{token_key}
use bubot_co_ap.Layers.CallbackLayer.{
  CallbackLayer, Waiter, Future, pending, resolved, failed, single, several, new_waiter, set_waiter,
  begin_wait, set_future, set_result, answer_of, time_out, end_wait,
}

-- set_result of one response after the other.
unfoldable pub deliver : CallbackLayer → List Message → Outcome CallbackLayer
unfolding set_result
deliver l [] = returns l
deliver l (m ∷ ms) = do l' ← set_result l m; deliver l' ms

-- The responses with the token.
unfoldable pub of_token : Key → List Message → List Message
of_token k [] = []
of_token k (m ∷ ms) =
    let rest = of_token k ms in if same_key (token_key m.token) k then m ∷ rest else rest

-- Another wait may have its response already.
unfoldable pub is_answered_twice : Exception → Bool
is_answered_twice invalid_state_error = true
is_answered_twice _ = false

-- The waiter in the cell waits, under this key alone, for several responses, and has these.
record Collects (k : Key) (c : ℕ) (ms : List Message) (l : CallbackLayer) : Type 0 where
  pub found : Table.get l.waited_answer k ≡ some c
  pub alone : (j : Key) → Table.get l.waited_answer j ≡ some c → same_key j k ≡ true
  pub is_multicast : (l.waiter c).multicast ≡ true
  pub waits : (l.waiter c).future ≡ pending
  pub collected : (l.waiter c).result ≡ ms

set_future-Ends : (w : Waiter) (m : Message) → Ends is_answered_twice Any (set_future w m)
unfolding set_future is_answered_twice
set_future-Ends w m =
    either_branch (Ends is_answered_twice Any) w.multicast tt (single_future w.future)
  where
    single_future :
        (f : Future)
        → Ends {A = Waiter} is_answered_twice Any (elim f [
          | pending ↦ returns (record w { future = resolved m })
          | resolved m ↦ raises invalid_state_error
          | failed e ↦ raises invalid_state_error
        ])
    single_future pending = tt
    single_future (resolved m) = refl
    single_future (failed e) = refl

set_future_multicast :
    (w : Waiter) (m : Message)
    → w.multicast ≡ true
    → set_future w m ≡ returns (record w { result = w.result ++ (m ∷ []) })
unfolding set_future
set_future_multicast w m e =
    ap
      (λ b. if b then returns (record w { result = w.result ++ (m ∷ []) }) else elim w.future [
        | pending ↦ returns (record w { future = resolved m })
        | resolved m ↦ raises invalid_state_error
        | failed e ↦ raises invalid_state_error
      ])
      e

module _ (k : Key) (c : ℕ) (ms : List Message) (l : CallbackLayer) (m : Message)
    (h : Collects k c ms l) where
  -- A response with the token goes to the waiter.
  collect_own :
      same_key (token_key m.token) k ≡ true
      → Ends is_answered_twice (Collects k c (ms ++ (m ∷ []))) (set_result l m)
  unfolding set_result set_waiter
  collect_own same =
      let key : token_key m.token ≡ k = (same_key_iff _ _).0 same in
      let self : (c == c) ≡ true = ground arith in
      rw (set_result, key, h.found, set_future_multicast (l.waiter c) m h.is_multicast)
        (record {
          found = h.found;
          alone = h.alone;
          is_multicast = rw self h.is_multicast;
          waits = rw self h.waits;
          collected = rw self (ap (λ xs. xs ++ (m ∷ [])) h.collected);
        })

  -- A response with another token leaves it alone.
  collect_other :
      same_key (token_key m.token) k ≡ false
      → Ends is_answered_twice (Collects k c ms) (set_result l m)
  unfolding set_result set_waiter
  collect_other differ =
      either_option (Ends is_answered_twice (Collects k c ms))
        (Table.get l.waited_answer (token_key m.token)) _ _ h
        (λ d found.
          Ends-bind is_answered_twice Any (Collects k c ms) _ _ (set_future-Ends (l.waiter d) m)
            (λ w _.
              let apart : (c == d) ≡ false = elim (Bool-cases (c == d)) [
                | inl e ↦
                    absurd
                      (cc (h.alone (token_key m.token) (found ∙ ap some (sym ((==_iff c d).0 e)))))
                | inr e ↦ e
              ] in
              record {
                found = h.found;
                alone = h.alone;
                is_multicast = rw apart h.is_multicast;
                waits = rw apart h.waits;
                collected = rw apart h.collected;
              }))

  collect_one : Ends is_answered_twice (Collects k c (ms ++ of_token k (m ∷ []))) (set_result l m)
  unfolding of_token
  collect_one = elim (Bool-cases (same_key (token_key m.token) k)) [
    | inl same ↦ rw same (collect_own same)
    | inr differ ↦ rw (differ, append-nil ms) (collect_other differ)
  ]

of_token_cons :
    (k : Key) (m : Message) (rest : List Message)
    → of_token k (m ∷ rest) ≡ of_token k (m ∷ []) ++ of_token k rest
unfolding of_token
of_token_cons k m rest = elim (Bool-cases (same_key (token_key m.token) k)) [
  | inl same ↦ rw same refl
  | inr differ ↦ rw differ refl
]

deliver-Collects :
    (k : Key) (c : ℕ) (responses ms : List Message) (l : CallbackLayer)
    → Collects k c ms l
    → Ends is_answered_twice (Collects k c (ms ++ of_token k responses)) (deliver l responses)
unfolding deliver of_token
deliver-Collects k c [] ms l h = subst (λ xs. Collects k c xs l) (sym (append-nil ms)) h
deliver-Collects k c (m ∷ rest) ms l h =
    let Goal : List Message → Type 0 =
      λ xs. Ends is_answered_twice (Collects k c xs) (set_result l m >>= λ l'. deliver l' rest) in
    let joined : (ms ++ of_token k (m ∷ [])) ++ of_token k rest ≡ ms ++ of_token k (m ∷ rest) =
      append_assoc ms (of_token k (m ∷ [])) (of_token k rest)
      ∙ ap (λ xs. ms ++ xs) (sym (of_token_cons k m rest)) in
    subst Goal joined (
      Ends-bind is_answered_twice (Collects k c (ms ++ of_token k (m ∷ []))) _ _ _
        (collect_one k c ms l m h)
        (λ l' h'. deliver-Collects k c rest (ms ++ of_token k (m ∷ [])) l' h'))

-- No wait has given out a number that is still to come.
abbrev pub IsFresh : CallbackLayer → Type 0
IsFresh l = (j : Key) (c : ℕ) → Table.get l.waited_answer j ≡ some c → c < l.next_waiter

begin_wait-Collects :
    (l : CallbackLayer) (request : Message)
    → IsFresh l
    → request.multicast ≡ true
    → Collects (token_key request.token) (begin_wait l request).1 [] (begin_wait l request).0
unfolding begin_wait new_waiter
begin_wait-Collects l request fresh multicast =
    let k = token_key request.token in
    let self : (l.next_waiter == l.next_waiter) ≡ true = ground arith in
    let kept : (j : Key)
        → same_key k j ≡ false
        → Table.get l.waited_answer j ≡ Table.get (Table.put l.waited_answer k l.next_waiter) j =
      λ j differ. sym (get-put l.waited_answer k j l.next_waiter ∙ rw differ refl) in
    record {
      found = get-put_self l.waited_answer k l.next_waiter;
      alone = λ j e. elim (Bool-cases (same_key k j)) [
        | inl same ↦ rw ((same_key_iff k j).0 same) (same_key_self j)
        | inr differ ↦ absurd (omega (arith, fresh j l.next_waiter (kept j differ ∙ e)))
      ];
      is_multicast = rw self multicast;
      waits = rw self refl;
      collected = rw self refl;
    }

collected_ended :
    (k : Key) (c : ℕ) (ms : List Message) (l : CallbackLayer)
    → Collects k c ms l
    → (end_wait l c).1 ≡ returns (several ms)
unfolding end_wait answer_of time_out
collected_ended k c ms l h = rw (h.waits, h.is_multicast, h.collected) refl

-- Of a multicast request, on a layer whose table has no number that is still to come, and of any responses
-- that come in while it waits, in their order: when the wait times out it returns exactly those with the
-- request's token, in their order, unless a response that another wait is not ready for raised
-- InvalidStateError.
pub wait_multicast :
    (l : CallbackLayer) (request : Message) (responses : List Message)
    → IsFresh l
    → request.multicast ≡ true
    → Ends is_answered_twice
        (λ l'.
          (end_wait l' (begin_wait l request).1).1
          ≡ returns (several (of_token (token_key request.token) responses)))
        (deliver (begin_wait l request).0 responses)
wait_multicast l request responses fresh multicast =
    let k = token_key request.token in
    let c = (begin_wait l request).1 in
    Ends-mono is_answered_twice _ _ (deliver (begin_wait l request).0 responses)
      (deliver-Collects k c responses [] (begin_wait l request).0
        (begin_wait-Collects l request fresh multicast))
      (λ l' h. collected_ended k c _ l' h)

-- The layer of a unicast request that waits, with its response.
module _ (l : CallbackLayer) (request response : Message) (unicast : request.multicast ≡ false)
    (same : token_key response.token ≡ token_key request.token) where
  abbrev waiting : CallbackLayer
  unfolding begin_wait
  waiting = (begin_wait l request).0

  abbrev answered : Waiter
  answered = record (new_waiter request) { future = resolved response }

  found : Table.get waiting.waited_answer (token_key response.token) ≡ some l.next_waiter
  unfolding begin_wait
  found = rw same (get-put_self l.waited_answer (token_key request.token) l.next_waiter)

  future_set : set_future (new_waiter request) response ≡ returns answered
  unfolding set_future new_waiter
  future_set = rw unicast refl

  waiter_made : waiting.waiter l.next_waiter ≡ new_waiter request
  unfolding begin_wait
  waiter_made = let self : (l.next_waiter == l.next_waiter) ≡ true = ground arith in rw self refl

  single_taken : set_result waiting response ≡ returns (set_waiter waiting l.next_waiter answered)
  unfolding set_result
  single_taken =
      elim-eq_some _ l.next_waiter _ _ found
      ∙ ap (λ o. o >>= λ w. returns (set_waiter waiting l.next_waiter w))
          (ap (λ w. set_future w response) waiter_made ∙ future_set)

  single_held : (set_waiter waiting l.next_waiter answered).waiter l.next_waiter ≡ answered
  unfolding set_waiter
  single_held = let self : (l.next_waiter == l.next_waiter) ≡ true = ground arith in rw self refl

-- Of a unicast request that waits and a response with its token: set_result returns, the end of the wait
-- returns that response, and a second set_result with it raises InvalidStateError.
pub wait_unicast :
    (l : CallbackLayer) (request response : Message)
    → request.multicast ≡ false
    → token_key response.token ≡ token_key request.token
    → (l' : CallbackLayer) × (set_result (begin_wait l request).0 response ≡ returns l')
      × ((end_wait l' (begin_wait l request).1).1 ≡ returns (single response))
      × (set_result l' response ≡ raises invalid_state_error)
unfolding end_wait begin_wait set_result
wait_unicast l request response unicast same =
    let answer = answered l request response unicast same in
    let held = single_held l request response unicast same in
    (
      set_waiter (waiting l request response unicast same) l.next_waiter answer,
      single_taken l request response unicast same,
      rw held (unfold answer_of in refl),
      elim-eq_some _ l.next_waiter _ _ (unfold set_waiter in found l request response unicast same)
          ∙ rw held (unfold set_future new_waiter in rw unicast refl),
    )
