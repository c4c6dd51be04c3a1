-- ===== src/Server/Retransmission/Bounds.antt =====
-- server.py, _retransmit: how long it goes on.
use bubot_co_ap.Prelude.{
  ℕ, zero, suc, ◌+◌, ◌≤◌, ◌<◌, ◌≡◌, ◌⊎◌, inl, inr, refl, ap, ◌∙◌, Bool, true, false, ◌&&◌, [],
  arith, ltb, Bool-cases, ltb→lt, either_branch,
}
use bubot_co_ap.Outcome.{Exception, Ends, returns}
use bubot_co_ap.Messages.Message.{Message}
use bubot_co_ap.Transaction.{Transaction}
use bubot_co_ap.Server.Retransmission.{
  Seen, World, Run, is_open, max_retransmit, starts_retransmission, wait, send_again, round, rounds,
}

unfoldable pub no_exception : Exception → Bool
no_exception e = false

-- At most one datagram for each round but the last, and no more rounds than MAX_RETRANSMIT.
record IsBounded (s : Run) : Type 0 where
  pub counted : s.count ≤ 4
  pub fewer : s.sent ≤ s.count
  pub at_most : s.sent ≤ 3

-- The loop has ended by the answer, by the server's end or after MAX_RETRANSMIT rounds.
abbrev pub IsOver : Run → Type 0
IsOver s = (s.sent ≤ 3) × ((is_open s.seen ≡ false) ⊎ (s.count ≡ 4))

-- A round that has come to its end: the loop stops, or one more has been counted.
IsNext : Run → Run → Type 0
IsNext s s' = IsBounded s' × ((is_open s'.seen ≡ false) ⊎ (s'.count ≡ s.count + 1))

wait-IsBounded :
    (world : World) (s : Run)
    → IsBounded s
    → IsBounded (wait world s) × ((wait world s).count ≡ s.count)
unfolding wait
wait-IsBounded world s h =
    either_branch (λ (r : Run). IsBounded r × (r.count ≡ s.count)) world.has_stop
      (record { counted = h.counted; fewer = h.fewer; at_most = h.at_most }, refl) (h, refl)

send_again-IsNext :
    (world : World) (s : Run) → s.count < 4 → IsBounded s → IsNext s (send_again world s)
unfolding send_again IsNext
send_again-IsNext world s below h = elim (Bool-cases (is_open s.seen)) [
  | inl e ↦ rw e (elim (Bool-cases (ltb (s.count + 1) max_retransmit)) [
    | inl more ↦ rw more (
      record {
        counted = omega arith;
        fewer = omega (arith, h.fewer);
        at_most = omega (arith, h.fewer, ltb→lt (s.count + 1) 4 more);
      },
      inr refl,
    )
    | inr last ↦ rw last (
      record { counted = omega arith; fewer = omega (arith, h.fewer); at_most = h.at_most },
      inr refl,
    )
  ])
  | inr e ↦ rw e (h, inl e)
]

round-IsNext :
    (world : World) (s : Run)
    → s.count < 4
    → IsBounded s
    → IsNext s (send_again world (wait world s))
unfolding IsNext
round-IsNext world s below h =
    let (bounded, same) = wait-IsBounded world s h in
    let (next, done) = send_again-IsNext world (wait world s) (rw same below) bounded in
    elim done [
      | inl closed ↦ (next, inl closed)
      | inr counted ↦ (next, inr (counted ∙ ap (λ n. n + 1) same))
    ]

-- A run that is not open, or has all its rounds, stays as it is.
rounds_closed :
    (fuel : ℕ) (world : World) (s : Run)
    → (ltb s.count max_retransmit && is_open s.seen) ≡ false
    → rounds (suc fuel) world s ≡ returns s
unfolding rounds round
rounds_closed fuel world s e = rw (rounds, round, e) refl

rounds_open :
    (fuel : ℕ) (world : World) (s : Run)
    → ltb s.count max_retransmit ≡ true
    → is_open s.seen ≡ true
    → rounds (suc fuel) world s ≡ rounds fuel world (send_again world (wait world s))
unfolding rounds round
rounds_open fuel world s below e = rw (rounds, round, below, e) refl

closed-IsOver :
    (fuel : ℕ) (world : World) (s : Run)
    → IsBounded s
    → is_open s.seen ≡ false
    → 1 ≤ fuel
    → Ends no_exception IsOver (rounds fuel world s)
closed-IsOver zero world s h closed enough = absurd (omega arith)
closed-IsOver (suc fuel) world s h closed enough =
    let ended : (ltb s.count max_retransmit && is_open s.seen) ≡ false =
      elim (Bool-cases (ltb s.count max_retransmit)) [
        | inl e ↦ rw (e, closed) refl
        | inr e ↦ rw e refl
      ] in
    rw (rounds_closed fuel world s ended) (h.at_most, inl closed)

rounds-IsOver :
    (fuel : ℕ) (world : World) (s : Run)
    → IsBounded s
    → 6 ≤ s.count + fuel
    → Ends no_exception IsOver (rounds fuel world s)
unfolding IsNext
rounds-IsOver zero world s h enough = absurd (omega (arith, h.counted))
rounds-IsOver (suc fuel) world s h enough = elim (Bool-cases (ltb s.count max_retransmit)) [
  | inr last ↦
      rw (rounds_closed fuel world s (rw last refl)) (h.at_most, inr (ground (arith, h.counted)))
  | inl below ↦ elim (Bool-cases (is_open s.seen)) [
    | inr closed ↦ rw (rounds_closed fuel world s (rw (below, closed) refl)) (h.at_most, inl closed)
    | inl opened ↦
        let (next, done) = round-IsNext world s (ltb→lt s.count 4 below) h in
        rw (rounds_open fuel world s below opened) (elim done [
          | inl closed ↦
              closed-IsOver fuel world _ next closed (omega (arith, ltb→lt s.count 4 below))
          | inr counted ↦ rounds-IsOver fuel world _ next (omega (arith, counted))
        ])
  ]
]

-- The run that start_retransmission begins.
abbrev pub begun : ℕ → Seen → Run
begun future_time seen = record {
  count = 0;
  future_time = future_time;
  waits = [];
  sent = 0;
  seen = seen;
}

-- Whatever is seen while the task is suspended, the loop ends within six rounds of the model, by sending at
-- most three datagrams; then the message is acknowledged or rejected, the server is stopped, or four
-- rounds have been counted.
pub retransmit-IsOver :
    (world : World) (future_time : ℕ) (seen : Seen)
    → Ends no_exception IsOver (rounds 6 world (begun future_time seen))
retransmit-IsOver world future_time seen =
    rounds-IsOver 6 world (begun future_time seen)
      (record { counted = omega arith; fewer = omega arith; at_most = omega arith }) (omega arith)

-- No task that start_retransmission makes sends anything, as long as the message is acknowledged when the
-- task begins to run: it is made only for an acknowledged message.
pub starts_retransmission_idle :
    (world : World) (t : Transaction) (message : Message) (future_time : ℕ) (seen : Seen)
    → starts_retransmission t message ≡ true
    → seen.acknowledged ≡ message.acknowledged
    → rounds 6 world (begun future_time seen) ≡ returns (begun future_time seen)
unfolding starts_retransmission
starts_retransmission_idle world t message future_time seen started same =
    let acknowledged : message.acknowledged ≡ true = ground (arith, started) in
    let closed : is_open seen ≡ false = rw (same, acknowledged) refl in
    rounds_closed 5 world (begun future_time seen) closed
