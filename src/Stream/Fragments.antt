-- ===== src/Stream/Fragments.antt =====
-- coap_tcp_protocol.py, data_received: messages in pieces and several at once.
use bubot_co_ap.Prelude.{
  ℕ, ◌≤◌, ◌≡◌, refl, ap, sym, false, inl, inr, some, List, ◌++◌, length, ltb, arith, append_assoc,
  length-append, take-append_exact, drop-append_exact, Option-cases, Bool-cases,
}
use bubot_co_ap.Outcome.{Outcome, returns, raises, stuck}
use bubot_co_ap.Messages.Message.{Message}
use bubot_co_ap.Serializer.Decode.{Parsed, parsed, failed}
use bubot_co_ap.Serializer.Tcp
use bubot_co_ap.Serializer.Tcp.{Sizes, extract_message_size}
use bubot_co_ap.Stream.{
  Connection, Event, waits, received, msg_size, arrived, dispatch, take_message, data_received,
}

dispatch-waits :
    (c : Connection) (spool rest : List ℕ) (n : ℕ) (o : Outcome Parsed)
    → dispatch c spool n o ≡ (rest, waits)
    → ⊥
unfolding dispatch
dispatch-waits c spool rest n (returns (parsed m)) e = cc
dispatch-waits c spool rest n (returns (failed code)) e = cc
dispatch-waits c spool rest n (raises e') e = cc
dispatch-waits c spool rest n stuck e = cc

-- A connection that waits has its whole spool left.
take_message-waits :
    (c : Connection) (fresh spool rest : List ℕ)
    → take_message c fresh spool ≡ (rest, waits)
    → rest ≡ spool
unfolding take_message
take_message-waits c fresh spool rest e = elim (Option-cases (extract_message_size spool)) [
  | inl short ↦ kept (rw (short, take_message) at e)
  | inr (sizes, head) ↦ elim (Bool-cases (ltb (length spool) (msg_size sizes))) [
    | inl part ↦ kept (rw (head, part, take_message) at e)
    | inr whole ↦ absurd (dispatch-waits c spool rest _ _ (rw (head, whole, take_message) at e))
  ]
]
  where
    kept : ◌≡◌ {A = List ℕ × Event} (spool, waits) (rest, waits) → rest ≡ spool
    kept same = sym (ap (λ (p : List ℕ × Event). p.0) same)

-- Bytes that come in two calls, of which the first waits, do what they do in one.
pub data_received_fragments :
    (c : Connection) (fresh spool rest first second : List ℕ)
    → data_received c fresh spool first ≡ (rest, waits)
    → data_received c fresh rest second ≡ data_received c fresh spool (first ++ second)
unfolding data_received
data_received_fragments c fresh spool rest first second e =
    rw (take_message-waits c fresh (spool ++ first) rest e, append_assoc spool first second) refl

take_message_one :
    (c : Connection) (fresh message rest : List ℕ) (sizes : Sizes) (m : Message)
    → extract_message_size (message ++ rest) ≡ some sizes
    → msg_size sizes ≡ length message
    → Tcp.deserialize c.order fresh message c.remote_address ≡ returns (parsed m)
    → take_message c fresh (message ++ rest) ≡ (rest, received (arrived c m))
unfolding take_message dispatch
take_message_one c fresh message rest sizes m head size good =
    let enough : ltb (length (message ++ rest)) (length message) ≡ false =
      not_longer (omega (arith, length-append message rest)) in
    rw
      (
        take_message,
        head,
        size,
        enough,
        take-append_exact (length message) message rest refl,
        good,
        drop-append_exact (length message) message rest refl,
      )
      refl
  where
    not_longer :
        length message ≤ length (message ++ rest)
        → ltb (length (message ++ rest)) (length message) ≡ false
    not_longer h = ground (arith, h)

-- Where a whole message is followed by more bytes, one call takes that message alone, whatever it is:
-- the bytes behind it stay in the spool, a further whole message among them too.
pub data_received_one :
    (c : Connection) (fresh spool chunk message rest : List ℕ) (sizes : Sizes) (m : Message)
    → spool ++ chunk ≡ message ++ rest
    → extract_message_size (message ++ rest) ≡ some sizes
    → msg_size sizes ≡ length message
    → Tcp.deserialize c.order fresh message c.remote_address ≡ returns (parsed m)
    → data_received c fresh spool chunk ≡ (rest, received (arrived c m))
unfolding data_received
data_received_one c fresh spool chunk message rest sizes m all head size good =
    rw all (take_message_one c fresh message rest sizes m head size good)
