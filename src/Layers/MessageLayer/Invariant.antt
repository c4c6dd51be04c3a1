-- ===== src/Layers/MessageLayer/Invariant.antt =====
-- message_layer.py: what holds of the tables and the transactions between two calls.
mod Receive
mod Send
mod Empty
pub mod Reach
use bubot_co_ap.Prelude.{
  ℕ, ◌+◌, ◌<◌, ◌%◌, ◌≡◌, refl, Bool, true, false, ◌&&◌, ◌||◌, Option, none, some, List, [], ◌∷◌,
  arith, ◌==◌, if◌then◌else◌, All, either_branch,
}
use mathlib.Core.Path.{subst}
use bubot_co_ap.Outcome.{Exception, attribute_error, type_error, assertion_error}
use bubot_co_ap.Messages.Message.{Message, set_acknowledged, set_rejected}
use bubot_co_ap.Transaction.{Transaction}
use bubot_co_ap.Layers.Table
use bubot_co_ap.Layers.Table.{Table, Key, same_key}
use bubot_co_ap.Layers.MessageLayer.{MessageLayer, allocate, write, fetch_mid}

-- A message is not both acknowledged and rejected.
unfoldable pub IsSettled : Message → Type 0
IsSettled m = (m.acknowledged && m.rejected) ≡ false

unfoldable pub IsSettledResponse : Option Message → Type 0
unfolding IsSettled
IsSettledResponse none = Unit {0}
IsSettledResponse (some m) = IsSettled m

-- Its messages are settled, and it has the time at which it was made.
pub record IsSound (t : Transaction) : Type 0 where
  pub request_settled : IsSettled t.request
  pub response_settled : IsSettledResponse t.response
  pub stamped : (n : ℕ) × (t.timestamp ≡ some n)

-- Every transaction of the table is an object that a call of `allocate` gave out.
abbrev pub AreGiven : ℕ → Table ℕ → Type 0
AreGiven n table = All (λ (e : Key × ℕ). e.1 < n) table

pub record IsWellFormed (l : MessageLayer) : Type 0 where
  pub transactions_given : AreGiven l.next_cell l.transactions
  pub tokens_given : AreGiven l.next_cell l.transactions_token
  pub sent_given : AreGiven l.next_cell l.transactions_sent
  pub sent_tokens_given : AreGiven l.next_cell l.transactions_sent_token
  pub mid_fits : l.current_mid < 65535
  pub settled : (i : ℕ) → IsSound (l.cell i)

-- What the operations raise.
unfoldable pub is_reported : Exception → Bool
is_reported attribute_error = true
is_reported type_error = true
is_reported assertion_error = true
is_reported _ = false

pub set_acknowledged-IsSettled :
    (m : Message) (b : Bool) → b ≡ true → IsSettled (set_acknowledged m b)
unfolding IsSettled set_acknowledged
set_acknowledged-IsSettled m true h = refl
set_acknowledged-IsSettled m false h = absurd (cc)

pub set_rejected-IsSettled : (m : Message) (b : Bool) → b ≡ true → IsSettled (set_rejected m b)
unfolding IsSettled set_rejected
set_rejected-IsSettled m true h = refl
set_rejected-IsSettled m false h = absurd (cc)

pub put-AreGiven :
    (n : ℕ) (table : Table ℕ) (k : Key) (c : ℕ)
    → AreGiven n table
    → c < n
    → AreGiven n (Table.put table k c)
unfolding Table.put
put-AreGiven n [] k c h below = (below, tt)
put-AreGiven n ((j, d) ∷ table) k c h below =
    either_branch (AreGiven n) (same_key j k) (below, h.1) (h.0, put-AreGiven n table k c h.1 below)

pub get-AreGiven :
    (n : ℕ) (table : Table ℕ) (k : Key) (c : ℕ)
    → AreGiven n table
    → Table.get table k ≡ some c
    → c < n
unfolding Table.get
get-AreGiven n [] k c h found = absurd (cc)
get-AreGiven n ((j, d) ∷ table) k c h found = ground (arith, h.0, get-AreGiven n table k c h.1)

pub grow-AreGiven : (n : ℕ) (table : Table ℕ) → AreGiven n table → AreGiven (n + 1) table
grow-AreGiven n [] h = tt
grow-AreGiven n ((j, d) ∷ table) h = (omega arith, grow-AreGiven n table h.1)

pub write-IsWellFormed :
    (l : MessageLayer) (c : ℕ) (t : Transaction)
    → IsWellFormed l
    → IsSound t
    → IsWellFormed (write l c t)
unfolding write
write-IsWellFormed l c t h settled = record {
  transactions_given = h.transactions_given;
  tokens_given = h.tokens_given;
  sent_given = h.sent_given;
  sent_tokens_given = h.sent_tokens_given;
  mid_fits = h.mid_fits;
  settled = λ i. either_branch IsSound (i == c) settled (h.settled i);
}

pub allocate-IsWellFormed :
    (l : MessageLayer) (t : Transaction)
    → IsWellFormed l
    → IsSound t
    → IsWellFormed (allocate l t).0 × ((allocate l t).1 < (allocate l t).0.next_cell)
unfolding allocate
allocate-IsWellFormed l t h settled = (
  record {
    transactions_given = grow-AreGiven _ _ h.transactions_given;
    tokens_given = grow-AreGiven _ _ h.tokens_given;
    sent_given = grow-AreGiven _ _ h.sent_given;
    sent_tokens_given = grow-AreGiven _ _ h.sent_tokens_given;
    mid_fits = h.mid_fits;
    settled = λ i. either_branch IsSound (i == l.next_cell) settled (h.settled i);
  },
  omega arith,
)

pub fetch_mid-IsWellFormed : (l : MessageLayer) → IsWellFormed l → IsWellFormed (fetch_mid l).0
unfolding fetch_mid
fetch_mid-IsWellFormed l h = record {
  transactions_given = h.transactions_given;
  tokens_given = h.tokens_given;
  sent_given = h.sent_given;
  sent_tokens_given = h.sent_tokens_given;
  mid_fits = omega arith;
  settled = h.settled;
}

pub response-IsSettled :
    (t : Transaction) (r : Message) → IsSound t → t.response ≡ some r → IsSettled r
unfolding IsSettledResponse
response-IsSettled t r h e = subst IsSettledResponse e h.response_settled
