-- ===== src/Transaction.antt =====
-- src/Bubot_CoAP/transaction.py: a request with its response. The lock and the task of the
-- retransmission are the event loop's; of the event `retransmit_stop`, what counts is whether it is
-- set.
use bubot_co_ap.Prelude.{ℕ, Bool, true, false, ◌&&◌, Option, none, some, [], ◌∷◌, if◌then◌else◌}
use bubot_co_ap.Text.{Text, text}
use bubot_co_ap.Text.Parts.{starts_with}
use bubot_co_ap.Messages.Message.{Message, get_scheme}

pub record Transaction : Type 0 where
  pub request : Message
  pub response : Option Message
  -- the number of the resource in the server's directory
  pub resource : Option ℕ
  pub timestamp : Option ℕ
  pub completed : Bool
  pub block_transfer : Bool
  pub notification : Bool
  pub over_tcp : Bool
  pub retransmit_stop : Option Bool

-- s.endswith(t)
unfoldable pub ends_with : Text → Text → Bool
unfolding starts_with
ends_with [] t = starts_with [] t
ends_with (a ∷ s) t =
    let rest = ends_with s t in
    if starts_with (a ∷ s) t && starts_with t (a ∷ s) then true else rest

-- Transaction(request=request)
abbrev pub new_transaction : Message → Transaction
new_transaction m = record {
  request = m;
  response = none;
  resource = none;
  timestamp = none;
  completed = false;
  block_transfer = false;
  notification = false;
  over_tcp = ends_with (get_scheme m) (text "tcp");
  retransmit_stop = none;
}

-- Transaction(request=request, timestamp=now)
unfoldable pub create : Message → ℕ → Transaction
create m now = record (new_transaction m) { timestamp = some now }
