-- ===== src/Messages/Options/Values.antt =====
-- messages/message.py, request.py and response.py: the loops that the accessors of an option share.
pub mod Laws
pub mod Ends
use bubot_co_ap.Prelude.{ℕ, true, false, List, [], ◌∷◌, ◌==◌}
use bubot_co_ap.Outcome.{Outcome, returns, ◌>>=◌}
use bubot_co_ap.Messages.Value.{Value, absent}
use bubot_co_ap.Messages.CoapOption.{CoapOption, set_value, get_value}
use bubot_co_ap.Messages.Message.{Message}
use bubot_co_ap.Messages.Options.{add_option}

-- `for option in self.options: if option.number == n: value.append(option.value)`
unfoldable pub values_of : ℕ → List CoapOption → Outcome (List Value)
values_of n [] = returns []
values_of n (o ∷ os) = elim (o.number == n) [
  | true ↦ do v ← get_value o; rest ← values_of n os; returns (v ∷ rest)
  | false ↦ values_of n os
]

-- `for option in self.options: if option.number == n: return option.value`, and None at the end.
unfoldable pub first_of : ℕ → List CoapOption → Outcome Value
first_of n [] = returns absent
first_of n (o ∷ os) = elim (o.number == n) [ true ↦ get_value o | false ↦ first_of n os ]

-- An option of the number and the value, at the end.
unfoldable pub add_value : ℕ → Value → Message → Outcome Message
add_value n v m = do o ← set_value n v; add_option m o

unfoldable pub add_values : ℕ → List Value → Message → Outcome Message
unfolding add_value
add_values n [] m = returns m
add_values n (v ∷ vs) m = do m' ← add_value n v m; add_values n vs m'
