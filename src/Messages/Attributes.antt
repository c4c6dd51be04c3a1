-- ===== src/Messages/Attributes.antt =====
-- messages/message.py: the setters and deleters of a message's attributes that are not in Message.
use bubot_co_ap.Prelude.{ℕ, Bool, Option, none, some, List, []}
use bubot_co_ap.Outcome.{Outcome, returns, raises, attribute_error, ◌>>=◌}
use bubot_co_ap.Text.{Text}
use bubot_co_ap.Messages.Value.{Value}
use bubot_co_ap.Messages.CoapOption.{CoapOption}
use bubot_co_ap.Messages.Message.{Message, Address}
use bubot_co_ap.Messages.Accessors.Options.{set_content_type}

unfoldable pub set_multicast : Message → Bool → Message
set_multicast m b = record m { multicast = b }

unfoldable pub del_mid : Message → Message
del_mid m = record m { mid = none }

unfoldable pub del_token : Message → Message
del_token m = record m { token = none }

unfoldable pub set_scheme : Message → Option Text → Message
set_scheme m scheme = record m { scheme = scheme }

-- None is no option.
unfoldable pub set_options : Message → Option (List CoapOption) → Message
set_options m none = record m { options = [] }
set_options m (some options) = record m { options = options }

unfoldable pub set_payload : Message → Value → Message
set_payload m v = record m { payload = v }

-- `payload = (content_type, payload)`
unfoldable pub set_typed_payload : Message → Value → Value → Outcome Message
set_typed_payload m kind v = do m' ← set_content_type m kind; returns (record m' { payload = v })

unfoldable pub set_source : Message → Option Address → Outcome Message
set_source m none = raises attribute_error
set_source m (some a) = returns (record m { source = some a })

unfoldable pub set_duplicated : Message → Bool → Message
set_duplicated m b = record m { duplicated = b }

unfoldable pub set_timestamp : Message → Option ℕ → Message
set_timestamp m now = record m { timestamp = now }
