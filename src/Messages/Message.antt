-- ===== src/Messages/Message.antt =====
-- src/Bubot_CoAP/messages/message.py: the attributes of a message and the setters that refuse.
-- Not modelled: _family (a lookup by the operating system) and the printed forms.
use bubot_co_ap.Prelude.{ℕ, Bool, true, false, Option, none, some, List, [], ◌∷◌, length, ltb, ◌==◌}
use bubot_co_ap.Prelude.{if◌then◌else◌}
use bubot_co_ap.Outcome.{Outcome, returns, raises, attribute_error}
use bubot_co_ap.Text.{Text, text}
use bubot_co_ap.Defines.{known_code}
use bubot_co_ap.Messages.Value.{Value, absent}
use bubot_co_ap.Messages.CoapOption.{CoapOption}

-- The class of the object: Request, Response or plain Message.
pub data Kind : Type 0 where
  request response plain : Kind

pub record Address : Type 0 where
  pub host : Text
  pub port : ℕ

-- The flags start at None, which reads as false.
pub record Message : Type 0 where
  pub kind : Kind
  pub version : ℕ
  pub type : Option ℕ
  pub code : Option ℕ
  pub mid : Option ℕ
  pub token : Option (List ℕ)
  pub options : List CoapOption
  pub payload : Value
  pub payload_type : Value
  pub source : Option Address
  pub destination : Option Address
  pub scheme : Option Text
  pub acknowledged : Bool
  pub rejected : Bool
  pub timeouted : Bool
  pub cancelled : Bool
  pub duplicated : Bool
  pub multicast : Bool
  pub timestamp : Option ℕ

-- isinstance(m, Request)
unfoldable pub is_request_object : Message → Bool
is_request_object m = elim m.kind [ request ↦ true | _ ↦ false ]

-- Message()
unfoldable pub new_message : Kind → Message
new_message kind = record {
  kind = kind;
  version = 1;
  type = none;
  code = none;
  mid = none;
  token = none;
  options = [];
  payload = absent;
  payload_type = absent;
  source = none;
  destination = none;
  scheme = none;
  acknowledged = false;
  rejected = false;
  timeouted = false;
  cancelled = false;
  duplicated = false;
  multicast = false;
  timestamp = none;
}

-- The property `scheme`: None and the empty text read as coap.
unfoldable pub get_scheme : Message → Text
get_scheme m = elim m.scheme [
  | none ↦ text "coap"
  | some s ↦ elim s [ [] ↦ text "coap" | c ∷ cs ↦ c ∷ cs ]
]

unfoldable pub set_version : Message → ℕ → Outcome Message
set_version m v = if v == 1 then returns (record m { version = v }) else raises attribute_error

-- The values of defines.Types: 0 to 3 and None.
unfoldable pub set_type : Message → Option ℕ → Outcome Message
set_type m none = returns (record m { type = none })
set_type m (some t) =
    if ltb t 4 then returns (record m { type = some t }) else raises attribute_error

-- 65536 passes, though it takes 17 bits.
unfoldable pub set_mid : Message → Option ℕ → Outcome Message
set_mid m none = returns (record m { mid = none })
set_mid m (some v) =
    if ltb 65536 v then raises attribute_error else returns (record m { mid = some v })

-- None draws eight random bytes, which are `fresh`.
unfoldable pub set_token : List ℕ → Message → Option (List ℕ) → Outcome Message
set_token fresh m none = returns (record m { token = some fresh })
set_token fresh m (some t) =
    if ltb 256 (length t) then raises attribute_error else returns (record m { token = some t })

unfoldable pub set_code : Message → Option ℕ → Outcome Message
set_code m none = returns (record m { code = none })
set_code m (some c) =
    if known_code c then returns (record m { code = some c }) else raises attribute_error

unfoldable pub set_acknowledged : Message → Bool → Message
set_acknowledged m true = record m {
  acknowledged = true;
  timeouted = false;
  rejected = false;
  cancelled = false;
}
set_acknowledged m false = record m { acknowledged = false }

unfoldable pub set_rejected : Message → Bool → Message
set_rejected m true = record m {
  rejected = true;
  timeouted = false;
  acknowledged = false;
  cancelled = true;
}
set_rejected m false = record m { rejected = false }

unfoldable pub set_timeouted : Message → Bool → Message
set_timeouted m true = record m {
  timeouted = true;
  acknowledged = false;
  rejected = false;
  cancelled = true;
}
set_timeouted m false = record m { timeouted = false }
