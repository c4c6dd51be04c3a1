-- ===== src/Tests/Samples.antt =====
-- Messages that the tests share.
use bubot_co_ap.Prelude.{Bool, none, some, [], ◌∷◌}
use bubot_co_ap.Text.{text}
use bubot_co_ap.Messages.Value.{Value, int, str, bytes}
use bubot_co_ap.Messages.CoapOption.{CoapOption}
use bubot_co_ap.Messages.Message.{Message, Address, request}

abbrev pub peer : Address
peer = record { host = text "10.0.0.1"; port = 5683 }

abbrev pub path_option : CoapOption
path_option = record { number = 11; raw = str (text "temp") }

abbrev pub block_option : CoapOption
block_option = record { number = 23; raw = int 0x0A26 }

-- A confirmable PUT of /temp.
abbrev pub put_temp : Message
put_temp = record {
  kind = request;
  version = 1;
  type = some 0;
  code = some 3;
  mid = some 0x1234;
  token = some (1 ∷ 2 ∷ 3 ∷ 4 ∷ []);
  options = path_option ∷ block_option ∷ [];
  payload = bytes (0x32 ∷ 0x31 ∷ []);
  payload_type = Value.absent;
  source = some peer;
  destination = none;
  scheme = none;
  acknowledged = Bool.false;
  rejected = Bool.false;
  timeouted = Bool.false;
  cancelled = Bool.false;
  duplicated = Bool.false;
  multicast = Bool.false;
  timestamp = none;
}
