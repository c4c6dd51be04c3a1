-- ===== src/Layers/Block/NextBlock.antt =====
-- block_layer.py, receive_response: the next block of a payload that is sent.
use bubot_co_ap.Prelude.{ℕ, ltb, if◌then◌else◌}
use bubot_co_ap.Dict
use bubot_co_ap.Messages.Value
use bubot_co_ap.Messages.Value.{Value}
use bubot_co_ap.Messages.CoapOption.{CoapOption}
use bubot_co_ap.Messages.Message.{Message}
use bubot_co_ap.Transaction.{Transaction}
use bubot_co_ap.Utils.{Block}
use bubot_co_ap.Layers.Block.{BlockItem}

-- The size that both peers accept.
abbrev pub agreed_size : BlockItem → Block → ℕ
agreed_size item b = if ltb b.size item.size then b.size else item.size
