-- ===== src/Layers/Block/Upload/Joined.antt =====
-- block_layer.py, receive_request: all parts of a payload.
use bubot_co_ap.Dict
use bubot_co_ap.Dict.{get-put, get-remove}
use bubot_co_ap.Transaction.{Transaction}
