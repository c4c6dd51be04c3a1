-- ===== src/Layers/Block/Responses.antt =====
-- block_layer.py: responses that come in. A transaction without a response gives AttributeError
-- where the response is named.
use bubot_co_ap.Prelude.{
  ℕ, ◌+◌, true, false, Option, none, some, List, ltb, leb, ◌==◌, if◌then◌else◌,
}
use bubot_co_ap.Outcome.{Outcome, returns, attribute_error, or_raise, ◌>>=◌}
use bubot_co_ap.Dict
use bubot_co_ap.Defines.Codes
use bubot_co_ap.Messages.Value
use bubot_co_ap.Messages.Value.{Value, absent, int, str, bytes}
use bubot_co_ap.Messages.Message.{Message}
use bubot_co_ap.Messages.Options.{del_option_by_number, same_value}
use bubot_co_ap.Messages.Accessors.{
  block1_number, block2_number, get_block1, set_block1, get_block2, set_block2, get_content_type,
}
use bubot_co_ap.Transaction.{Transaction}
use bubot_co_ap.Utils.{Block}
use bubot_co_ap.Utils.Keys.{Builtins}
use bubot_co_ap.Layers.Keys.{key_token}
use bubot_co_ap.Layers.Block.{BlockItem, BlockLayer, join, slice, is_none, error}

-- receive_response, where Block1 acknowledges the block that the item says.
unfoldable pub next_block1 :
    BlockLayer → Transaction → ℕ → BlockItem → ℕ → Outcome (BlockLayer × Option Transaction)
next_block1 layer t key item n_size = do
  let size = if ltb n_size item.size then n_size else item.size
  let bare = del_option_by_number block1_number (record t.request { mid = none })
  payload ← slice item.byte size item.payload
  total ← Value.len item.payload
  let m = if leb total (item.byte + size) then 0 else 1
  request ←
      set_block1 (record bare { payload = payload })
        (record { num = item.num + 1; m = m; size = size })
  returns (
    record layer {
      block1_sent =
          Dict.put layer.block1_sent key
            (record item { num = item.num + 1; byte = item.byte + size; m = m; size = size });
    },
    some (record t { request = request; block_transfer = true }),
  )

-- receive_response with an item of block1_sent and a Block1; the result None stands for a block that
-- was not expected.
unfoldable pub receive_block1_response :
    BlockLayer → Transaction → ℕ → BlockItem → Block → Outcome (BlockLayer × Option Transaction)
unfolding next_block1
receive_block1_response layer t key item b = elim (item.m == 0) [
  | true ↦ returns (
    layer,
    some (record t {
      block_transfer = false;
      request = del_option_by_number block1_number t.request;
    }),
  )
  | false ↦ elim (b.num == item.num) [
    | true ↦ next_block1 layer t key item b.size
    | false ↦ returns (layer, none)
  ]
]

-- The request for the block that the item waits for.
unfoldable pub ask_block2 :
    BlockLayer → Transaction → ℕ → BlockItem → Outcome (BlockLayer × Option Transaction)
ask_block2 layer t key item = do
  request ←
      set_block2 (del_option_by_number block2_number (record t.request { mid = none }))
        (record { num = item.num; m = 0; size = item.size })
  returns (
    record layer { block2_sent = Dict.put layer.block2_sent key item },
    some (record t { request = request; block_transfer = true }),
  )

-- receive_response, the branch of Block2, by the item of block2_sent.
unfoldable pub receive_block2_response :
    List ℕ
    → BlockLayer
    → Transaction
    → Message
    → ℕ
    → Option BlockItem
    → Block
    → Outcome (BlockLayer × Option Transaction)
unfolding ask_block2
receive_block2_response fresh layer t response key none b = elim (b.m == 1) [
  | true ↦ do
    content_type ← get_content_type response
    ask_block2 layer t key (record {
      byte = b.size;
      num = b.num + 1;
      m = b.m;
      size = b.size;
      payload = response.payload;
      content_type = content_type;
    })
  | false ↦ returns (layer, some (record t { block_transfer = false }))
]
receive_block2_response fresh layer t response key (some item) b = elim (b.m == 1) [
  | true ↦ elim (b.num == item.num) [
    | false ↦ do t ← error fresh t Codes.request_entity_incomplete; returns (layer, some t)
    | true ↦ do
      content_type ← get_content_type response
      let expected = if is_none item.content_type then content_type else item.content_type
      elim (same_value expected content_type) [
        | false ↦ do t ← error fresh t Codes.unsupported_content_format; returns (layer, some t)
        | true ↦ do
          payload ← join item.payload response.payload
          ask_block2 layer t key (record {
            byte = item.byte + b.size;
            num = b.num + 1;
            m = b.m;
            size = b.size;
            payload = payload;
            content_type = expected;
          })
      ]
  ]
  | false ↦ do
    content_type ← get_content_type response
    elim (same_value item.content_type content_type) [
      | false ↦ do t ← error fresh t Codes.unsupported_content_format; returns (layer, some t)
      | true ↦ do
        payload ← join item.payload response.payload
        returns (
          record layer { block2_sent = Dict.remove layer.block2_sent key },
          some (record t {
            block_transfer = false;
            response = some (record response { payload = payload });
          }),
        )
    ]
]

-- receive_response, after the test of Block1 has failed.
unfoldable pub receive_other_response :
    List ℕ → BlockLayer → Transaction → Message → ℕ → Outcome (BlockLayer × Option Transaction)
unfolding receive_block2_response
receive_other_response fresh layer t response key = do
  block2 ← get_block2 response
  elim block2 [
    | none ↦ returns (layer, some (record t { block_transfer = false }))
    | some b ↦ receive_block2_response fresh layer t response key (Dict.get layer.block2_sent key) b
  ]

-- receive_response, the key of the peer being known.
unfoldable pub receive_keyed :
    List ℕ → BlockLayer → Transaction → Message → ℕ → Outcome (BlockLayer × Option Transaction)
unfolding receive_block1_response receive_other_response
receive_keyed fresh layer t response key = elim (Dict.get layer.block1_sent key) [
  | none ↦ receive_other_response fresh layer t response key
  | some item ↦ do
    block1 ← get_block1 response
    elim block1 [
      | none ↦ receive_other_response fresh layer t response key
      | some b ↦ receive_block1_response layer t key item b
    ]
]

unfoldable pub receive_response :
    Builtins → List ℕ → BlockLayer → Transaction → Outcome (BlockLayer × Option Transaction)
unfolding receive_keyed
receive_response builtins fresh layer t = do
  response ← or_raise t.response attribute_error
  key ← key_token builtins response.source response.token
  receive_keyed fresh layer t response key
