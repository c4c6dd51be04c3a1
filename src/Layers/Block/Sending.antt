-- ===== src/Layers/Block/Sending.antt =====
-- block_layer.py: requests and responses that go out.
use bubot_co_ap.Prelude.{
  ℕ, ◌+◌, ◌*◌, Bool, true, false, ◌||◌, not, none, some, ltb, ◌==◌, if◌then◌else◌,
}
use bubot_co_ap.Outcome.{Outcome, returns, attribute_error, or_raise, ◌>>=◌}
use bubot_co_ap.Dict
use bubot_co_ap.Defines
use bubot_co_ap.Text.{text}
use bubot_co_ap.Messages.Value
use bubot_co_ap.Messages.Value.{Value, absent, int, str, bytes}
use bubot_co_ap.Messages.Message.{Message}
use bubot_co_ap.Messages.Options.{del_option_by_number}
use bubot_co_ap.Messages.Accessors.{
  block1_number, block2_number, size1_number, size2_number, get_block1, set_block1, get_block2,
  set_block2, set_size1, get_size2, set_size2, get_content_type,
}
use bubot_co_ap.Transaction.{Transaction}
use bubot_co_ap.Utils.Keys.{Builtins}
use bubot_co_ap.Layers.Keys.{key_token}
use bubot_co_ap.Layers.Block.{BlockItem, BlockLayer, slice, is_none}

-- send_request, with the block that the request names or the first one of 1024 bytes.
unfoldable pub send_block1 :
    Builtins → BlockLayer → Message → ℕ → ℕ → Outcome (BlockLayer × Message)
send_block1 builtins layer request num size = do
  key ← key_token builtins request.destination request.token
  total ← Value.len request.payload
  let m = if ltb total (num * size + size) then 0 else 1
  sized ← set_size1 (del_option_by_number size1_number request) (int total)
  content_type ← get_content_type sized
  first ← slice 0 size request.payload
  sent ←
      set_block1 (del_option_by_number block1_number (record sized { payload = first }))
        (record { num = num; m = m; size = size })
  returns (
    record layer {
      block1_sent = Dict.put layer.block1_sent key (record {
        byte = size;
        num = num;
        m = m;
        size = size;
        payload = request.payload;
        content_type = content_type;
      });
    },
    sent,
  )

unfoldable pub is_long : Value → Outcome Bool
is_long absent = returns false
is_long v = do n ← Value.len v; returns (ltb Defines.max_payload n)

unfoldable pub send_request : Builtins → BlockLayer → Message → Outcome (BlockLayer × Message)
unfolding send_block1 is_long
send_request builtins layer request = do
  block1 ← get_block1 request
  elim block1 [
    | some b ↦ send_block1 builtins layer request b.num b.size
    | none ↦ do
      long ← is_long request.payload
      elim long [
        | true ↦ send_block1 builtins layer request 0 Defines.max_payload
        | false ↦ do
          block2 ← get_block2 request
          elim block2 [
            | none ↦ returns (layer, request)
            | some b ↦ do
              key ← key_token builtins request.destination request.token
              returns (
                record layer {
                  block2_sent = Dict.put layer.block2_sent key (record {
                    byte = b.size;
                    num = b.num;
                    m = b.m;
                    size = b.size;
                    payload = str (text "");
                    content_type = absent;
                  });
                },
                request,
              )
          ]
      ]
  ]

-- `request.size2 is not None and request.size2 == 0`
abbrev wants_size2 : Value → Bool
wants_size2 (int n) = n == 0
wants_size2 _ = false

-- send_response, with the item whose payload is sent.
unfoldable pub send_block2 :
    BlockLayer → Transaction → ℕ → BlockItem → Outcome (BlockLayer × Transaction)
send_block2 layer t key item = do
  total ← Value.len item.payload
  let m = if ltb total (item.num * item.size + item.size) then 0 else 1
  wanted ← get_size2 t.request
  response ← or_raise t.response attribute_error
  let bare = del_option_by_number size2_number response
  sized ←
      (if wants_size2 wanted || ltb Defines.max_payload total
        then set_size2 bare (int total)
        else returns bare)
  payload ← slice item.byte item.size item.payload
  sent ←
      set_block2 (del_option_by_number block2_number (record sized { payload = payload }))
        (record { num = item.num; m = m; size = item.size })
  returns (
    record layer {
      block2_receive =
          Dict.put layer.block2_receive key
            (record item { byte = item.byte + item.size; num = item.num + 1 });
    },
    record t { response = some sent },
  )

-- The payload of the response, None where there is no response.
abbrev response_payload : Transaction → Value
response_payload t = elim t.response [ none ↦ absent | some r ↦ r.payload ]

-- send_response, under the key of the request.
unfoldable pub send_keyed : BlockLayer → ℕ → Transaction → Outcome (BlockLayer × Transaction)
unfolding send_block2 is_long
send_keyed layer key t = elim (Dict.get layer.block2_receive key) [
  | some item ↦
      if not (is_none item.payload)
      then send_block2 layer t key item
      else if is_none (response_payload t)
      then returns (layer, t)
      else (do
        response ← or_raise t.response attribute_error
        content_type ← get_content_type response
        send_block2 layer t key
            (record item { payload = response.payload; content_type = content_type }))
  | none ↦ do
    long ← is_long (response_payload t)
    elim long [
      | false ↦ returns (layer, t)
      | true ↦ do
        response ← or_raise t.response attribute_error
        content_type ← get_content_type response
        send_block2 layer t key (record {
          byte = 0;
          num = 0;
          m = 1;
          size = Defines.max_payload;
          payload = response.payload;
          content_type = content_type;
        })
    ]
]

unfoldable pub send_response :
    Builtins → BlockLayer → Transaction → Outcome (BlockLayer × Transaction)
unfolding send_keyed
send_response builtins layer t = do
  key ← key_token builtins t.request.source t.request.token
  send_keyed layer key t

unfoldable pub purge : BlockLayer → ℕ → BlockLayer
purge layer key = record layer { block2_receive = Dict.remove layer.block2_receive key }
