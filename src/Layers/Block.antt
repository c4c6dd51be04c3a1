-- ===== src/Layers/Block.antt =====
-- src/Bubot_CoAP/layers/block_layer.py: block-wise transfer. The four tables are keyed by the peer's
-- address and the token. A call that raises leaves no state: what it changed before is not modelled.
pub mod Responses
pub mod Sending
pub mod NextBlock
pub mod Negotiation
pub mod Upload
use bubot_co_ap.Prelude.{
  ℕ, ◌+◌, ◌*◌, Bool, true, false, ◌&&◌, ◌||◌, not, Option, none, some, List, [], ◌∷◌, ◌++◌, take,
  drop, length, ltb, leb, ◌==◌, if◌then◌else◌,
}
use bubot_co_ap.Outcome.{
  Outcome, returns, raises, attribute_error, type_error, key_error, or_raise, ◌>>=◌,
}
use bubot_co_ap.Dict
use bubot_co_ap.Dict.{Dict}
use bubot_co_ap.Defines
use bubot_co_ap.Defines.Codes
use bubot_co_ap.Defines.Types
use bubot_co_ap.Messages.Value
use bubot_co_ap.Messages.Value.{Value, absent, int, str, bytes}
use bubot_co_ap.Messages.Message.{Message, Kind, set_type, set_code}
use bubot_co_ap.Messages.Options.{del_option_by_number, same_value}
use bubot_co_ap.Messages.Accessors.{
  block1_number, block2_number, size1_number, size2_number, get_block1, set_block1, get_block2,
  set_block2, find_size1, set_size1, get_size2, set_size2, get_content_type,
}
use bubot_co_ap.Messages.Response.{init_from_request}
use bubot_co_ap.Transaction.{Transaction}
use bubot_co_ap.Utils.{Block}
use bubot_co_ap.Utils.Keys.{Builtins}
use bubot_co_ap.Layers.Keys.{key_token}

pub record BlockItem : Type 0 where
  pub byte : ℕ
  pub num : ℕ
  pub m : ℕ
  pub size : ℕ
  pub payload : Value
  pub content_type : Value

pub record BlockLayer : Type 0 where
  pub block1_sent : Dict BlockItem
  pub block2_sent : Dict BlockItem
  pub block1_receive : Dict BlockItem
  pub block2_receive : Dict BlockItem

abbrev pub new_block_layer : BlockLayer
new_block_layer = record {
  block1_sent = [];
  block2_sent = [];
  block1_receive = [];
  block2_receive = [];
}

-- `a + b` of payloads
unfoldable pub join : Value → Value → Outcome Value
join (str s) (str t) = returns (str (s ++ t))
join (bytes s) (bytes t) = returns (bytes (s ++ t))
join (int a) (int b) = returns (int (a + b))
join _ _ = raises type_error

-- `v[a:a + n]`
unfoldable pub slice : ℕ → ℕ → Value → Outcome Value
slice a n (str s) = returns (str (take n (drop a s)))
slice a n (bytes s) = returns (bytes (take n (drop a s)))
slice a n _ = raises type_error

-- `if v:`
unfoldable pub truthy : Value → Bool
truthy absent = false
truthy (int n) = ltb 0 n
truthy (str s) = ltb 0 (length s)
truthy (bytes s) = ltb 0 (length s)

abbrev pub is_none : Value → Bool
is_none absent = true
is_none _ = false

-- `error` and `incomplete`: the transaction is answered with the code.
unfoldable pub incomplete : List ℕ → Transaction → Outcome Transaction
incomplete fresh t = do
  r ← init_from_request fresh t.request
  r ← set_code r (some Codes.request_entity_incomplete)
  returns (record t { block_transfer = true; response = some r })

unfoldable pub error : List ℕ → Transaction → ℕ → Outcome Transaction
error fresh t code = do
  r ← init_from_request fresh t.request
  r ← set_type r (some Types.rst)
  r ← set_code r (some code)
  returns (record t { block_transfer = true; response = some r })

-- receive_request, the branch of Block2.
unfoldable pub receive_block2 :
    Builtins → BlockLayer → Transaction → Block → Outcome (BlockLayer × Transaction)
receive_block2 builtins layer t b = do
  key ← key_token builtins t.request.source t.request.token
  let bare = record t { request = del_option_by_number block2_number t.request }
  elim (Dict.get layer.block2_receive key) [
    | some item ↦ returns (
      record layer {
        block2_receive =
            Dict.put layer.block2_receive key (record item { num = b.num; size = b.size; m = b.m });
      },
      record bare { completed = t.completed || truthy item.payload },
    )
    | none ↦ returns (
      record layer {
        block2_receive = Dict.put layer.block2_receive key (record {
          byte = b.num * b.size;
          num = b.num;
          m = b.m;
          size = b.size;
          payload = absent;
          content_type = absent;
        });
      },
      bare,
    )
  ]

-- receive_request, the branch of Block1, after the block has been put to those before it.
unfoldable pub block1_end :
    List ℕ → BlockLayer → Transaction → Block → ℕ → BlockItem → Outcome (BlockLayer × Transaction)
block1_end fresh layer t b key item = elim (b.m == 0) [
  | true ↦ returns (
    record layer { block1_receive = Dict.remove layer.block1_receive key },
    record t {
      request = del_option_by_number block1_number (record t.request { payload = item.payload });
      block_transfer = false;
    },
  )
  | false ↦ do
    r ← init_from_request fresh t.request
    r ← set_code r (some Codes.continue)
    r ← set_block1 r b
    returns (
      record layer {
        block1_receive =
            Dict.put layer.block1_receive key
              (record item { byte = b.size; num = b.num + 1; size = b.size; m = b.m });
      },
      record t { block_transfer = true; response = some r },
    )
]

-- receive_request, the branch of Block1.
unfoldable pub receive_block1 :
    Builtins → List ℕ → BlockLayer → Transaction → Block → Outcome (BlockLayer × Transaction)
unfolding block1_end
receive_block1 builtins fresh layer t b = do
  key ← key_token builtins t.request.source t.request.token
  size1 ← find_size1 none t.request.options
  elim (Dict.get layer.block1_receive key) [
    | some item ↦ do
      content_type ← get_content_type t.request
      if not (b.num == item.num) || not (same_value content_type item.content_type)
          then (do t ← incomplete fresh t; returns (layer, t))
          else (do
            payload ← join item.payload t.request.payload
            block1_end fresh layer t b key (record item { payload = payload }))
    | none ↦ elim (b.num == 0) [
      | false ↦ do t ← incomplete fresh t; returns (layer, t)
      | true ↦ do
        content_type ← get_content_type t.request
        block1_end fresh layer t b key (record {
          byte = b.size;
          num = b.num;
          m = b.m;
          size = b.size;
          payload = t.request.payload;
          content_type = content_type;
        })
    ]
  ]

unfoldable pub receive_request :
    Builtins → List ℕ → BlockLayer → Transaction → Outcome (BlockLayer × Transaction)
unfolding receive_block2 receive_block1
receive_request builtins fresh layer t = do
  block2 ← get_block2 t.request
  elim block2 [
    | some b ↦ receive_block2 builtins layer t b
    | none ↦ do
      block1 ← get_block1 t.request
      elim block1 [ some b ↦ receive_block1 builtins fresh layer t b | none ↦ returns (layer, t) ]
  ]
