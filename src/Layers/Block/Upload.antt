-- ===== src/Layers/Block/Upload.antt =====
-- block_layer.py, receive_request: what a payload that arrives in parts is.
pub mod Steps
pub mod Joined
use bubot_co_ap.Prelude.{
  ℕ, ◌+◌, ◌≤◌, ◌≡◌, refl, ap, ◌∙◌, true, false, ◌⊎◌, inl, inr, Option, none, some, List, [], ◌∷◌,
  ◌++◌, arith, length, append_assoc, ltb, ◌==◌,
}
use bubot_co_ap.Outcome.{Outcome, returns, ◌>>=◌, >>=-eq-returns}
use bubot_co_ap.Dict
use bubot_co_ap.Dict.{get-put, get-remove}
use bubot_co_ap.Defines.Codes
use bubot_co_ap.Defines.{item_of, known_code}
use bubot_co_ap.Messages.Value.{Value, bytes, int}
use bubot_co_ap.Messages.CoapOption.Laws.{set_value-int}
use bubot_co_ap.Messages.Message.{Message, Address, response, new_message, set_code, set_token}
use bubot_co_ap.Messages.Options.{add, del_option_by_number, add_option, has_number}
use bubot_co_ap.Messages.Options.Laws.{same_value_self}
use bubot_co_ap.Messages.Accessors.{
  block1_number, get_block1, get_block2, set_block1, find_size1, get_content_type, block_value,
}
use bubot_co_ap.Messages.Response.{init_from_request}
use bubot_co_ap.Transaction.{Transaction, new_transaction}
use bubot_co_ap.Utils.{Block}
use bubot_co_ap.Utils.Keys.{Builtins, str_append_hash, word, number, octets}
use bubot_co_ap.Layers.Keys.{key_token}
use bubot_co_ap.Layers.Block.{
  BlockItem, BlockLayer, join, block1_end, receive_block1, receive_request,
}

-- A part of a payload: the transaction that the message layer gives its request, which may be the one of an
-- earlier part with the answer to that, its block, and the bytes it carries.
pub record Part : Type 0 where
  pub transaction : Transaction
  pub block : Block
  pub chunk : List ℕ

-- The peer of a transfer, its token and the format of the payload.
pub record Peer : Type 0 where
  pub source : Address
  pub destination : Address
  pub token : List ℕ
  pub content_type : Value

pub record IsPart (peer : Peer) (p : Part) : Type 0 where
  pub source_set : p.transaction.request.source ≡ some peer.source
  pub destination_set : p.transaction.request.destination ≡ some peer.destination
  pub unicast : p.transaction.request.multicast ≡ false
  pub token_set : p.transaction.request.token ≡ some peer.token
  pub token_fits : length peer.token ≤ 256
  pub no_block2 : get_block2 p.transaction.request ≡ returns none
  pub block1_read : get_block1 p.transaction.request ≡ returns (some p.block)
  pub size1 : Option Value
  pub size1_read : find_size1 none p.transaction.request.options ≡ returns size1
  pub content_type_read : get_content_type p.transaction.request ≡ returns peer.content_type
  pub payload_set : p.transaction.request.payload ≡ bytes p.chunk

-- The parts from number n on: all but the last announce more.
abbrev pub IsTransfer : Peer → ℕ → Part → List Part → Type 0
IsTransfer peer n p [] = IsPart peer p × (p.block.num ≡ n) × (p.block.m ≡ 0)
IsTransfer peer n p (q ∷ qs) =
    (IsPart peer p × (p.block.num ≡ n) × (p.block.m ≡ 1)) × IsTransfer peer (n + 1) q qs

unfoldable pub payload_of : Part → List Part → List ℕ
payload_of p [] = p.chunk
payload_of p (q ∷ qs) = p.chunk ++ payload_of q qs

unfoldable pub last_part : Part → List Part → Part
last_part p [] = p
last_part p (q ∷ qs) = last_part q qs

-- receive_request of the parts in their order: the transactions of those before the last, and that of the last.
unfoldable pub receive_all :
    Builtins
    → List ℕ
    → BlockLayer
    → Part
    → List Part
    → Outcome (BlockLayer × List Transaction × Transaction)
receive_all builtins fresh layer p [] = do
  (layer', t) ← receive_request builtins fresh layer p.transaction
  returns (layer', [], t)
receive_all builtins fresh layer p (q ∷ qs) = do
  (layer', t) ← receive_request builtins fresh layer p.transaction
  (layer'', ts, t') ← receive_all builtins fresh layer' q qs
  returns (layer'', t ∷ ts, t')

-- A part that is answered with CONTINUE.
abbrev pub IsContinued : Transaction → Type 0
IsContinued t = (r : Message) × (t.response ≡ some r) × (r.code ≡ some Codes.continue)

abbrev pub key_of : Builtins → Peer → ℕ
key_of builtins peer =
    str_append_hash builtins
      (word peer.source.host ∷ number peer.source.port ∷ octets peer.token ∷ [])
