-- ===== src/Layers/Block/Negotiation.antt =====
-- block_layer.py, send_request and receive_response: a client that names the size of the blocks.
use bubot_co_ap.Prelude.{ℕ, ◌≡◌, refl, ◌∙◌, true, false, none, some, List, arith, ◌==◌}
use bubot_co_ap.Outcome.{returns, raises, type_error, ◌>>=◌}
use bubot_co_ap.Dict
use bubot_co_ap.Dict.{get-put}
use bubot_co_ap.Text.{text}
use bubot_co_ap.Messages.Value.{Value, str, bytes, absent}
use bubot_co_ap.Messages.Message.{Message}
use bubot_co_ap.Messages.Options.{same_value}
use bubot_co_ap.Messages.Options.Laws.{same_value_self}
use bubot_co_ap.Messages.Accessors.{get_block1, get_block2, get_content_type}
use bubot_co_ap.Transaction.{Transaction, new_transaction}
use bubot_co_ap.Utils.{Block}
use bubot_co_ap.Utils.Keys.{Builtins}
use bubot_co_ap.Layers.Keys.{key_token}
use bubot_co_ap.Layers.Block.{BlockItem, BlockLayer, join}
use bubot_co_ap.Layers.Block.Sending.{send_request, is_long}
use bubot_co_ap.Layers.Block.Responses.{
  receive_response, receive_keyed, receive_other_response, receive_block2_response,
}

-- A request names a Block2, and the peer answers with that block of several, as bytes.
pub record IsAnswered (builtins : Builtins) (layer : BlockLayer) (request response : Message)
    : Type 0 where
  pub key : ℕ
  pub asked : Block
  pub given : Block
  pub content_type : Value
  pub chunk : List ℕ
  pub key_sent : key_token builtins request.destination request.token ≡ returns key
  pub key_received : key_token builtins response.source response.token ≡ returns key
  pub no_upload : Dict.get layer.block1_sent key ≡ none
  pub no_block1 : get_block1 request ≡ returns none
  pub no_payload : request.payload ≡ absent
  pub block2_asked : get_block2 request ≡ returns (some asked)
  pub block2_given : get_block2 response ≡ returns (some given)
  pub same_block : given.num ≡ asked.num
  pub more : given.m ≡ 1
  pub content_type_read : get_content_type response ≡ returns content_type
  pub payload_set : response.payload ≡ bytes chunk

-- What send_request keeps of the request.
negotiated : Block → BlockItem
negotiated b = record {
  byte = b.size;
  num = b.num;
  m = b.m;
  size = b.size;
  payload = str (text "");
  content_type = absent;
}

registered : BlockLayer → ℕ → Block → BlockLayer
registered layer key b = record layer {
  block2_sent = Dict.put layer.block2_sent key (negotiated b);
}

module _ (builtins : Builtins) (fresh : List ℕ) (layer : BlockLayer)
    (request response : Message) where
  block2_kept :
      (h : IsAnswered builtins layer request response)
      → send_request builtins layer request ≡ returns (registered layer h.key h.asked, request)
  unfolding send_request registered negotiated
  block2_kept h =
      let short : is_long request.payload ≡ returns false =
        rw h.no_payload (unfold is_long in refl) in
      rw (h.no_block1, short, h.block2_asked, h.key_sent) refl

  abbrev answered : Transaction
  answered = record (new_transaction request) { response = some response }

  response_taken :
      (h : IsAnswered builtins layer request response)
      → receive_response builtins fresh (registered layer h.key h.asked) answered
        ≡ receive_block2_response fresh
            (registered layer h.key h.asked)
            answered
            response
            h.key
            (some (negotiated h.asked))
            h.given
  unfolding receive_response registered
  response_taken h =
      let found : Dict.get (Dict.put layer.block2_sent h.key (negotiated h.asked)) h.key
          ≡ some (negotiated h.asked) =
        get-put layer.block2_sent h.key h.key (negotiated h.asked) ∙ ground arith in
      rw (h.key_received, receive_keyed, h.no_upload, receive_other_response, h.block2_given, found)
        refl

  chunk_refused :
      (h : IsAnswered builtins layer request response) (layer' : BlockLayer) (t : Transaction)
      → receive_block2_response fresh layer' t response h.key (some (negotiated h.asked)) h.given
        ≡ raises type_error
  unfolding negotiated join receive_block2_response same_value
  chunk_refused h layer' t =
      let more : (h.given.m == 1) ≡ true = rw h.more refl in
      let same : (h.given.num == h.asked.num) ≡ true = rw h.same_block (ground arith) in
      rw
        (
          receive_block2_response,
          more,
          same,
          h.content_type_read,
          same_value_self h.content_type,
          h.payload_set,
        )
        refl

-- Of a request without payload that names a Block2, and a response from its peer with the block of that
-- number and more to come: receive_response raises TypeError, whatever bytes the block has.
pub receive_response-send_request :
    (builtins : Builtins) (fresh : List ℕ) (layer : BlockLayer) (request response : Message)
    → IsAnswered builtins layer request response
    → (send_request builtins layer request >>= λ (layer', sent).
        receive_response builtins fresh layer'
          (record (new_transaction sent) { response = some response }))
      ≡ raises type_error
receive_response-send_request builtins fresh layer request response h =
    rw (block2_kept builtins fresh layer request response h) (
      response_taken builtins fresh layer request response h
      ∙ chunk_refused builtins fresh layer request response h _ _)
