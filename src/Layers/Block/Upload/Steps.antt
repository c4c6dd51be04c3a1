-- ===== src/Layers/Block/Upload/Steps.antt =====
-- block_layer.py, receive_request: one part of a payload.
use bubot_co_ap.Prelude.{
  ℕ, ◌+◌, ◌≡◌, refl, ◌∙◌, true, false, ◌⊎◌, inl, inr, none, some, List, [], ◌∷◌, ◌++◌, arith,
  length, ltb, ◌==◌,
}
use bubot_co_ap.Outcome.{returns, ◌>>=◌, >>=-eq-returns}
use bubot_co_ap.Dict
use bubot_co_ap.Dict.{get-put, get-remove}
use bubot_co_ap.Defines.Codes
use bubot_co_ap.Defines.{item_of, known_code}
use bubot_co_ap.Messages.Value.{bytes, int}
use bubot_co_ap.Messages.CoapOption.Laws.{set_value-int}
use bubot_co_ap.Messages.Message.{get_scheme, Message, response, new_message, set_code, set_token}
use bubot_co_ap.Messages.Options.{add, del_option_by_number, add_option, has_number}
use bubot_co_ap.Messages.Options.Laws.{same_value_self}
use bubot_co_ap.Messages.Accessors.{block1_number, set_block1, block_value}
use bubot_co_ap.Messages.Response.{init_from_request}
use bubot_co_ap.Transaction.{Transaction}
use bubot_co_ap.Utils.Keys.{Builtins}
use bubot_co_ap.Layers.Keys.{key_token}
use bubot_co_ap.Layers.Block.{
  BlockItem, BlockLayer, join, block1_end, receive_block1, receive_request,
}
use bubot_co_ap.Layers.Block.Upload.{Part, Peer, IsPart, IsContinued, key_of}

module _ (builtins : Builtins) (fresh : List ℕ) (peer : Peer) where
  -- What the table holds before the part numbered n, the bytes before it being `acc`.
  abbrev pub Stored : BlockLayer → ℕ → List ℕ → Type 0
  Stored layer n acc =
      ((Dict.get layer.block1_receive (key_of builtins peer) ≡ none) × (n ≡ 0) × (acc ≡ []))
      ⊎ ((item : BlockItem) × (Dict.get layer.block1_receive (key_of builtins peer) ≡ some item)
          × (item.num ≡ n)
          × (item.payload ≡ bytes acc)
          × (item.content_type ≡ peer.content_type))

  key_found :
      (p : Part)
      → IsPart peer p
      → key_token builtins p.transaction.request.source p.transaction.request.token
        ≡ returns (key_of builtins peer)
  unfolding key_token
  key_found p h = rw (h.source_set, h.token_set) refl

  -- The part is put behind the bytes before it.
  part_joined :
      (layer : BlockLayer) (n : ℕ) (acc : List ℕ) (p : Part)
      → Stored layer n acc
      → IsPart peer p
      → p.block.num ≡ n
      → (item : BlockItem) × (receive_request builtins fresh layer p.transaction
          ≡ block1_end fresh layer p.transaction p.block (key_of builtins peer) item)
        × (item.payload ≡ bytes (acc ++ p.chunk))
        × (item.content_type ≡ peer.content_type)
  unfolding receive_request receive_block1 join
  part_joined layer n acc p (inl (empty, first, bare)) h num = (
    record {
      byte = p.block.size;
      num = p.block.num;
      m = p.block.m;
      size = p.block.size;
      payload = p.transaction.request.payload;
      content_type = peer.content_type;
    },
    rw
        (
          h.no_block2,
          h.block1_read,
          receive_block1,
          key_found p h,
          h.size1_read,
          empty,
          zero,
          h.content_type_read,
        )
        refl,
    rw bare h.payload_set,
    refl,
  )
    where
      zero : (p.block.num == 0) ≡ true
      zero = rw (num, first) refl
  part_joined layer n acc p (inr (item, found, at_num, so_far, format)) h num = (
    record item { payload = bytes (acc ++ p.chunk) },
    rw
        (
          h.no_block2,
          h.block1_read,
          receive_block1,
          key_found p h,
          h.size1_read,
          found,
          h.content_type_read,
          same,
          format,
          same_value_self peer.content_type,
          so_far,
          h.payload_set,
        )
        refl,
    refl,
    format,
  )
    where
      same : (p.block.num == item.num) ≡ true
      same = rw (num, at_num) (ground arith)

  -- The answer to a part that is not the last.
  answer :
      (p : Part)
      → IsPart peer p
      → (r : Message) × ((init_from_request fresh p.transaction.request >>= λ r.
            set_code r (some Codes.continue) >>= λ r. set_block1 r p.block)
          ≡ returns r)
        × (r.code ≡ some Codes.continue)
  unfolding init_from_request set_token set_code set_block1 known_code new_message item_of
      add_option add has_number
  answer p h = (
    record (new_message response) {
      code = some Codes.continue;
      source = some peer.destination;
      destination = p.transaction.request.source;
      scheme = some (get_scheme p.transaction.request);
      token = some peer.token;
      options = record { number = block1_number; raw = int (block_value p.block) } ∷ [];
    },
    rw
        (
          h.unicast,
          h.destination_set,
          h.token_set,
          long,
          set_value-int block1_number (block_value p.block) refl refl,
        )
        refl,
    refl,
  )
    where
      long : ltb 256 (length peer.token) ≡ false
      long = ground (arith, h.token_fits)

  -- A part that is not the last leaves the bytes so far in the table.
  pub part_kept :
      (layer : BlockLayer) (n : ℕ) (acc : List ℕ) (p : Part)
      → Stored layer n acc
      → IsPart peer p
      → p.block.num ≡ n
      → p.block.m ≡ 1
      → (layer' : BlockLayer) × (t : Transaction) × (receive_request builtins fresh layer
            p.transaction
          ≡ returns (layer', t))
        × IsContinued t
        × Stored layer' (n + 1) (acc ++ p.chunk)
  unfolding block1_end
  part_kept layer n acc p before h num m =
      let (item, joined, payload, format) = part_joined layer n acc p before h num in
      let (r, answered, continued) = answer p h in
      let (r0, made, rest) =
        >>=-eq-returns (init_from_request fresh p.transaction.request)
          (λ r. set_code r (some Codes.continue) >>= λ r. set_block1 r p.block) answered in
      let (r1, coded, last) =
        >>=-eq-returns (set_code r0 (some Codes.continue)) (λ r. set_block1 r p.block) rest in
      let more : (p.block.m == 0) ≡ false = ground (arith, m) in
      let kept : BlockItem = record item {
        byte = p.block.size;
        num = p.block.num + 1;
        size = p.block.size;
        m = p.block.m;
      } in
      let t : Transaction = record p.transaction { block_transfer = true; response = some r } in
      (
        record layer { block1_receive = Dict.put layer.block1_receive (key_of builtins peer) kept },
        t,
        joined ∙ rw (more, block1_end, made, coded, last) refl,
        (r, refl, continued),
        inr (
          kept,
          get-put layer.block1_receive (key_of builtins peer) (key_of builtins peer) kept
              ∙ ground arith,
          omega (arith, num),
          payload,
          format,
        ),
      )

  -- The last part takes the transfer out of the table.
  pub part_ends :
      (layer : BlockLayer) (n : ℕ) (acc : List ℕ) (p : Part)
      → Stored layer n acc
      → IsPart peer p
      → p.block.num ≡ n
      → p.block.m ≡ 0
      → (layer' : BlockLayer) × (t : Transaction) × (receive_request builtins fresh layer
            p.transaction
          ≡ returns (layer', t))
        × (t.request.payload ≡ bytes (acc ++ p.chunk))
        × (t.response ≡ p.transaction.response)
        × (t.block_transfer ≡ false)
        × (Dict.get layer'.block1_receive (key_of builtins peer) ≡ none)
  unfolding block1_end del_option_by_number
  part_ends layer n acc p before h num m =
      let (item, joined, payload, format) = part_joined layer n acc p before h num in
      (
        record layer { block1_receive = Dict.remove layer.block1_receive (key_of builtins peer) },
        record p.transaction {
          request =
              del_option_by_number block1_number
                (record p.transaction.request { payload = item.payload });
          block_transfer = false;
        },
        joined ∙ rw m refl,
        payload,
        refl,
        refl,
        get-remove layer.block1_receive (key_of builtins peer) (key_of builtins peer)
            ∙ ground arith,
      )
