-- ===== src/Tests/Examples.antt =====
-- The theorems at concrete inputs.
use bubot_co_ap.Prelude.{ℕ, ◌*◌, ◌≡◌, refl, some, List, [], ◌∷◌, ◌++◌, arith, bit_or}
use bubot_co_ap.Outcome.{returns, ◌>>=◌}
use bubot_co_ap.Defines.{item_of, known_code, little}
use bubot_co_ap.Utils.{Block, byte_len, parse_blockwise}
use bubot_co_ap.Messages.Value.{int}
use bubot_co_ap.Messages.CoapOption.{get_value}
use bubot_co_ap.Messages.CoapOption.Laws.{get_value-int}
use bubot_co_ap.Messages.Message.{Message}
use bubot_co_ap.Messages.Options.{del_option_by_number, has_number}
use bubot_co_ap.Messages.Options.Laws.{without, del_option_by_number-without}
use bubot_co_ap.Messages.Accessors.{set_block1, get_block1, set_block2, get_block2, block_value}
use bubot_co_ap.Messages.Accessors.Blocks.{
  IsBlock, get_block-set_block, parse_blockwise-block_value,
}
use bubot_co_ap.Serializer.Words.{to_bytes}
use bubot_co_ap.Serializer.Decode.{is_request, parsed}
use bubot_co_ap.Serializer.Encode.{as_sorted_list}
use bubot_co_ap.Serializer.Ends.{Ends, leaves, IsAnswer}
use bubot_co_ap.Serializer.Wire.{IsOption, IsPayload}
use bubot_co_ap.Serializer.Sorting.{with_number, as_sorted_list_stable}
use bubot_co_ap.Serializer.Reading.{IsAscending, may_repeat}
use bubot_co_ap.Serializer.Udp
use bubot_co_ap.Serializer.Tcp
use bubot_co_ap.Serializer.Udp.RoundTrip.{IsSendable, deserialize-serialize}
use bubot_co_ap.Serializer.Udp.Ends.{deserialize-Ends}
use bubot_co_ap.Serializer.Tcp.Ends.{deserialize_frame-Ends}
use bubot_co_ap.Serializer.Tcp.Frame.{extract_message_size-encode_length}
use bubot_co_ap.Tests.Samples.{peer, put_temp, path_option, block_option}

abbrev block_five : Block
block_five = record { num = 5; m = 1; size = 64 }

abbrev bare_put : Message
bare_put = record put_temp { options = path_option ∷ [] }

abbrev fresh : List ℕ
fresh = 9 ∷ 9 ∷ []

path_option-IsOption : IsOption path_option
unfolding item_of
path_option-IsOption = record {
  item = _;
  known = refl;
  carried = ((omega arith, (omega arith, (omega arith, (omega arith, tt)))), omega arith);
}

block_option-IsOption : IsOption block_option
unfolding item_of byte_len
block_option-IsOption = record { item = _; known = refl; carried = omega arith }

put_temp-IsSendable : IsSendable put_temp
unfolding known_code is_request may_repeat has_number item_of
put_temp-IsSendable = record {
  type = 0;
  code = 3;
  mid = 0x1234;
  token = 1 ∷ 2 ∷ 3 ∷ 4 ∷ [];
  payload = 0x32 ∷ 0x31 ∷ [];
  type_set = refl;
  type_fits = omega arith;
  code_set = refl;
  code_known = refl;
  class = refl;
  mid_set = refl;
  mid_fits = omega arith;
  token_set = refl;
  token_present = omega arith;
  token_fits = omega arith;
  payload_set = refl;
  options_carried = (path_option-IsOption, (block_option-IsOption, tt));
  options_unrepeated = (refl, (refl, tt));
}

deserialize-serialize_example :
    (r : Message) × ((Udp.serialize put_temp >>= λ datagram.
    Udp.deserialize little fresh datagram peer)
      ≡ returns (parsed r))
    × (r.kind ≡ put_temp.kind)
    × (r.type ≡ put_temp.type)
    × (r.code ≡ put_temp.code)
    × (r.mid ≡ put_temp.mid)
    × (r.token ≡ put_temp.token)
    × (r.source ≡ some peer)
    × (r.options ≡ as_sorted_list put_temp.options)
    × IsPayload r.payload (0x32 ∷ 0x31 ∷ [])
unfolding put_temp-IsSendable
deserialize-serialize_example = deserialize-serialize little fresh peer put_temp put_temp-IsSendable

deserialize-Ends_example : Ends leaves IsAnswer (Udp.deserialize little fresh (64 ∷ 1 ∷ []) peer)
deserialize-Ends_example = deserialize-Ends little fresh (64 ∷ 1 ∷ []) peer

deserialize_frame-Ends_example :
    Ends leaves IsAnswer (Tcp.deserialize little fresh (0x21 ∷ 1 ∷ 7 ∷ 0xB1 ∷ 97 ∷ []) peer)
deserialize_frame-Ends_example =
    deserialize_frame-Ends little fresh (0x21 ∷ 1 ∷ 7 ∷ 0xB1 ∷ 97 ∷ []) peer

extract_message_size-encode_length_example :
    Tcp.extract_message_size (bit_or (14 * 16) 4 ∷ ((0 ∷ 31 ∷ []) ++ (69 ∷ 1 ∷ [])))
    ≡ some (record { token_offset = 4; token_length = 4; body_length = 300 })
extract_message_size-encode_length_example =
    extract_message_size-encode_length 300 4 14 (0 ∷ 31 ∷ []) (69 ∷ 1 ∷ []) (omega arith)
      (unfold Tcp.encode_length to_bytes in refl)

as_sorted_list_stable_example :
    IsAscending 0 (as_sorted_list (block_option ∷ path_option ∷ []))
    × ((n : ℕ)
        → with_number n (as_sorted_list (block_option ∷ path_option ∷ []))
          ≡ with_number n (block_option ∷ path_option ∷ []))
as_sorted_list_stable_example = as_sorted_list_stable (block_option ∷ path_option ∷ [])

get_value-int_example : get_value (record { number = 14; raw = int 90 }) ≡ returns (int 90)
unfolding item_of
get_value-int_example = get_value-int 14 90 refl refl (omega arith)

del_option_by_number-without_example :
    del_option_by_number 11 put_temp ≡ record put_temp { options = without 11 put_temp.options }
del_option_by_number-without_example = del_option_by_number-without 11 put_temp

block_five-IsBlock : IsBlock block_five 2
block_five-IsBlock = record {
  num_fits = omega arith;
  m_bit = omega arith;
  szx_fits = omega arith;
  size_power = refl;
}

get_block-set_block_example :
    ((set_block1 bare_put block_five >>= get_block1) ≡ returns (some block_five))
    × ((set_block2 bare_put block_five >>= get_block2) ≡ returns (some block_five))
unfolding has_number
get_block-set_block_example =
    get_block-set_block bare_put block_five 2 block_five-IsBlock (omega arith) refl refl

parse_blockwise-block_value_example : parse_blockwise (block_value block_five) ≡ block_five
parse_blockwise-block_value_example = parse_blockwise-block_value block_five 2 block_five-IsBlock
