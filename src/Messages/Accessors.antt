-- ===== src/Messages/Accessors.antt =====
-- messages/message.py: the accessors of the options that the layers use. A setter of an option that
-- may not be repeated raises where the option is already there.
pub mod Blocks
pub mod Options
use bubot_co_ap.Prelude.{
  ℕ, ◌*◌, true, false, ◌&&◌, Option, none, some, List, [], ◌∷◌, bit_or, ltb, leb, ◌==◌,
  if◌then◌else◌,
}
use bubot_co_ap.Outcome.{Outcome, returns, raises, type_error, key_error, or_raise, ◌>>=◌}
use bubot_co_ap.Defines.{item_of}
use bubot_co_ap.Messages.Value.{Value, absent, int, str, bytes}
use bubot_co_ap.Messages.CoapOption.{CoapOption, set_value, get_value}
use bubot_co_ap.Messages.Message.{Message}
use bubot_co_ap.Messages.Options.{add_option, del_option_by_number, get_option}
use bubot_co_ap.Utils.{Block, parse_blockwise}

-- Numbers of the registry that the accessors name.
abbrev pub observe_number : ℕ
observe_number = 6

abbrev pub content_type_number : ℕ
content_type_number = 12

abbrev pub block2_number : ℕ
block2_number = 23

abbrev pub block1_number : ℕ
block1_number = 27

abbrev pub size2_number : ℕ
size2_number = 28

abbrev pub size1_number : ℕ
size1_number = 60

-- utils.parse_blockwise of an option's value: on None the masks raise TypeError.
unfoldable pub parse_value : Value → Outcome Block
parse_value (int n) = returns (parse_blockwise n)
parse_value _ = raises type_error

-- The loop of `block1` and `block2`: the last option of the number counts.
unfoldable pub find_block : ℕ → Option Block → List CoapOption → Outcome (Option Block)
find_block number value [] = returns value
find_block number value (o ∷ os) = elim (o.number == number) [
  | true ↦ do v ← get_value o; b ← parse_value v; find_block number (some b) os
  | false ↦ find_block number value os
]

unfoldable pub get_block1 : Message → Outcome (Option Block)
get_block1 m = find_block block1_number none m.options

unfoldable pub get_block2 : Message → Outcome (Option Block)
get_block2 m = find_block block2_number none m.options

-- The ladder from a size to SZX.
unfoldable pub szx_of : ℕ → ℕ
szx_of size =
    if ltb 512 size
    then 6
    else if ltb 256 size && leb size 512
    then 5
    else if ltb 128 size && leb size 256
    then 4
    else if ltb 64 size && leb size 128
    then 3
    else if ltb 32 size && leb size 64
    then 2
    else if ltb 16 size && leb size 32
    then 1
    else 0

-- (num << 4) | (m << 3) | szx
unfoldable pub block_value : Block → ℕ
unfolding szx_of
block_value b = bit_or (bit_or (b.num * 16) (b.m * 8)) (szx_of b.size)

unfoldable pub set_block1 : Message → Block → Outcome Message
set_block1 m b = do o ← set_value block1_number (int (block_value b)); add_option m o

unfoldable pub set_block2 : Message → Block → Outcome Message
set_block2 m b = do o ← set_value block2_number (int (block_value b)); add_option m o

-- A value None reads as 0.
unfoldable pub or_zero : Value → Value
or_zero absent = int 0
or_zero (int n) = int n
or_zero (str s) = str s
or_zero (bytes b) = bytes b

-- `observe`: the first option of the number.
unfoldable pub find_observe : List CoapOption → Outcome (Option Value)
find_observe [] = returns none
find_observe (o ∷ os) = elim (o.number == observe_number) [
  | true ↦ do v ← get_value o; returns (some (or_zero v))
  | false ↦ find_observe os
]

unfoldable pub set_observe : Message → Value → Outcome Message
set_observe m v = do
  o ← set_value observe_number v
  add_option (del_option_by_number observe_number m) o

-- `size1`: the last option of the number.
unfoldable pub find_size1 : Option Value → List CoapOption → Outcome (Option Value)
find_size1 value [] = returns value
find_size1 value (o ∷ os) = elim (o.number == size1_number) [
  | true ↦ do v ← get_value o; find_size1 (some (or_zero v)) os
  | false ↦ find_size1 value os
]

unfoldable pub set_size1 : Message → Value → Outcome Message
set_size1 m v = do o ← set_value size1_number v; add_option m o

unfoldable pub set_size2 : Message → Value → Outcome Message
set_size2 m v = do o ← set_value size2_number v; add_option m o

unfoldable pub get_size2 : Message → Outcome Value
get_size2 m = do item ← or_raise (item_of size2_number) key_error; get_option m item absent

unfoldable pub get_content_type : Message → Outcome Value
get_content_type m = do
  item ← or_raise (item_of content_type_number) key_error
  get_option m item (int 0)
