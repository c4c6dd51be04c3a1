-- ===== src/Messages/Accessors/Blocks.antt =====
-- What is set as a block option is read back, but for the value 0.
use bubot_co_ap.Prelude.{
  ℕ, zero, suc, ◌+◌, ◌*◌, ◌%◌, ◌^◌, ◌≤◌, ◌<◌, ◌≡◌, refl, ap, ◌∙◌, true, false, Option, none, some,
  List, [], ◌∷◌, ◌++◌, arith, bit_or, ◌||◌, not, sym,
}
use bubot_co_ap.Prelude.Masks.{join_nibble, join_three}
use bubot_co_ap.Outcome.{Outcome, returns, raises, type_error, ◌>>=◌}
use bubot_co_ap.Defines.{OptionItem, integer, item_of}
use bubot_co_ap.Messages.Value
use bubot_co_ap.Messages.Value.{Value, absent, int}
use bubot_co_ap.Messages.CoapOption.{CoapOption, set_value}
use bubot_co_ap.Messages.CoapOption.Laws.{set_value-int, get_value-int, get_value-zero}
use bubot_co_ap.Messages.Message.{Message}
use bubot_co_ap.Messages.Options.{has_number, add_option}
use bubot_co_ap.Messages.Options.Laws.{add-ok}
use bubot_co_ap.Messages.Accessors.{
  block2_number, block1_number, parse_value, find_block, get_block2, get_block1, szx_of,
  block_value, set_block2, set_block1,
}
use bubot_co_ap.Utils.{Block, parse_blockwise}
use bubot_co_ap.Utils.Blockwise.{parse_blockwise_fields}

-- A block that the option can hold: M is a bit, the size a power of two from 16 to 1024.
pub record IsBlock (b : Block) (szx : ℕ) : Type 0 where
  pub num_fits : b.num < 2 ^ 20
  pub m_bit : b.m ≤ 1
  pub szx_fits : szx ≤ 6
  pub size_power : b.size ≡ 2 ^ (szx + 4)

szx_of-power : (szx : ℕ) → szx ≤ 6 → szx_of (2 ^ (szx + 4)) ≡ szx
unfolding szx_of
szx_of-power zero h = refl
szx_of-power (suc zero) h = refl
szx_of-power (suc (suc zero)) h = refl
szx_of-power (suc (suc (suc zero))) h = refl
szx_of-power (suc (suc (suc (suc zero)))) h = refl
szx_of-power (suc (suc (suc (suc (suc zero))))) h = refl
szx_of-power (suc (suc (suc (suc (suc (suc zero)))))) h = refl
szx_of-power (suc (suc (suc (suc (suc (suc (suc n))))))) h = absurd (omega arith)

-- The three fields do not overlap.
block_value-eq : (b : Block) (szx : ℕ) → IsBlock b szx → block_value b ≡ (b.num * 2 + b.m) * 8 + szx
unfolding block_value
block_value-eq b szx h =
    let high : bit_or (b.num * 16) (b.m * 8) ≡ (b.num * 2 + b.m) * 8 =
      omega (arith, join_nibble b.num (b.m * 8)) in
    rw (high, h.size_power, szx_of-power szx h.szx_fits)
      (join_three (b.num * 2 + b.m) szx (omega arith))

find_block-append :
    (n : ℕ) (value : Option Block) (os : List CoapOption) (o : CoapOption)
    → has_number n os ≡ false
    → find_block n value (os ++ (o ∷ [])) ≡ find_block n value (o ∷ [])
unfolding find_block has_number
find_block-append n value [] o h = refl
find_block-append n value (p ∷ os) o h = ground (arith, h, find_block-append n value os o)

-- The three fields of a block come back from its option value.
pub parse_blockwise-block_value :
    (b : Block) (szx : ℕ) → IsBlock b szx → parse_blockwise (block_value b) ≡ b
parse_blockwise-block_value b szx h =
    let value = block_value-eq b szx h in
    let (num, m, size) = parse_blockwise_fields (block_value b) (omega (arith, value)) in
    let low : block_value b % 8 ≡ szx = omega (arith, value) in
    let same_num : (parse_blockwise (block_value b)).num ≡ b.num = omega (arith, num, value) in
    let same_m : (parse_blockwise (block_value b)).m ≡ b.m = omega (arith, m, value) in
    let same_size : (parse_blockwise (block_value b)).size ≡ b.size =
      size ∙ ap (λ t. 2 ^ (t + 4)) low ∙ sym h.size_power in
    λ i. record { num = same_num i; m = same_m i; size = same_size i }

module _ (n : ℕ) {item : OptionItem} (known : item_of n ≡ some item)
    (typed : item.value_type ≡ integer) where
  find_block_single :
      (v : ℕ)
      → 0 < v
      → find_block n none (record { number = n; raw = int v } ∷ [])
        ≡ returns (some (parse_blockwise v))
  unfolding find_block parse_value
  find_block_single v p = ground (arith, get_value-int n v known typed p)

  -- With no default to fall back on, the value 0 is read as None and cannot be parsed.
  find_block_zero :
      item.default ≡ none
      → find_block n none (record { number = n; raw = int 0 } ∷ []) ≡ raises type_error
  unfolding find_block parse_value Value.of_default
  find_block_zero bare = ground (arith, get_value-zero n known typed, bare)

  block_option : (m : Message) (v : ℕ) → Outcome (Option Block)
  block_option m v =
      (do o ← set_value n (int v); add_option m o) >>= λ m'. find_block n none m'.options

  block_option-eq :
      (m : Message) (v : ℕ)
      → has_number n m.options ≡ false
      → block_option m v ≡ find_block n none (record { number = n; raw = int v } ∷ [])
  unfolding block_option add_option
  block_option-eq m v fresh =
      let o : CoapOption = record { number = n; raw = int v } in
      let allowed : (item.repeatable || not (has_number n m.options)) ≡ true =
        rw fresh (ground arith) in
      rw (set_value-int n v known typed, add-ok m.options o known allowed)
        (find_block-append n none m.options o fresh)

  block_round_trip :
      (m : Message) (b : Block) (szx : ℕ)
      → IsBlock b szx
      → has_number n m.options ≡ false
      → 0 < b.num + b.m + szx
      → block_option m (block_value b) ≡ returns (some b)
  block_round_trip m b szx h fresh p =
      block_option-eq m (block_value b) fresh
      ∙ find_block_single (block_value b) (omega (arith, block_value-eq b szx h))
      ∙ ap (λ c. returns (some c)) (parse_blockwise-block_value b szx h)

block2_known :
    (item : OptionItem) × (item_of block2_number ≡ some item)
    × (item.value_type ≡ integer)
    × (item.default ≡ none)
unfolding item_of
block2_known = (_, refl, refl, refl)

block1_known :
    (item : OptionItem) × (item_of block1_number ≡ some item)
    × (item.value_type ≡ integer)
    × (item.default ≡ none)
unfolding item_of
block1_known = (_, refl, refl, refl)

-- A block that is set in a message without one is read back by both pairs of accessors, unless its
-- option value is 0, which is the block number 0 without more blocks of 16 bytes.
pub get_block-set_block :
    (m : Message) (b : Block) (szx : ℕ)
    → IsBlock b szx
    → 0 < b.num + b.m + szx
    → has_number block1_number m.options ≡ false
    → has_number block2_number m.options ≡ false
    → ((set_block1 m b >>= get_block1) ≡ returns (some b))
      × ((set_block2 m b >>= get_block2) ≡ returns (some b))
unfolding set_block1 get_block1 set_block2 get_block2 block_option
get_block-set_block m b szx h p fresh1 fresh2 = (
  block_round_trip block1_number block1_known.1 block1_known.2 m b szx h fresh1 p,
  block_round_trip block2_number block2_known.1 block2_known.2 m b szx h fresh2 p,
)

-- The block 0/0/16 that one peer may ask for cannot be read: the getters raise TypeError.
get_block2-set_block2_zero :
    (m : Message) (b : Block)
    → b.num ≡ 0
    → b.m ≡ 0
    → b.size ≤ 16
    → has_number block2_number m.options ≡ false
    → (set_block2 m b >>= get_block2) ≡ raises type_error
unfolding set_block2 get_block2 block_option
get_block2-set_block2_zero m b num m_bit small fresh =
    let (_, known, typed, bare) = block2_known in
    let e : block_value b ≡ 0 = unfold block_value szx_of in rw (num, m_bit) (ground arith) in
    rw e (
      block_option-eq block2_number known typed m 0 fresh
      ∙ find_block_zero block2_number known typed bare)
