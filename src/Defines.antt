-- ===== src/Defines.antt =====
-- src/Bubot_CoAP/defines.py: the option registry with its flags, message types and codes, and
-- the parameters that the layers use.
pub mod Types
pub mod ContentTypes
pub mod Codes
pub mod Facts
use bubot_co_ap.Prelude.{
  ℕ, ◌-◌, ◌*◌, ◌/◌, ◌%◌, ◌^◌, Bool, true, false, ◌||◌, ◌&&◌, Option, none, some, List, [], ◌∷◌,
  String, bit_and, ltb, leb, ◌==◌, if◌then◌else◌,
}
use bubot_co_ap.Prelude.{zero, suc, ◌+◌}
use bubot_co_ap.Dict
use bubot_co_ap.Dict.{Dict}
use bubot_co_ap.Outcome.{Outcome, returns, raises, struct_error}

-- INTEGER, STRING, OPAQUE, UNKNOWN
pub data ValueType : Type 0 where
  integer string opaque unknown : ValueType

pub record OptionItem : Type 0 where
  pub number : ℕ
  pub name : String
  pub value_type : ValueType
  pub repeatable : Bool
  pub default : Option ℕ

abbrev item : ℕ → String → ValueType → Bool → Option ℕ → ℕ × OptionItem
item number name value_type repeatable default = (
  number,
  record {
    number = number;
    name = name;
    value_type = value_type;
    repeatable = repeatable;
    default = default;
  },
)

-- OptionRegistry.LIST, in the order of the source. BLOCK_WISE_TRANSFER is not in it.
unfoldable pub option_list : Dict OptionItem
option_list =
    item 0 "Reserved" unknown true none
    ∷ item 1 "If-Match" opaque true none
    ∷ item 3 "Uri-Host" string true none
    ∷ item 4 "ETag" opaque true none
    ∷ item 5 "If-None-Match" opaque false none
    ∷ item 6 "Observe" integer false (some 0)
    ∷ item 7 "Uri-Port" integer false (some 5683)
    ∷ item 8 "Location-Path" string true none
    ∷ item 11 "Uri-Path" string true none
    ∷ item 12 "Content-Type" integer false (some 0)
    ∷ item 14 "Max-Age" integer false (some 60)
    ∷ item 15 "Uri-Query" string true none
    ∷ item 17 "Accept" integer false (some 0)
    ∷ item 20 "Location-Query" string true none
    ∷ item 23 "Block2" integer false none
    ∷ item 27 "Block1" integer false none
    ∷ item 28 "Size2" integer false (some 0)
    ∷ item 35 "Proxy-Uri" string false none
    ∷ item 39 "Proxy-Schema" string false none
    ∷ item 60 "Size1" integer false none
    ∷ item 258 "No-Response" integer false none
    ∷ item 2049 "OCF-Accept-Content-Format-Version" integer false none
    ∷ item 2053 "OCF-Content-Format-Version" integer false none
    ∷ item 65524 "Routing" opaque false none
    ∷ item 2 "Max-Message-Size" integer false (some 1152)
    ∷ []

-- OptionRegistry.LIST[n], none for KeyError.
unfoldable pub item_of : ℕ → Option OptionItem
unfolding option_list Dict.get
item_of n = Dict.get option_list n

-- The byte order of struct's native mode, which the machine decides.
pub data ByteOrder : Type 0 where
  little big : ByteOrder

-- The first byte of an unsigned short below 2 ^ 16 in native order.
abbrev pub first_byte : ByteOrder → ℕ → ℕ
first_byte little n = n % 256
first_byte big n = n / 256

pub record Flags : Type 0 where
  pub critical : Bool
  pub unsafe : Bool
  pub nocache : Bool

abbrev flags : ℕ → Flags
flags b = record {
  critical = ltb 0 (bit_and b 0x01);
  unsafe = ltb 0 (bit_and b 0x02);
  nocache = bit_and b 0x1e == 0x1c;
}

-- Below 256 the number is packed as "!B", above as "H"; "H" refuses what has more than 16 bits.
unfoldable pub get_option_flags : ByteOrder → ℕ → Outcome Flags
get_option_flags order n =
    if ltb n 256
    then returns (flags n)
    else if ltb n 65536
    then returns (flags (first_byte order n))
    else raises struct_error

-- The keys of Codes.LIST
code_list : List ℕ
code_list =
    0 ∷ 1 ∷ 2 ∷ 3 ∷ 4 ∷ 65 ∷ 66 ∷ 67 ∷ 68 ∷ 69 ∷ 95 ∷ 128 ∷ 131 ∷ 132 ∷ 133 ∷ 134 ∷ 136 ∷ 140 ∷ 141
    ∷ 143 ∷ 160 ∷ 161 ∷ 162 ∷ 163 ∷ 164 ∷ 165 ∷ 225 ∷ 226 ∷ 227 ∷ 228 ∷ 229 ∷ []

member : ℕ → List ℕ → Bool
member n [] = false
member n (m ∷ ms) = m == n || member n ms

-- `code in Codes.LIST.keys()`
unfoldable pub known_code : ℕ → Bool
unfolding code_list member
known_code n = member n code_list

-- The number of binary digits of n, at least one, with fuel above it.
binary_digits : ℕ → ℕ → ℕ
binary_digits zero n = 1
binary_digits (suc fuel) n =
    let more = binary_digits fuel (n / 2) in if ltb n 2 then 1 else suc more

-- int(f'{code:08b}'[:3], 2): the top three of at least eight binary digits.
unfoldable pub class_code : ℕ → ℕ
unfolding binary_digits
class_code n = let width = binary_digits n n in if leb width 8 then n / 32 else n / 2 ^ (width - 3)

unfoldable pub is_error : ℕ → Bool
unfolding class_code
is_error n = class_code n == 4 || class_code n == 5

abbrev pub payload_marker : ℕ
payload_marker = 0xFF

abbrev pub version : ℕ
version = 1

abbrev pub max_payload : ℕ
max_payload = 1024

abbrev pub max_non_notifications : ℕ
max_non_notifications = 10
