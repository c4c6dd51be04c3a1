-- ===== src/Messages/Value.antt =====
-- The Python values that options and payloads hold. Integers are non-negative: the program makes
-- no negative option value.
use bubot_co_ap.Prelude.{ℕ, ◌+◌, ◌-◌, ◌*◌, ◌&&◌, Option, none, some, List}
use bubot_co_ap.Prelude.{[], ◌∷◌, length, leb, if◌then◌else◌}
use bubot_co_ap.Outcome.{
  Outcome, returns, raises, type_error, value_error, unicode_encode_error, or_raise,
}
use bubot_co_ap.Text.{Text, utf8_encode}
use bubot_co_ap.Utils

pub data Value : Type 0 where
  absent : Value
  int : ℕ → Value
  str : Text → Value
  bytes : List ℕ → Value

-- utils.byte_len: `while` ends at once on what is false, and `>>=` refuses what is no int.
unfoldable pub byte_len : Value → Outcome ℕ
byte_len absent = returns 0
byte_len (int n) = returns (Utils.byte_len n)
byte_len (str []) = returns 0
byte_len (str (c ∷ s)) = raises type_error
byte_len (bytes []) = returns 0
byte_len (bytes (b ∷ bs)) = raises type_error

pub parse_digits : ℕ → List ℕ → Option ℕ
parse_digits n [] = some n
parse_digits n (c ∷ s) =
    let rest = parse_digits (n * 10 + (c - 48)) s in if leb 48 c && leb c 57 then rest else none

-- int(value). Of the texts that int() reads, those of ASCII digits only: signs, spaces and
-- underscores are refused here. The program itself passes ints.
unfoldable pub to_int : Value → Outcome ℕ
unfolding parse_digits
to_int absent = raises type_error
to_int (int n) = returns n
to_int (str []) = raises value_error
to_int (str (c ∷ s)) = or_raise (parse_digits 0 (c ∷ s)) value_error
to_int (bytes []) = raises value_error
to_int (bytes (b ∷ bs)) = or_raise (parse_digits 0 (b ∷ bs)) value_error

-- len(value)
unfoldable pub len : Value → Outcome ℕ
len absent = raises type_error
len (int n) = raises type_error
len (str s) = returns (length s)
len (bytes bs) = returns (length bs)

-- bytes(value, "utf-8")
unfoldable pub encode : Value → Outcome (List ℕ)
encode (str s) = or_raise (utf8_encode s) unicode_encode_error
encode _ = raises type_error

-- What a default of the registry is as a value: an int or None.
unfoldable pub of_default : Option ℕ → Value
of_default none = absent
of_default (some n) = int n
