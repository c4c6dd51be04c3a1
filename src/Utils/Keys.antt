-- ===== src/Utils/Keys.antt =====
-- src/Bubot_CoAP/utils.py: the keys of the layers' tables.
use bubot_co_ap.Prelude.{
  ℕ, ◌+◌, ◌/◌, ◌%◌, Option, none, some, List, [], ◌∷◌, ◌++◌, ltb, if◌then◌else◌,
}
use bubot_co_ap.Text.{Text, text_of_int}

-- Python's str.lower and hash, which the key is made with.
pub record Builtins : Type 0 where
  pub lower : Text → Text
  pub hash : Text → ℕ

-- An argument of str_append_hash: a str, an int, a bytes object or None.
pub data Arg : Type 0 where
  word : Text → Arg
  number : ℕ → Arg
  octets : List ℕ → Arg
  nothing : Arg

hex_digit : ℕ → ℕ
hex_digit d = if ltb d 10 then 48 + d else 87 + d

-- binascii.hexlify(b).decode("utf-8")
hexlify : List ℕ → Text
unfolding hex_digit
hexlify [] = []
hexlify (b ∷ bs) = hex_digit (b / 16) ∷ hex_digit (b % 16) ∷ hexlify bs

-- What one argument adds: None and other types add nothing.
unfoldable pub appended : Builtins → Arg → Text
unfolding hexlify text_of_int
appended builtins (word s) = builtins.lower s
appended builtins (number n) = text_of_int n
appended builtins (octets bs) = hexlify bs
appended builtins nothing = []

unfoldable pub append_all : Builtins → List Arg → Text
unfolding appended
append_all builtins [] = []
append_all builtins (a ∷ as') = appended builtins a ++ append_all builtins as'

unfoldable pub str_append_hash : Builtins → List Arg → ℕ
unfolding append_all
str_append_hash builtins args = builtins.hash (append_all builtins args)

abbrev pub token_arg : Option (List ℕ) → Arg
token_arg none = nothing
token_arg (some t) = octets t

abbrev pub mid_arg : Option ℕ → Arg
mid_arg none = nothing
mid_arg (some n) = number n
