-- ===== src/Text.antt =====
-- Python's str as the list of its code points, and what the program uses of str, bytes and int
-- conversions: bytes(s, "utf-8"), b.decode("utf-8"), str(n), str(b).
pub mod Ascii
pub mod Parts
use bubot_co_ap.Prelude.{
  ℕ, zero, suc, ◌+◌, ◌-◌, ◌*◌, ◌/◌, ◌%◌, Bool, true, false, ◌&&◌, ◌||◌, Option, none, some, List,
  [], ◌∷◌, ◌++◌, ltb, leb, ◌==◌, if◌then◌else◌,
}
use Prim.Native.Char.{code}
use Prim.Native.String.{String}
use Prim.Native.String
use mathlib.Core.Option

abbrev pub Text : Type 0
Text = List ℕ

-- The code points of a literal.
abbrev pub text : String → Text
text String.[] = []
text (String.◌∷◌ c s) = code c ∷ text s

-- One character; a surrogate has no encoding (UnicodeEncodeError).
encode_char : ℕ → Option (List ℕ)
encode_char c =
    if ltb c 0x80
    then some (c ∷ [])
    else if ltb c 0x800
    then some ((0xC0 + c / 64) ∷ (0x80 + c % 64) ∷ [])
    else if leb 0xD800 c && leb c 0xDFFF
    then none
    else if ltb c 0x10000
    then some ((0xE0 + c / 4096) ∷ (0x80 + c / 64 % 64) ∷ (0x80 + c % 64) ∷ [])
    else some
        ((0xF0 + c / 262144) ∷ (0x80 + c / 4096 % 64) ∷ (0x80 + c / 64 % 64) ∷ (0x80 + c % 64) ∷ [])

-- bytes(s, "utf-8")
unfoldable pub utf8_encode : Text → Option (List ℕ)
unfolding encode_char
utf8_encode [] = some []
utf8_encode (c ∷ s) = elim (encode_char c) [
  | none ↦ none
  | some front ↦ Option.map (λ (rest : List ℕ). front ++ rest) (utf8_encode s)
]

is_continuation : ℕ → Bool
is_continuation b = leb 0x80 b && leb b 0xBF

-- The strict decoder: no overlong form, no surrogate, nothing above U+10FFFF.
valid_char : ℕ → ℕ → Bool
valid_char least c = leb least c && leb c 0x10FFFF && (ltb c 0xD800 || ltb 0xDFFF c)

-- b.decode("utf-8"): none is UnicodeDecodeError.
unfoldable pub utf8_decode : List ℕ → Option Text
unfolding is_continuation valid_char
utf8_decode [] = some []
utf8_decode (a ∷ []) = if ltb a 0x80 then some (a ∷ []) else none
utf8_decode (a ∷ b ∷ []) =
    let one = utf8_decode (b ∷ []) in
    if ltb a 0x80
    then Option.map (λ (r : Text). a ∷ r) one
    else if leb 0xC2 a && leb a 0xDF && is_continuation b
    then some (((a - 0xC0) * 64 + (b - 0x80)) ∷ [])
    else none
utf8_decode (a ∷ b ∷ c ∷ []) =
    let one = utf8_decode (b ∷ c ∷ []) in
    let two = utf8_decode (c ∷ []) in
    let wide = (a - 0xE0) * 4096 + (b - 0x80) * 64 + (c - 0x80) in
    if ltb a 0x80
    then Option.map (λ (r : Text). a ∷ r) one
    else if leb 0xC2 a && leb a 0xDF && is_continuation b
    then Option.map (λ (r : Text). ((a - 0xC0) * 64 + (b - 0x80)) ∷ r) two
    else if leb 0xE0 a
        && leb a 0xEF
        && is_continuation b
        && is_continuation c
        && valid_char 0x800 wide
    then some (wide ∷ [])
    else none
utf8_decode (a ∷ b ∷ c ∷ d ∷ rest) =
    let one = utf8_decode (b ∷ c ∷ d ∷ rest) in
    let two = utf8_decode (c ∷ d ∷ rest) in
    let three = utf8_decode (d ∷ rest) in
    let four = utf8_decode rest in
    let wide = (a - 0xE0) * 4096 + (b - 0x80) * 64 + (c - 0x80) in
    let widest = (a - 0xF0) * 262144 + (b - 0x80) * 4096 + (c - 0x80) * 64 + (d - 0x80) in
    if ltb a 0x80
    then Option.map (λ (r : Text). a ∷ r) one
    else if leb 0xC2 a && leb a 0xDF && is_continuation b
    then Option.map (λ (r : Text). ((a - 0xC0) * 64 + (b - 0x80)) ∷ r) two
    else if leb 0xE0 a
        && leb a 0xEF
        && is_continuation b
        && is_continuation c
        && valid_char 0x800 wide
    then Option.map (λ (r : Text). wide ∷ r) three
    else if leb 0xF0 a
        && leb a 0xF4
        && is_continuation b
        && is_continuation c
        && is_continuation d
        && valid_char 0x10000 widest
    then Option.map (λ (r : Text). widest ∷ r) four
    else none

-- The decimal digits of n, in front of `rest`. There are at most n + 1 of them.
decimal : ℕ → ℕ → Text → Text
decimal zero n rest = rest
decimal (suc fuel) n rest =
    let more = decimal fuel (n / 10) ((48 + n % 10) ∷ rest) in
    if ltb n 10 then (48 + n) ∷ rest else more

-- str(n)
unfoldable pub text_of_int : ℕ → Text
unfolding decimal
text_of_int n = decimal (n + 1) n []

digit : ℕ → ℕ
digit d = if ltb d 10 then 48 + d else 87 + d

-- One byte of repr(b), between quotes of the given kind.
repr_byte : ℕ → ℕ → Text
unfolding digit
repr_byte quote b =
    if b == quote || b == 92
    then 92 ∷ b ∷ []
    else if b == 9
    then 92 ∷ b't' ∷ []
    else if b == 10
    then 92 ∷ b'n' ∷ []
    else if b == 13
    then 92 ∷ b'r' ∷ []
    else if ltb b 32 || leb 127 b
    then 92 ∷ b'x' ∷ digit (b / 16) ∷ digit (b % 16) ∷ []
    else b ∷ []

repr_bytes : ℕ → List ℕ → Text
unfolding repr_byte
repr_bytes quote [] = quote ∷ []
repr_bytes quote (b ∷ bs) = repr_byte quote b ++ repr_bytes quote bs

mentions : ℕ → List ℕ → Bool
mentions q [] = false
mentions q (b ∷ bs) = b == q || mentions q bs

-- str(b): the repr of a bytes object, in double quotes if only single ones stand in it.
unfoldable pub text_of_bytes : List ℕ → Text
unfolding repr_bytes mentions
text_of_bytes bs =
    let quote : ℕ = if mentions 39 bs && (if mentions 34 bs then false else true) then 34 else 39 in
    b'b' ∷ quote ∷ repr_bytes quote bs
