-- ===== src/Serializer/Wire.antt =====
-- The wire format of options, as RFC 7252 section 3.1 lays it out, and the bytes of packed fields.
pub mod Writes
use bubot_co_ap.Prelude.{
  ℕ, zero, suc, ◌+◌, ◌-◌, ◌*◌, ◌/◌, ◌%◌, ◌^◌, ◌≤◌, ◌<◌, ◌≡◌, refl, ap, ◌∙◌, sym, Bool, true, false,
  ◌||◌, not, Option, none, some, List, [], ◌∷◌, ◌++◌, length, All, arith, length-append, All-append,
  append_assoc, append-nil, map, leb, ltb, ◌==◌, if◌then◌else◌, bit_or, inl, inr, Bool-cases,
  lt→ltb,
}
use bubot_co_ap.Prelude.Masks.{join_nibble}
use bubot_co_ap.Outcome.{Outcome, returns, raises, ◌>>=◌, or_raise}
use bubot_co_ap.Text.{utf8_encode}
use bubot_co_ap.Text.Ascii.{IsAscii, utf8_encode-IsAscii}
use bubot_co_ap.Defines.{
  OptionItem, ValueType, integer, string, opaque, unknown, item_of, payload_marker,
}
use bubot_co_ap.Defines.Facts.{item_of-le}
use bubot_co_ap.Messages.Value
use bubot_co_ap.Messages.Value.{Value, absent, int, str, bytes}
use bubot_co_ap.Messages.CoapOption.{CoapOption, read, get_value, option_length}
use bubot_co_ap.Messages.CoapOption.Laws.{get_value-int}
use bubot_co_ap.Utils.{byte_len}
use bubot_co_ap.Utils.ByteLen.{byte_len_bounds, byte_len_pos, byte_len-zero}
use bubot_co_ap.Serializer.Words.{int_to_words, to_bytes}
use bubot_co_ap.Serializer.Words.RoundTrip.{
  IsByte, int_to_words-to_bytes, length-to_bytes, to_bytes-IsByte,
}
use bubot_co_ap.Serializer.Pack.{Field, byte, short, raw, no_int, Mode, network, pack}
use bubot_co_ap.Serializer.Encode.{
  get_option_nibble, extended_fields, value_fields, payload_fields, option_value_fields,
  option_fields, options_fields,
}
use native.Mathlib.Decide.{dec_lt}

-- Fields that struct takes.
abbrev pub Fits : Field → Type 0
Fits (byte n) = n < 256
Fits (short n) = n < 65536
Fits (raw bs) = Unit {0}
Fits no_int = ⊥

-- The bytes of fields in network order.
unfoldable pub wire : List Field → List ℕ
wire [] = []
wire (byte n ∷ fs) = n ∷ wire fs
wire (short n ∷ fs) = (n / 256) ∷ (n % 256) ∷ wire fs
wire (raw bs ∷ fs) = bs ++ wire fs
wire (no_int ∷ fs) = wire fs

pub wire-append : (fs gs : List Field) → wire (fs ++ gs) ≡ wire fs ++ wire gs
unfolding wire
wire-append [] gs = refl
wire-append (byte n ∷ fs) gs = ap (λ (r : List ℕ). n ∷ r) (wire-append fs gs)
wire-append (short n ∷ fs) gs = ap (λ (r : List ℕ). (n / 256) ∷ (n % 256) ∷ r) (wire-append fs gs)
wire-append (raw bs ∷ fs) gs = rw (wire-append fs gs) (sym (append_assoc bs (wire fs) (wire gs)))
wire-append (no_int ∷ fs) gs = wire-append fs gs

pub pack-wire : (offset : ℕ) (fs : List Field) → All Fits fs → pack network offset fs ≡ wire fs
unfolding pack wire
pack-wire offset [] h = refl
pack-wire offset (byte n ∷ fs) (h, hs) =
    rw (lt→ltb n 256 h) (ap (λ (r : List ℕ). n ∷ r) (pack-wire (offset + 1) fs hs))
pack-wire offset (short n ∷ fs) (h, hs) =
    rw (lt→ltb n 65536 h)
      (ap (λ (r : List ℕ). (n / 256) ∷ (n % 256) ∷ r) (pack-wire (offset + 0 + 2) fs hs))
pack-wire offset (raw bs ∷ fs) (h, hs) =
    ap (λ (r : List ℕ). bs ++ r) (pack-wire (offset + length bs) fs hs)
pack-wire offset (no_int ∷ fs) (h, hs) = absurd h

-- The largest delta or length of an option.
abbrev pub largest : ℕ
largest = 65804

-- The nibble and the extended bytes of a delta or a length.
unfoldable pub nibble : ℕ → ℕ
nibble v = if leb v 12 then v else if leb v 268 then 13 else 14

unfoldable pub extended : ℕ → List ℕ
extended v =
    if leb v 12
    then []
    else if leb v 268
    then (v - 13) ∷ []
    else ((v - 269) / 256) ∷ ((v - 269) % 256) ∷ []

pub nibble-lt : (v : ℕ) → nibble v < 15
unfolding nibble
nibble-lt v = ground arith

pub get_option_nibble-nibble : (v : ℕ) → v ≤ largest → get_option_nibble v ≡ returns (nibble v)
unfolding get_option_nibble nibble
get_option_nibble-nibble v h = ground arith

pub wire-extended_fields : (v : ℕ) → v ≤ largest → wire (extended_fields (nibble v) v) ≡ extended v
unfolding nibble extended extended_fields wire
wire-extended_fields v h = ground arith

pub extended_fields-Fits : (v : ℕ) → v ≤ largest → All Fits (extended_fields (nibble v) v)
unfolding nibble extended_fields
extended_fields-Fits v h = ground arith

-- An option that both sides can carry: its number is known and its value is of the registry's type.
-- A text is not empty, since the empty one comes back as the text "b''", and it is ASCII, since the
-- length counts characters and not bytes.
abbrev pub IsCarried : ValueType → Value → Type 0
IsCarried integer (int n) = byte_len n ≤ largest
IsCarried string (str (c ∷ s)) = IsAscii (c ∷ s) × (length (c ∷ s) ≤ largest)
IsCarried opaque (bytes bs) = All IsByte bs × (length bs ≤ largest)
IsCarried unknown (bytes bs) = All IsByte bs × (length bs ≤ largest)
IsCarried _ _ = ⊥

pub record IsOption (o : CoapOption) : Type 0 where
  pub item : OptionItem
  pub known : item_of o.number ≡ some item
  pub carried : IsCarried item.value_type o.raw

-- The bytes of a value.
unfoldable pub value_bytes : Value → List ℕ
value_bytes absent = []
value_bytes (int n) = to_bytes (byte_len n) n
value_bytes (str s) = s
value_bytes (bytes bs) = bs

-- The bytes of an option behind the option numbered `last`.
unfoldable pub option_bytes : ℕ → CoapOption → List ℕ
option_bytes last o =
    let delta = o.number - last in
    let len = option_length o in
    (nibble delta * 16 + nibble len) ∷ (extended delta ++ (extended len ++ value_bytes o.raw))

unfoldable pub options_bytes : ℕ → List CoapOption → List ℕ
options_bytes last [] = []
options_bytes last (o ∷ os) = option_bytes last o ++ options_bytes o.number os

-- The end of a packet: nothing, or the marker and a payload that is not empty.
unfoldable pub payload_bytes : List ℕ → List ℕ
payload_bytes [] = []
payload_bytes (p ∷ ps) = payload_marker ∷ p ∷ ps

-- The payload is bytes, or there is none.
abbrev pub IsPayload : Value → List ℕ → Type 0
IsPayload absent ps = ps ≡ []
IsPayload (bytes bs) ps = bs ≡ ps
IsPayload _ ps = ⊥
