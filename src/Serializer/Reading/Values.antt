-- ===== src/Serializer/Reading/Values.antt =====
-- Reading an option's header and its value from the wire format.
use bubot_co_ap.Prelude.{
  ℕ, zero, suc, ◌+◌, ◌*◌, ◌/◌, ◌%◌, ◌≤◌, ◌<◌, ◌≡◌, refl, List, [], ◌∷◌, ◌++◌, length, take, arith,
  take-append, take-append_exact,
}
use native.Mathlib.Decide.{dec_lt}
use bubot_co_ap.Prelude.Bits.{mask-high_nibble, mask-low_nibble}
use bubot_co_ap.Outcome.{returns, ◌>>=◌, >>=-eq-returns}
use bubot_co_ap.Text.Ascii.{utf8_decode-IsAscii}
use bubot_co_ap.Defines.{ValueType, integer, string, opaque, unknown}
use bubot_co_ap.Messages.Value.{Value, int, str, bytes}
use bubot_co_ap.Messages.CoapOption.{CoapOption, stored, option_length}
use bubot_co_ap.Messages.CoapOption.Laws.{stored_int}
use bubot_co_ap.Utils.{byte_len}
use bubot_co_ap.Utils.ByteLen.{byte_len_bounds, byte_len_pos, byte_len-zero}
use bubot_co_ap.Serializer.Words.{to_bytes, int_of_bytes}
use bubot_co_ap.Serializer.Words.RoundTrip.{length-to_bytes, int_of_bytes-to_bytes}
use bubot_co_ap.Serializer.Decode.{
  read_extended, read_option_value_len_from_byte, read_value, convert_to_raw,
}
use bubot_co_ap.Serializer.Wire.{
  nibble, nibble-lt, extended, largest, IsCarried, IsOption, value_bytes,
}

pub read_extended-extended :
    (v : ℕ) (rest : List ℕ)
    → v ≤ largest
    → read_extended (nibble v) (extended v ++ rest) ≡ returns (v, rest)
unfolding read_extended nibble extended
read_extended-extended v rest h = ground arith

pub read_header :
    (d l : ℕ) (rest : List ℕ)
    → d ≤ largest
    → l ≤ largest
    → read_option_value_len_from_byte
        (nibble d * 16 + nibble l)
        (extended d ++ (extended l ++ rest))
      ≡ returns (d, l, rest)
unfolding read_option_value_len_from_byte
read_header d l rest hd hl =
    let high : (nibble d * 16 + nibble l) / 16 ≡ nibble d = omega (arith, nibble-lt l) in
    let low : (nibble d * 16 + nibble l) % 16 ≡ nibble l = omega (arith, nibble-lt l) in
    let byte : nibble d * 16 + nibble l < 256 = omega (arith, nibble-lt l, nibble-lt d) in
    rw (mask-high_nibble _ byte, mask-low_nibble _ byte, high, low, read_extended-extended d _ hd)
      (rw (read_extended-extended l rest hl))

-- An int of k bytes, k not 0.
convert_int :
    (k v : ℕ) (bs : List ℕ)
    → 0 < k
    → int_of_bytes 0 (take k bs) ≡ v
    → (convert_to_raw integer (read_value integer k bs) k >>= stored integer) ≡ returns (int v)
unfolding convert_to_raw read_value
convert_int zero v bs p e = absurd (omega arith)
convert_int (suc k) v bs p e = ground (arith, e, stored_int v)

-- What convert_to_raw makes of the bytes of a value is stored as that value.
convert-value_bytes :
    (t : ValueType) (v : Value) (n : ℕ) (rest : List ℕ)
    → IsCarried t v
    → (let len = option_length (record { number = n; raw = v }) in
        (convert_to_raw t (read_value t len (value_bytes v ++ rest)) len >>= stored t) ≡ returns v)
unfolding convert_to_raw read_value value_bytes option_length stored
convert-value_bytes integer (int k) n rest h = elim (dec_lt 0 k) [
  | yes p ↦
      let front =
        take-append_exact (byte_len k) (to_bytes (byte_len k) k) rest
          (length-to_bytes (byte_len k) k) in
      convert_int (byte_len k) k _ (byte_len_pos k p)
        (rw front (int_of_bytes-to_bytes (byte_len k) k (byte_len_bounds k).0))
  | no p ↦ let e : k ≡ 0 = omega arith in rw (e, byte_len-zero) (stored_int 0)
]
convert-value_bytes string (str (c ∷ s)) n rest h =
    ground (arith, take-append s rest, utf8_decode-IsAscii (c ∷ s) h.0)
convert-value_bytes opaque (bytes []) n rest h = refl
convert-value_bytes opaque (bytes (b ∷ bs)) n rest h = ground (arith, take-append bs rest)
convert-value_bytes unknown (bytes []) n rest h = refl
convert-value_bytes unknown (bytes (b ∷ bs)) n rest h = ground (arith, take-append bs rest)
convert-value_bytes _ _ n rest h = absurd h

pub convert-stored :
    (o : CoapOption) (rest : List ℕ) (h : IsOption o)
    → (v : Value) × (convert_to_raw h.item.value_type
          (read_value h.item.value_type (option_length o) (value_bytes o.raw ++ rest))
          (option_length o)
        ≡ returns v)
      × (stored h.item.value_type v ≡ returns o.raw)
convert-stored o rest h =
    >>=-eq-returns
      (convert_to_raw h.item.value_type
        (read_value h.item.value_type (option_length o) (value_bytes o.raw ++ rest))
        (option_length o))
      (stored h.item.value_type)
      (convert-value_bytes h.item.value_type o.raw o.number rest h.carried)

pub length-value_bytes :
    (o : CoapOption) → IsOption o → length (value_bytes o.raw) ≡ option_length o
unfolding value_bytes option_length
length-value_bytes o h = go h.item.value_type o.raw h.carried
  where
    go :
        (t : ValueType) (v : Value)
        → IsCarried t v
        → length (value_bytes v) ≡ option_length (record o { raw = v })
    go integer (int n) h = length-to_bytes (byte_len n) n
    go string (str s) h = refl
    go opaque (bytes bs) h = refl
    go unknown (bytes bs) h = refl
    go _ _ h = absurd h
