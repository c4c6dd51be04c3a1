-- ===== src/Serializer/Wire/Writes.antt =====
-- The serializers' fields pack to the wire format.
use bubot_co_ap.Prelude.{
  ℕ, ◌+◌, ◌-◌, ◌*◌, ◌≤◌, ◌≡◌, refl, ap, ◌∙◌, some, List, [], ◌∷◌, ◌++◌, All, arith, All-append,
  append-nil, map, lt→ltb,
}
use bubot_co_ap.Prelude.Masks.{join_nibble}
use bubot_co_ap.Outcome.{Outcome, returns}
use bubot_co_ap.Text.Ascii.{utf8_encode-IsAscii}
use bubot_co_ap.Defines.{OptionItem, ValueType, integer, string, opaque, unknown, item_of}
use bubot_co_ap.Defines.Facts.{item_of-le}
use bubot_co_ap.Messages.Value
use bubot_co_ap.Messages.Value.{Value, absent, int, str, bytes}
use bubot_co_ap.Messages.CoapOption.{CoapOption, read, get_value, option_length}
use bubot_co_ap.Utils.{byte_len}
use bubot_co_ap.Utils.ByteLen.{byte_len_bounds, byte_len_pos, byte_len-zero}
use bubot_co_ap.Serializer.Words.{to_bytes}
use bubot_co_ap.Serializer.Words.RoundTrip.{IsByte, int_to_words-to_bytes, to_bytes-IsByte}
use bubot_co_ap.Serializer.Pack.{Field, byte, raw}
use bubot_co_ap.Serializer.Encode.{
  extended_fields, value_fields, payload_fields, option_value_fields, option_fields, options_fields,
}
use native.Mathlib.Decide.{dec_lt}
use bubot_co_ap.Serializer.Wire.{
  Fits, wire, wire-append, largest, nibble, nibble-lt, get_option_nibble-nibble,
  wire-extended_fields, extended_fields-Fits, IsCarried, IsOption, value_bytes, option_bytes,
  options_bytes, payload_bytes, IsPayload,
}

bytes-wire : (bs : List ℕ) → wire (map byte bs) ≡ bs
unfolding wire
bytes-wire [] = refl
bytes-wire (b ∷ bs) = ap (λ (r : List ℕ). b ∷ r) (bytes-wire bs)

bytes-Fits : (bs : List ℕ) → All IsByte bs → All Fits (map byte bs)
bytes-Fits [] h = tt
bytes-Fits (b ∷ bs) (h, hs) = (h, bytes-Fits bs hs)

-- No value is longer than a length can say.
pub option_length-le : (o : CoapOption) → IsOption o → option_length o ≤ largest
unfolding option_length
option_length-le o h = go h.item.value_type o.raw h.carried
  where
    go :
        (t : ValueType) (v : Value) → IsCarried t v → option_length (record o { raw = v }) ≤ largest
    go integer (int n) h = h
    go string (str (c ∷ s)) h = h.1
    go opaque (bytes bs) h = h.1
    go unknown (bytes bs) h = h.1
    go _ _ h = absurd h

-- Fields that are produced, fit, and have the given bytes.
abbrev pub Writes : Outcome (List Field) → List ℕ → Type 0
Writes r bs = (fs : List Field) × (r ≡ returns fs) × (wire fs ≡ bs) × All Fits fs

value-Writes :
    (n : ℕ) (item : OptionItem) (t : ValueType) (v : Value)
    → item_of n ≡ some item
    → item.value_type ≡ t
    → IsCarried t v
    → (let o : CoapOption = record { number = n; raw = v } in
        Writes (option_value_fields o (option_length o)) (value_bytes v))
unfolding option_value_fields value_fields value_bytes option_length get_value read Value.encode
value-Writes n item integer (int k) known typed h = elim (dec_lt 0 k) [
  | yes p ↦ (
    map byte (to_bytes (byte_len k) k),
    rw
        (
          lt→ltb 0 (byte_len k) (byte_len_pos k p),
          known,
          typed,
          lt→ltb 0 (byte_len k) (byte_len_pos k p),
        )
        (rw (int_to_words-to_bytes k (byte_len k) (byte_len_bounds k).0)),
    bytes-wire (to_bytes (byte_len k) k),
    bytes-Fits (to_bytes (byte_len k) k) (to_bytes-IsByte (byte_len k) k),
  )
  | no p ↦
      let e : k ≡ 0 = omega arith in
      rw (e, byte_len-zero) ([], refl, unfold wire to_bytes in refl, tt)
]
value-Writes n item string (str (c ∷ s)) known typed h = (
  raw (c ∷ s) ∷ [],
  ground (arith, known, typed, utf8_encode-IsAscii (c ∷ s) h.0),
  unfold wire in append-nil (c ∷ s),
  (tt, tt),
)
value-Writes n item opaque (bytes []) known typed h = ([], refl, unfold wire in refl, tt)
value-Writes n item opaque (bytes (b ∷ bs)) known typed (h, _) =
    (map byte (b ∷ bs), ground (arith, known, typed), bytes-wire (b ∷ bs), bytes-Fits (b ∷ bs) h)
value-Writes n item unknown (bytes []) known typed h = ([], refl, unfold wire in refl, tt)
value-Writes n item unknown (bytes (b ∷ bs)) known typed (h, _) =
    (map byte (b ∷ bs), ground (arith, known, typed), bytes-wire (b ∷ bs), bytes-Fits (b ∷ bs) h)
value-Writes n item _ _ known typed h = absurd h

wire_header :
    (b : ℕ) (fs gs hs : List Field) {xs ys zs : List ℕ}
    → wire fs ≡ xs
    → wire gs ≡ ys
    → wire hs ≡ zs
    → wire (byte b ∷ (fs ++ (gs ++ hs))) ≡ b ∷ (xs ++ (ys ++ zs))
unfolding wire
wire_header b fs gs hs p q r =
    ap (λ (t : List ℕ). b ∷ t) (wire-append fs (gs ++ hs) ∙ rw (wire-append gs hs, p, q, r))

-- One option, behind a smaller number.
option-Writes :
    (last : ℕ) (o : CoapOption) → IsOption o → Writes (option_fields last o) (option_bytes last o)
unfolding option_fields option_bytes
option-Writes last o h =
    let len = option_length o in
    let delta = o.number - last in
    let near : delta ≤ largest = omega (arith, item_of-le o.number h.known) in
    let short_enough : len ≤ largest = option_length-le o h in
    let (fs, written, bytes_eq, fit) =
      value-Writes o.number h.item h.item.value_type o.raw h.known refl h.carried in
    (
      byte (nibble delta * 16 + nibble len)
          ∷ (extended_fields (nibble delta) delta ++ (extended_fields (nibble len) len ++ fs)),
      rw (get_option_nibble-nibble delta near, get_option_nibble-nibble len short_enough, written)
          (rw (join_nibble (nibble delta) (nibble len) (omega (arith, nibble-lt len)))),
      wire_header (nibble delta * 16 + nibble len) _ _ fs (wire-extended_fields delta near)
          (wire-extended_fields len short_enough) bytes_eq,
      (
        omega (arith, nibble-lt len, nibble-lt delta),
        All-append Fits (extended_fields (nibble delta) delta) _ (extended_fields-Fits delta near) (
            All-append Fits (extended_fields (nibble len) len) fs
              (extended_fields-Fits len short_enough) fit),
      ),
    )

-- All options, sorted or not.
pub options-Writes :
    (last : ℕ) (os : List CoapOption)
    → All IsOption os
    → Writes (options_fields last os) (options_bytes last os)
unfolding options_fields options_bytes
options-Writes last [] h = ([], refl, unfold wire in refl, tt)
options-Writes last (o ∷ os) (ho, hos) =
    joined (option-Writes last o ho) (options-Writes o.number os hos)
  where
    joined :
        Writes (option_fields last o) (option_bytes last o)
        → Writes (options_fields o.number os) (options_bytes o.number os)
        → Writes (options_fields last (o ∷ os)) (option_bytes last o ++ options_bytes o.number os)
    joined (fs, p, pw, pf) (gs, q, qw, qf) =
        (fs ++ gs, rw (p, q), wire-append fs gs ∙ rw (pw, qw), All-append Fits fs gs pf qf)

pub payload-Writes :
    (v : Value) (ps : List ℕ) → IsPayload v ps → Writes (payload_fields v) (payload_bytes ps)
unfolding payload_fields payload_bytes
payload-Writes absent ps h = rw h ([], refl, unfold wire in refl, tt)
payload-Writes (bytes []) ps h = rw (← h) ([], refl, unfold wire in refl, tt)
payload-Writes (bytes (b ∷ bs)) ps h =
    rw (← h)
      (byte 0xFF ∷ raw (b ∷ bs) ∷ [], refl, unfold wire in rw append-nil, (omega arith, (tt, tt)))
payload-Writes (int n) ps h = absurd h
payload-Writes (str s) ps h = absurd h
