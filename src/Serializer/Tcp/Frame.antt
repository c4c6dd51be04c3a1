-- ===== src/Serializer/Tcp/Frame.antt =====
-- The frame of a message over a stream: the lengths that are written are read back.
use bubot_co_ap.Prelude.{
  ℕ, suc, ◌+◌, ◌-◌, ◌*◌, ◌/◌, ◌%◌, ◌^◌, ◌≤◌, ◌<◌, ◌≡◌, refl, ◌∙◌, true, false, some, List, [], ◌∷◌,
  ◌++◌, length, arith, length-append, take-append_exact, ltb, bit_and, bit_or, ltb→lt, inl, inr,
  Bool-cases,
}
use bubot_co_ap.Prelude.Bits.{mask-low_nibble}
use bubot_co_ap.Prelude.Masks.{join_nibble}
use bubot_co_ap.Outcome.{returns}
use bubot_co_ap.Serializer.Words.{from_bytes, to_bytes}
use bubot_co_ap.Serializer.Words.RoundTrip.{length-to_bytes, from_bytes-to_bytes}
use bubot_co_ap.Serializer.Tcp.{extension, extract_message_size, encode_length}

halves : (n t : ℕ) → t < 16 → ((n * 16 + t) / 16 ≡ n) × ((n * 16 + t) % 16 ≡ t)
halves n t h = (omega arith, omega arith)

-- A frame whose nibble announces an extended field of k bytes.
wide_frame :
    (n k offset l t : ℕ) (field rest : List ℕ)
    → ltb n 13 ≡ false
    → n < 16
    → t < 16
    → length field ≡ k
    → extension n ≡ (k, offset)
    → from_bytes 0 field + offset ≡ l
    → extract_message_size ((n * 16 + t) ∷ (field ++ rest))
      ≡ some (record { token_offset = 2 + k; token_length = t; body_length = l })
unfolding extract_message_size
wide_frame n k offset l t field rest wide hi ht len ext value =
    let low : bit_and (n * 16 + t) 0x0F ≡ t =
      mask-low_nibble (n * 16 + t) (omega arith) ∙ (halves n t ht).1 in
    let long : ltb (suc (length (field ++ rest))) (k + 1) ≡ false =
      ground (arith, length-append field rest, len) in
    rw ((halves n t ht).0, low, wide, ext, long, take-append_exact k field rest len, value) refl

short_frame :
    (l t : ℕ) (rest : List ℕ)
    → ltb l 13 ≡ true
    → t < 16
    → extract_message_size ((l * 16 + t) ∷ rest)
      ≡ some (record { token_offset = 2; token_length = t; body_length = l })
unfolding extract_message_size
short_frame l t rest small ht =
    let low : bit_and (l * 16 + t) 0x0F ≡ t =
      mask-low_nibble (l * 16 + t) (omega (arith, ltb→lt l 13 small)) ∙ (halves l t ht).1 in
    rw ((halves l t ht).0, low, small) refl

written_frame :
    (n k offset l t : ℕ) (rest : List ℕ)
    → ltb n 13 ≡ false
    → n < 16
    → t < 16
    → extension n ≡ (k, offset)
    → offset ≤ l
    → l - offset < 256 ^ k
    → extract_message_size (bit_or (n * 16) t ∷ (to_bytes k (l - offset) ++ rest))
      ≡ some (record {
        token_offset = 2 + length (to_bytes k (l - offset));
        token_length = t;
        body_length = l;
      })
written_frame n k offset l t rest wide hi ht ext up fits =
    rw (join_nibble n t ht, length-to_bytes k (l - offset))
      (wide_frame n k offset l t (to_bytes k (l - offset)) rest wide hi ht
        (length-to_bytes k (l - offset)) ext
        (rw (from_bytes-to_bytes k (l - offset) fits) (omega arith)))

-- The first bytes of a frame, which serialize writes before code, token and body, give back the
-- token's length and the length of the body, whatever follows; the token is behind them and the code.
pub extract_message_size-encode_length :
    (l t n : ℕ) (field rest : List ℕ)
    → t < 16
    → encode_length l ≡ returns (n, field)
    → extract_message_size (bit_or (n * 16) t ∷ (field ++ rest))
      ≡ some (record { token_offset = 2 + length field; token_length = t; body_length = l })
unfolding encode_length
extract_message_size-encode_length l t n field rest ht e = elim (Bool-cases (ltb l 13)) [
  | inl small ↦
      let (n', field') : (n ≡ l) × (field ≡ []) = ground (arith, e, small) in
      rw (n', field', join_nibble l t ht) (short_frame l t rest small ht)
  | inr wide ↦ elim (Bool-cases (ltb l 269)) [
    | inl small ↦
        let (n', field') : (n ≡ 13) × (field ≡ to_bytes 1 (l - 13)) =
          ground (arith, e, wide, small) in
        rw (n', field')
          (written_frame 13 1 13 l t rest refl (omega arith) ht refl (ground (arith, wide))
            (ground (arith, small)))
    | inr wide' ↦ elim (Bool-cases (ltb l 65805)) [
      | inl small ↦
          let (n', field') : (n ≡ 14) × (field ≡ to_bytes 2 (l - 269)) =
            ground (arith, e, wide, wide', small) in
          rw (n', field')
            (written_frame 14 2 269 l t rest refl (omega arith) ht refl (ground (arith, wide'))
              (ground (arith, small)))
      | inr wide'' ↦
          let (fits, n', field') : (l - 65805 < 256 ^ 4)
              × (n ≡ 15)
              × (field ≡ to_bytes 4 (l - 65805)) =
            ground (arith, e, wide, wide', wide'') in
          rw (n', field')
            (written_frame 15 4 65805 l t rest refl (omega arith) ht refl (ground (arith, wide''))
              fits)
    ]
  ]
]
