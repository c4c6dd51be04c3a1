-- ===== src/Text/Ascii.antt =====
-- On ASCII text both directions of UTF-8 are the identity; any other character takes more bytes.
use bubot_co_ap.Prelude.{
  ℕ, ◌≤◌, ◌<◌, ◌≡◌, refl, some, List, [], ◌∷◌, length, All, arith, length-append, Option-cases,
  ◌++◌, inl, inr,
}
use bubot_co_ap.Text.{Text, encode_char, utf8_encode, utf8_decode}

abbrev pub IsAscii : Text → Type 0
IsAscii s = All (λ c. c < 128) s

pub utf8_encode-IsAscii : (s : Text) → IsAscii s → utf8_encode s ≡ some s
unfolding utf8_encode
utf8_encode-IsAscii [] h = refl
utf8_encode-IsAscii (c ∷ s) (hc, hs) = ground (arith, utf8_encode-IsAscii s hs)

pub utf8_decode-IsAscii : (s : List ℕ) → IsAscii s → utf8_decode s ≡ some s
unfolding utf8_decode
utf8_decode-IsAscii [] h = refl
utf8_decode-IsAscii (a ∷ []) h = ground arith
utf8_decode-IsAscii (a ∷ b ∷ []) h = ground (arith, utf8_decode-IsAscii (b ∷ []) h.1)
utf8_decode-IsAscii (a ∷ b ∷ c ∷ []) h = ground (arith, utf8_decode-IsAscii (b ∷ c ∷ []) h.1)
utf8_decode-IsAscii (a ∷ b ∷ c ∷ d ∷ rest) h =
    ground (arith, utf8_decode-IsAscii (b ∷ c ∷ d ∷ rest) h.1)

-- The bytes of one character: at least one, and exactly one for ASCII only.
encode_char_size :
    (c : ℕ) (front : List ℕ)
    → encode_char c ≡ some front
    → (1 ≤ length front) × (length front ≡ 1 → c < 128)
unfolding encode_char
encode_char_size c front e = ground arith

utf8_encode-cons :
    (c : ℕ) (s bs : List ℕ)
    → utf8_encode (c ∷ s) ≡ some bs
    → (front : List ℕ) × (rest : List ℕ) × (encode_char c ≡ some front)
      × (utf8_encode s ≡ some rest)
      × (bs ≡ front ++ rest)
unfolding utf8_encode
utf8_encode-cons c s bs e = elim (Option-cases (encode_char c)) [
  | inl bad ↦ cc (rw (bad, utf8_encode) at e)
  | inr (front, good) ↦ elim (Option-cases (utf8_encode s)) [
    | inl bad ↦ cc (rw (good, bad, utf8_encode) at e)
    | inr (rest, fine) ↦ (front, rest, good, fine, ground arith)
  ]
]

-- An encoding is never shorter than its text, and as long only for ASCII.
pub length-utf8_encode :
    (s bs : List ℕ)
    → utf8_encode s ≡ some bs
    → (length s ≤ length bs) × (length bs ≡ length s → IsAscii s)
unfolding utf8_encode
length-utf8_encode [] bs e = (omega arith, λ h. tt)
length-utf8_encode (c ∷ s) bs e =
    let (front, rest, good, fine, whole) = utf8_encode-cons c s bs e in
    let (shorter, ascii) = length-utf8_encode s rest fine in
    let (some_byte, one_byte) = encode_char_size c front good in
    rw whole (
      omega (arith, length-append front rest),
      λ h. (
        one_byte (omega (arith, length-append front rest)),
        ascii (omega (arith, length-append front rest)),
      ),
    )
