-- ===== src/Serializer/Decode/HeaderEnds.antt =====
-- serializer.py, _read_option_value_len_from_byte: how reading an option's header ends.
use bubot_co_ap.Prelude.{
  ℕ, ◌≤◌, ◌≡◌, refl, true, false, List, [], ◌∷◌, length, arith, leb, ◌==◌, ◌/◌, bit_and, inl, inr,
  Bool-cases,
}
use bubot_co_ap.Outcome.{returns, ◌>>=◌}
use bubot_co_ap.Serializer.Decode.{read_extended, read_option_value_len_from_byte}
use bubot_co_ap.Serializer.Ends.{Ends, Ends-bind, is_caused}

-- The value, and no more bytes than there were.
abbrev Within : ℕ → ℕ × List ℕ → Type 0
Within n (v, rest) = length rest ≤ n

read_extended-Ends :
    (n : ℕ) (bs : List ℕ) → Ends is_caused (Within (length bs)) (read_extended n bs)
unfolding read_extended is_caused
read_extended-Ends n bs = elim (Bool-cases (leb n 12)) [
  | inl h ↦ rw h (omega arith)
  | inr h ↦ elim (Bool-cases (n == 13)) [
    | inl h' ↦ one h h' bs
    | inr h' ↦ elim (Bool-cases (n == 14)) [
      | inl h'' ↦ two h h' h'' bs
      | inr h'' ↦ rw (h, h', h'') refl
    ]
  ]
]
  where
    one :
        leb n 12 ≡ false
        → (n == 13) ≡ true
        → (bs : List ℕ) → Ends is_caused (Within (length bs)) (read_extended n bs)
    one h h' [] = rw (h, h') refl
    one h h' (b ∷ bs) = rw (h, h') (omega arith)

    two :
        leb n 12 ≡ false
        → (n == 13) ≡ false
        → (n == 14) ≡ true
        → (bs : List ℕ) → Ends is_caused (Within (length bs)) (read_extended n bs)
    two h h' h'' [] = rw (h, h', h'') refl
    two h h' h'' (b ∷ []) = rw (h, h', h'') refl
    two h h' h'' (b ∷ c ∷ bs) = rw (h, h', h'') (omega arith)

abbrev pub WithinTwo : ℕ → ℕ × ℕ × List ℕ → Type 0
WithinTwo n (v, l, rest) = length rest ≤ n

second_field :
    (n k v : ℕ) (more : List ℕ)
    → length more ≤ k
    → Ends is_caused (WithinTwo k) (read_extended n more >>= λ (l, rest). returns (v, l, rest))
second_field n k v more h =
    Ends-bind is_caused (Within (length more)) (WithinTwo k) (read_extended n more)
      (λ (l, rest). returns (v, l, rest)) (read_extended-Ends n more)
      (λ (l, rest) h'. omega (arith, h, h'))

pub read_header-Ends :
    (b : ℕ) (bs : List ℕ)
    → Ends is_caused (WithinTwo (length bs)) (read_option_value_len_from_byte b bs)
unfolding read_option_value_len_from_byte
read_header-Ends b bs =
    let high = bit_and b 0xF0 / 16 in
    let low = bit_and b 0x0F in
    Ends-bind is_caused (Within (length bs)) (WithinTwo (length bs)) (read_extended high bs)
      (λ (v, more). read_extended low more >>= λ (l, rest). returns (v, l, rest))
      (read_extended-Ends high bs) (λ (v, more) h. second_field low (length bs) v more h)
