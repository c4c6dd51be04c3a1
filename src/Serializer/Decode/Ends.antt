-- ===== src/Serializer/Decode/Ends.antt =====
-- serializer.py: how the loop over the options ends.
use bubot_co_ap.Prelude.{
  ℕ, zero, suc, ◌+◌, ◌≤◌, refl, List, [], ◌∷◌, length, drop, arith, ◌==◌, inl, inr, Bool-cases,
}
use bubot_co_ap.Outcome.{returns, raises, attribute_error, ◌>>=◌}
use bubot_co_ap.Defines.{ByteOrder, payload_marker}
use bubot_co_ap.Messages.Value.{bytes}
use bubot_co_ap.Messages.Message.{Message}
use bubot_co_ap.Serializer.Decode.{read_option_value_len_from_byte, read_option, options_loop}
use bubot_co_ap.Serializer.Ends.{Ends, Ends-bind, is_caused, Any}
use bubot_co_ap.Serializer.Decode.HeaderEnds.{WithinTwo, read_header-Ends}
use bubot_co_ap.Serializer.Decode.OptionEnds.{read_option-Ends}

length-drop-le : {A : Type 0} (n : ℕ) (xs : List A) → length (drop n xs) ≤ length xs
length-drop-le zero xs = omega arith
length-drop-le (suc n) [] = omega arith
length-drop-le (suc n) (x ∷ xs) = omega (arith, length-drop-le n xs)

-- With as much fuel as there are bytes the loop ends.
pub options_loop-Ends :
    (fuel : ℕ) (order : ByteOrder) (m : Message) (n : ℕ) (bs : List ℕ)
    → length bs ≤ fuel
    → Ends is_caused Any (options_loop fuel order m n bs)
unfolding options_loop is_caused
options_loop-Ends fuel order m n [] enough = tt
options_loop-Ends zero order m n (b ∷ bs) enough = absurd (omega arith)
options_loop-Ends (suc f) order m n (b ∷ bs) enough = elim (Bool-cases (b == payload_marker)) [
  | inl h ↦ rw (h, options_loop) (payload bs)
  | inr h ↦
      rw (h, options_loop)
        (Ends-bind is_caused (WithinTwo (length bs)) Any (read_option_value_len_from_byte b bs)
          (λ (num, len, values). read_option order m (n + num) len values >>= λ m'.
            options_loop f order m' (n + num) (drop len values))
          (read_header-Ends b bs)
          (λ (num, len, values) within. round num len values (λ m'.
            options_loop-Ends f order m' (n + num) (drop len values)
              (omega (arith, enough, within, length-drop-le len values)))))
]
  where
    payload :
        (bs : List ℕ)
        → Ends is_caused Any (elim bs [
          | [] ↦ raises attribute_error
          | p ∷ ps ↦ returns (record m { payload = bytes (p ∷ ps) })
        ])
    payload [] = refl
    payload (p ∷ ps) = tt

    round :
        (num len : ℕ) (values : List ℕ)
        → ((m' : Message)
            → Ends is_caused Any (options_loop f order m' (n + num) (drop len values)))
        → Ends is_caused Any (
            read_option order m (n + num) len values >>= λ m'.
            options_loop f order m' (n + num) (drop len values))
    round num len values rest =
        Ends-bind is_caused Any Any (read_option order m (n + num) len values)
          (λ m'. options_loop f order m' (n + num) (drop len values))
          (read_option-Ends order m (n + num) len values) (λ m' a. rest m')
