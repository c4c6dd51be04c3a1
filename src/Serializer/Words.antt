-- ===== src/Serializer/Words.antt =====
-- Integers as bytes: the loops of the serializers, and int.to_bytes and int.from_bytes.
pub mod RoundTrip
use bubot_co_ap.Prelude.{
  ℕ, zero, suc, ◌+◌, ◌-◌, ◌*◌, ◌/◌, ◌%◌, ◌^◌, List, [], ◌∷◌, ◌++◌, bit_and, bit_or, leb,
  if◌then◌else◌,
}
use mathlib.Core.List.{reverse}
use bubot_co_ap.Outcome.{Outcome, returns, raises, attribute_error}

-- `for b in tmp: value = (value << 8) | b`
unfoldable pub int_of_bytes : ℕ → List ℕ → ℕ
int_of_bytes value [] = value
int_of_bytes value (b ∷ bs) = int_of_bytes (bit_or (value * 256) b) bs

unfoldable pub words_loop : ℕ → ℕ → List ℕ → List ℕ
words_loop zero v words = words
words_loop (suc n) v words = words_loop n (v / 256) (words ++ (bit_and v 0xFF ∷ []))

-- int_to_words with words of 8 bits
unfoldable pub int_to_words : ℕ → ℕ → Outcome (List ℕ)
unfolding words_loop
int_to_words v num_words =
    if leb v (256 ^ num_words - 1)
    then returns (reverse (words_loop num_words v []))
    else raises attribute_error

-- int.from_bytes(bs, "big"), behind what is read already
unfoldable pub from_bytes : ℕ → List ℕ → ℕ
from_bytes n [] = n
from_bytes n (b ∷ bs) = from_bytes (n * 256 + b) bs

-- n.to_bytes(k, "big") for a number that fits
unfoldable pub to_bytes : ℕ → ℕ → List ℕ
to_bytes zero n = []
to_bytes (suc k) n = to_bytes k (n / 256) ++ ((n % 256) ∷ [])
