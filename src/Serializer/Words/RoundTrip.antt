-- ===== src/Serializer/Words/RoundTrip.antt =====
-- Bytes of an integer read back as the integer.
use native.Mathlib.Nat.{pow-suc}
use mathlib.Core.List.{reverse, reverse-append}
use bubot_co_ap.Prelude.{
  ℕ, ap, zero, suc, bit_and, bit_or, ◌+◌, ◌-◌, ◌*◌, ◌/◌, ◌%◌, ◌^◌, ◌<◌, ◌≡◌, refl, ◌∙◌, List, [],
  ◌∷◌, ◌++◌, length, All, arith, length-append, All-append, append_assoc, append-nil, sym, le→leb,
}
use bubot_co_ap.Prelude.Masks.{join_byte, low_eight}
use bubot_co_ap.Outcome.{returns, ◌>>=◌}
use bubot_co_ap.Serializer.Words.{int_of_bytes, words_loop, int_to_words, from_bytes, to_bytes}

abbrev pub IsByte : ℕ → Type 0
IsByte b = b < 256

pub length-to_bytes : (k n : ℕ) → length (to_bytes k n) ≡ k
unfolding to_bytes
length-to_bytes zero n = refl
length-to_bytes (suc k) n =
    omega
      (arith, length-append (to_bytes k (n / 256)) ((n % 256) ∷ []), length-to_bytes k (n / 256))

pub to_bytes-IsByte : (k n : ℕ) → All IsByte (to_bytes k n)
unfolding to_bytes
to_bytes-IsByte zero n = tt
to_bytes-IsByte (suc k) n =
    All-append IsByte (to_bytes k (n / 256)) ((n % 256) ∷ []) (to_bytes-IsByte k (n / 256))
      (omega arith)

-- The loop collects the words from the low end, to be reversed.
words_loop-to_bytes :
    (k v : ℕ) (acc : List ℕ) → reverse (words_loop k v acc) ≡ to_bytes k v ++ reverse acc
unfolding words_loop to_bytes
words_loop-to_bytes zero v acc = refl
words_loop-to_bytes (suc k) v acc =
    words_loop-to_bytes k (v / 256) (acc ++ (bit_and v 0xFF ∷ []))
    ∙ rw (reverse-append acc (bit_and v 0xFF ∷ []), low_eight v)
        (sym (append_assoc (to_bytes k (v / 256)) ((v % 256) ∷ []) (reverse acc)))

-- int_to_words writes every number that fits, in network order.
pub int_to_words-to_bytes : (v k : ℕ) → v < 256 ^ k → int_to_words v k ≡ returns (to_bytes k v)
unfolding int_to_words
int_to_words-to_bytes v k h =
    rw (le→leb v (256 ^ k - 1) (omega arith), words_loop-to_bytes k v [], append-nil)

int_of_bytes-append :
    (a : ℕ) (xs ys : List ℕ) → int_of_bytes a (xs ++ ys) ≡ int_of_bytes (int_of_bytes a xs) ys
unfolding int_of_bytes
int_of_bytes-append a [] ys = refl
int_of_bytes-append a (x ∷ xs) ys = int_of_bytes-append (bit_or (a * 256) x) xs ys

pub int_of_bytes-to_bytes : (k v : ℕ) → v < 256 ^ k → int_of_bytes 0 (to_bytes k v) ≡ v
unfolding to_bytes
int_of_bytes-to_bytes zero v h = unfold int_of_bytes in omega arith
int_of_bytes-to_bytes (suc k) v h =
    let part : v / 256 < 256 ^ k = omega (arith, pow-suc 256 k) in
    int_of_bytes-append 0 (to_bytes k (v / 256)) ((v % 256) ∷ [])
    ∙ rw (int_of_bytes-to_bytes k (v / 256) part)
        (last_byte (v / 256) (v % 256) (omega arith) ∙ omega arith)
  where
    last_byte : (a b : ℕ) → b < 256 → int_of_bytes a (b ∷ []) ≡ a * 256 + b
    last_byte a b p = unfold int_of_bytes in join_byte a b p

from_bytes-append :
    (a : ℕ) (xs ys : List ℕ) → from_bytes a (xs ++ ys) ≡ from_bytes (from_bytes a xs) ys
unfolding from_bytes
from_bytes-append a [] ys = refl
from_bytes-append a (x ∷ xs) ys = from_bytes-append (a * 256 + x) xs ys

pub from_bytes-to_bytes : (k v : ℕ) → v < 256 ^ k → from_bytes 0 (to_bytes k v) ≡ v
unfolding to_bytes
from_bytes-to_bytes zero v h = unfold from_bytes in omega arith
from_bytes-to_bytes (suc k) v h =
    let part : v / 256 < 256 ^ k = omega (arith, pow-suc 256 k) in
    from_bytes-append 0 (to_bytes k (v / 256)) ((v % 256) ∷ [])
    ∙ rw (from_bytes-to_bytes k (v / 256) part) (last_byte (v / 256) (v % 256) ∙ omega arith)
  where
    last_byte : (a b : ℕ) → from_bytes a (b ∷ []) ≡ a * 256 + b
    last_byte a b = unfold from_bytes in refl

-- A number below 256 ^ k that is written in k bytes is read back.
int_of_bytes-int_to_words :
    (v k : ℕ) → v < 256 ^ k → (int_to_words v k >>= λ ws. returns (int_of_bytes 0 ws)) ≡ returns v
int_of_bytes-int_to_words v k h =
    rw (int_to_words-to_bytes v k h) (ap returns (int_of_bytes-to_bytes k v h))
