-- ===== src/Messages/Options/Laws.antt =====
-- Deleting by number is a filter, and what adding and deleting do to the numbers present.
use bubot_co_ap.Prelude.{
  ℕ, ◌≡◌, refl, true, false, ◌||◌, not, some, List, [], ◌∷◌, ◌++◌, arith, ◌==◌, if◌then◌else◌,
  append_assoc, All, All-append, inl, inr, Bool-cases, ==_iff, ◌∙◌,
}
use bubot_co_ap.Outcome.{returns}
use bubot_co_ap.Defines.{OptionItem, item_of}
use bubot_co_ap.Messages.Value.{Value, absent, int, str, bytes}
use bubot_co_ap.Messages.CoapOption.{CoapOption}
use bubot_co_ap.Messages.Message.{Message}
use bubot_co_ap.Messages.Options.{
  has_number, add, same_texts, same_value, same_option, remove_first, del_loop,
  del_option_by_number,
}

same_texts_self : (s : List ℕ) → same_texts s s ≡ true
unfolding same_texts
same_texts_self [] = refl
same_texts_self (a ∷ s) = ground (arith, same_texts_self s)

pub same_value_self : (v : Value) → same_value v v ≡ true
unfolding same_value
same_value_self absent = refl
same_value_self (int n) = ground arith
same_value_self (str s) = same_texts_self s
same_value_self (bytes s) = same_texts_self s

same_option_self : (o : CoapOption) → same_option o o ≡ true
unfolding same_option
same_option_self o = ground (arith, same_value_self o.raw)

-- The options whose number is not n, in their order.
unfoldable pub without : ℕ → List CoapOption → List CoapOption
without n [] = []
without n (o ∷ os) = let rest = without n os in if o.number == n then rest else o ∷ rest

other_number : (p o : CoapOption) → (p.number == o.number) ≡ false → same_option p o ≡ false
unfolding same_option
other_number p o h = ground arith

-- An option stands behind others of other numbers: it is the one that is removed.
remove_first-append :
    (kept : List CoapOption) (o : CoapOption) (rest : List CoapOption)
    → All (λ p. (p.number == o.number) ≡ false) kept
    → remove_first o (kept ++ (o ∷ rest)) ≡ kept ++ rest
unfolding remove_first
remove_first-append [] o rest h = ground (arith, same_option_self o)
remove_first-append (p ∷ kept) o rest (hp, hk) =
    ground (arith, other_number p o, remove_first-append kept o rest hk)

del_loop-without :
    (n : ℕ) (kept os : List CoapOption)
    → All (λ p. (p.number == n) ≡ false) kept
    → del_loop n os (kept ++ os) ≡ kept ++ without n os
unfolding del_loop without
del_loop-without n kept [] h = refl
del_loop-without n kept (o ∷ os) h = elim (Bool-cases (o.number == n)) [
  | inl hit ↦
      let same : o.number ≡ n = (==_iff o.number n).0 hit in
      rw (hit, remove_first-append kept o os (rw (← same) at h)) (del_loop-without n kept os h)
  | inr miss ↦
      rw (miss, ← append_assoc kept (o ∷ []) os)
        (del_loop-without n (kept ++ (o ∷ [])) os (All-append _ kept (o ∷ []) h (miss, tt))
          ∙ append_assoc kept (o ∷ []) (without n os))
]

-- Deleting by number takes away the options of that number, and keeps the others in their order.
pub del_option_by_number-without :
    (n : ℕ) (m : Message) → del_option_by_number n m ≡ record m { options = without n m.options }
unfolding del_option_by_number
del_option_by_number-without n m = rw (del_loop-without n [] m.options tt)

-- None of the options that are left has the number.
pub has_number-without : (n : ℕ) (os : List CoapOption) → has_number n (without n os) ≡ false
unfolding has_number without
has_number-without n [] = refl
has_number-without n (o ∷ os) = ground (arith, has_number-without n os)

pub has_number-append :
    (n : ℕ) (os ps : List CoapOption)
    → has_number n (os ++ ps) ≡ (if has_number n os then true else has_number n ps)
unfolding has_number
has_number-append n [] ps = refl
has_number-append n (o ∷ os) ps = ground (arith, has_number-append n os ps)

-- An option that the registry knows is added at the end, unless it may not be repeated and is there.
pub add-ok :
    (os : List CoapOption) (o : CoapOption) {item : OptionItem}
    → item_of o.number ≡ some item
    → (item.repeatable || not (has_number o.number os)) ≡ true
    → add os o ≡ returns (os ++ (o ∷ []))
unfolding add
add-ok os o known fresh = ground (arith, known, fresh)
