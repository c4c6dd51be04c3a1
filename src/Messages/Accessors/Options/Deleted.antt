-- ===== src/Messages/Accessors/Options/Deleted.antt =====
-- messages/message.py: the loop of del_option.
use bubot_co_ap.Prelude.{
  ℕ, zero, suc, ◌≤◌, ◌≡◌, refl, ap, false, List, [], ◌∷◌, length, arith, if◌then◌else◌, inl, inr,
  Bool-cases,
}
use bubot_co_ap.Messages.CoapOption.{CoapOption}
use bubot_co_ap.Messages.Message.{Message}
use bubot_co_ap.Messages.Options.{remove_first, same_option}
use bubot_co_ap.Messages.Accessors.Options.{has_option, remove_rounds, del_option}

-- The options that are not equal to o, in their order.
unfoldable pub unequal : CoapOption → List CoapOption → List CoapOption
unequal o [] = []
unequal o (p ∷ ps) = let rest = unequal o ps in if same_option p o then rest else p ∷ rest

remove_rounds-cons :
    (fuel : ℕ) (o p : CoapOption) (ps : List CoapOption)
    → same_option p o ≡ false
    → remove_rounds fuel o (p ∷ ps) ≡ p ∷ remove_rounds fuel o ps
unfolding remove_rounds has_option remove_first
remove_rounds-cons zero o p ps h = refl
remove_rounds-cons (suc fuel) o p ps h = elim (Bool-cases (has_option o ps)) [
  | inl more ↦ rw (h, more) (remove_rounds-cons fuel o p (remove_first o ps) h)
  | inr done ↦ rw (h, done) refl
]

remove_rounds-unequal :
    (fuel : ℕ) (o : CoapOption) (os : List CoapOption)
    → length os ≤ fuel
    → remove_rounds fuel o os ≡ unequal o os
unfolding remove_rounds has_option remove_first unequal
remove_rounds-unequal zero o [] h = refl
remove_rounds-unequal (suc fuel) o [] h = refl
remove_rounds-unequal zero o (p ∷ ps) h = absurd (omega arith)
remove_rounds-unequal (suc fuel) o (p ∷ ps) h = elim (Bool-cases (same_option p o)) [
  | inl same ↦ rw same (remove_rounds-unequal fuel o ps (omega arith))
  | inr other ↦
      rw (remove_rounds-cons (suc fuel) o p ps other, other)
        (ap (λ (r : List CoapOption). p ∷ r) (remove_rounds-unequal (suc fuel) o ps (omega arith)))
]

-- As many rounds as there are options are enough for the loop of del_option: none that is equal to the
-- option is left, and the others stay in their order.
pub del_option-unequal :
    (o : CoapOption) (m : Message) → del_option o m ≡ record m { options = unequal o m.options }
unfolding del_option
del_option-unequal o m =
    rw (remove_rounds-unequal (length m.options) o m.options (omega arith)) refl
