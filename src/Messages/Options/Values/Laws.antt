-- ===== src/Messages/Options/Values/Laws.antt =====
-- What the loops over the options of one number read of options that are added and deleted.
use bubot_co_ap.Prelude.{
  ℕ, ◌≡◌, refl, true, false, some, List, [], ◌∷◌, ◌++◌, arith, ◌==◌, append-nil, append_assoc, All,
}
use bubot_co_ap.Outcome.{returns}
use bubot_co_ap.Defines.{OptionItem, item_of}
use bubot_co_ap.Messages.Value.{Value}
use bubot_co_ap.Messages.CoapOption.{CoapOption, stored, read, set_value, get_value}
use bubot_co_ap.Messages.Message.{Message}
use bubot_co_ap.Messages.Options.{has_number, add, add_option}
use bubot_co_ap.Messages.Options.Laws.{without}
use bubot_co_ap.Messages.Options.Values.{values_of, add_value, add_values}

-- The options of the number with the values, in their order.
pub options_of : ℕ → List Value → List CoapOption
options_of n [] = []
options_of n (v ∷ vs) = record { number = n; raw = v } ∷ options_of n vs

-- A number that may be repeated, and values that neither the setter nor the getter changes.
pub record AreKept (n : ℕ) (vs : List Value) : Type 0 where
  pub item : OptionItem
  pub known : item_of n ≡ some item
  pub repeatable : item.repeatable ≡ true
  pub are_stored : All (λ v. stored item.value_type v ≡ returns v) vs
  pub are_read : All (λ v. read item v ≡ returns v) vs

AreKept-tail : (n : ℕ) (v : Value) (vs : List Value) → AreKept n (v ∷ vs) → AreKept n vs
AreKept-tail n v vs h = record {
  item = h.item;
  known = h.known;
  repeatable = h.repeatable;
  are_stored = h.are_stored.1;
  are_read = h.are_read.1;
}

add_value-AreKept :
    (n : ℕ) (v : Value) (vs : List Value) (m : Message)
    → AreKept n (v ∷ vs)
    → add_value n v m
      ≡ returns (record m { options = m.options ++ (record { number = n; raw = v } ∷ []) })
unfolding add_value set_value add_option add
add_value-AreKept n v vs m h = rw (h.known, h.are_stored.0, h.known, h.repeatable) refl

-- They are added at the end.
pub add_values-AreKept :
    (n : ℕ) (vs : List Value) (m : Message)
    → AreKept n vs
    → add_values n vs m ≡ returns (record m { options = m.options ++ options_of n vs })
unfolding add_values options_of
add_values-AreKept n [] m h = rw (append-nil m.options) refl
add_values-AreKept n (v ∷ vs) m h =
    let o : CoapOption = record { number = n; raw = v } in
    let m' : Message = record m { options = m.options ++ (o ∷ []) } in
    rw
      (
        add_value-AreKept n v vs m h,
        add_values-AreKept n vs m' (AreKept-tail n v vs h),
        append_assoc m.options (o ∷ []) (options_of n vs),
      )
      refl

pub values_of-options_of :
    (n : ℕ) (vs : List Value) → AreKept n vs → values_of n (options_of n vs) ≡ returns vs
unfolding values_of options_of get_value
values_of-options_of n [] h = refl
values_of-options_of n (v ∷ vs) h =
    let self : (n == n) ≡ true = ground arith in
    rw (self, values_of)
      (rw (h.known, h.are_read.0, values_of-options_of n vs (AreKept-tail n v vs h)) refl)

-- Options of other numbers are not read.
pub values_of-append :
    (n : ℕ) (os ps : List CoapOption)
    → has_number n os ≡ false
    → values_of n (os ++ ps) ≡ values_of n ps
unfolding values_of has_number
values_of-append n [] ps h = refl
values_of-append n (o ∷ os) ps h = ground (arith, values_of-append n os ps)

pub values_of-options_of_other :
    (n k : ℕ) (os : List CoapOption) (vs : List Value)
    → (k == n) ≡ false
    → values_of n (os ++ options_of k vs) ≡ values_of n os
unfolding values_of options_of
values_of-options_of_other n k [] [] h = refl
values_of-options_of_other n k [] (v ∷ vs) h =
    rw (h, values_of) (values_of-options_of_other n k [] vs h)
values_of-options_of_other n k (o ∷ os) vs h =
    ground (arith, values_of-options_of_other n k os vs h)

pub values_of-without :
    (n k : ℕ) (os : List CoapOption)
    → (k == n) ≡ false
    → values_of n (without k os) ≡ values_of n os
unfolding values_of without
values_of-without n k [] h = refl
values_of-without n k (o ∷ os) h = ground (arith, values_of-without n k os h)
