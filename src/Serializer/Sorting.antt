-- ===== src/Serializer/Sorting.antt =====
-- as_sorted_list: ascending, and stable; what the deserializers need of it.
use bubot_co_ap.Prelude.{
  ℕ, ◌≤◌, ◌≡◌, refl, ap, ◌∙◌, true, ◌||◌, not, List, [], ◌∷◌, ◌++◌, All, arith, ltb, ◌==◌,
  if◌then◌else◌, inl, inr, Bool-cases, ltb→lt,
}
use bubot_co_ap.Messages.CoapOption.{CoapOption}
use bubot_co_ap.Messages.Options.{has_number}
use bubot_co_ap.Messages.Options.Laws.{has_number-append}
use bubot_co_ap.Serializer.Encode.{insert, as_sorted_list}
use bubot_co_ap.Serializer.Reading.{IsAscending, IsAddable, may_repeat}

insert-IsAscending :
    (last : ℕ) (o : CoapOption) (os : List CoapOption)
    → last ≤ o.number
    → IsAscending last os
    → IsAscending last (insert o os)
unfolding insert
insert-IsAscending last o [] h up = (h, tt)
insert-IsAscending last o (p ∷ ps) h (hp, up) = elim (Bool-cases (ltb p.number o.number)) [
  | inl less ↦
      rw less
        (hp, insert-IsAscending p.number o ps (omega (arith, ltb→lt p.number o.number less)) up)
  | inr more ↦ rw more (h, (ground (arith, more), up))
]

pub as_sorted_list-IsAscending : (os : List CoapOption) → IsAscending 0 (as_sorted_list os)
unfolding as_sorted_list
as_sorted_list-IsAscending [] = tt
as_sorted_list-IsAscending (o ∷ os) =
    insert-IsAscending 0 o (as_sorted_list os) (omega arith) (as_sorted_list-IsAscending os)

-- The options of one number, in their order.
unfoldable pub with_number : ℕ → List CoapOption → List CoapOption
with_number n [] = []
with_number n (o ∷ os) = let rest = with_number n os in if o.number == n then o ∷ rest else rest

with_number-insert :
    (n : ℕ) (o : CoapOption) (os : List CoapOption)
    → with_number n (insert o os) ≡ with_number n (o ∷ os)
unfolding with_number insert
with_number-insert n o [] = refl
with_number-insert n o (p ∷ ps) = ground (arith, with_number-insert n o ps)

with_number-cons :
    (n : ℕ) (o : CoapOption) (os ps : List CoapOption)
    → with_number n os ≡ with_number n ps
    → with_number n (o ∷ os) ≡ with_number n (o ∷ ps)
unfolding with_number
with_number-cons n o os ps e = rw e

with_number-as_sorted_list :
    (n : ℕ) (os : List CoapOption) → with_number n (as_sorted_list os) ≡ with_number n os
unfolding as_sorted_list
with_number-as_sorted_list n [] = refl
with_number-as_sorted_list n (o ∷ os) =
    with_number-insert n o (as_sorted_list os)
    ∙ with_number-cons n o _ os (with_number-as_sorted_list n os)

-- The list that serialize walks is ascending, and the options of any one number are those of the
-- message, in the message's order.
pub as_sorted_list_stable :
    (os : List CoapOption)
    → IsAscending 0 (as_sorted_list os)
      × ((n : ℕ) → with_number n (as_sorted_list os) ≡ with_number n os)
as_sorted_list_stable os = (as_sorted_list-IsAscending os, λ n. with_number-as_sorted_list n os)

insert-All :
    (P : CoapOption → Type 0) (o : CoapOption) (os : List CoapOption)
    → P o
    → All P os
    → All P (insert o os)
unfolding insert
insert-All P o [] h hs = (h, tt)
insert-All P o (p ∷ ps) h (hp, hs) = elim (Bool-cases (ltb p.number o.number)) [
  | inl less ↦ rw less (hp, insert-All P o ps h hs)
  | inr more ↦ rw more (h, (hp, hs))
]

pub as_sorted_list-All :
    (P : CoapOption → Type 0) (os : List CoapOption) → All P os → All P (as_sorted_list os)
unfolding as_sorted_list
as_sorted_list-All P [] h = tt
as_sorted_list-All P (o ∷ os) (h, hs) =
    insert-All P o (as_sorted_list os) h (as_sorted_list-All P os hs)

-- No option that may not be repeated stands twice.
abbrev pub IsUnrepeated : List CoapOption → Type 0
IsUnrepeated [] = Unit {0}
IsUnrepeated (o ∷ os) =
    ((may_repeat o.number || not (has_number o.number os)) ≡ true) × IsUnrepeated os

has_number-insert :
    (n : ℕ) (o : CoapOption) (os : List CoapOption)
    → has_number n (insert o os) ≡ (if n == o.number then true else has_number n os)
unfolding has_number insert
has_number-insert n o [] = refl
has_number-insert n o (p ∷ ps) = ground (arith, has_number-insert n o ps)

has_number-as_sorted_list :
    (n : ℕ) (os : List CoapOption) → has_number n (as_sorted_list os) ≡ has_number n os
unfolding as_sorted_list has_number
has_number-as_sorted_list n [] = refl
has_number-as_sorted_list n (o ∷ os) =
    has_number-insert n o (as_sorted_list os)
    ∙ ap (λ b. if n == o.number then true else b) (has_number-as_sorted_list n os)

other_first :
    (o p : CoapOption) (ps : List CoapOption)
    → ltb p.number o.number ≡ true
    → (may_repeat o.number || not (has_number o.number (p ∷ ps))) ≡ true
    → (may_repeat p.number || not (has_number p.number ps)) ≡ true
    → (may_repeat p.number || not (has_number p.number (insert o ps))) ≡ true
other_first o p ps less ho hp = ground (arith, has_number-insert p.number o ps, hp, less)

fewer :
    (o p : CoapOption) (ps : List CoapOption)
    → (may_repeat o.number || not (has_number o.number (p ∷ ps))) ≡ true
    → (may_repeat o.number || not (has_number o.number ps)) ≡ true
unfolding has_number
fewer o p ps h = ground (arith, h)

insert-IsUnrepeated :
    (o : CoapOption) (os : List CoapOption) → IsUnrepeated (o ∷ os) → IsUnrepeated (insert o os)
unfolding insert
insert-IsUnrepeated o [] h = h
insert-IsUnrepeated o (p ∷ ps) (ho, (hp, hs)) = elim (Bool-cases (ltb p.number o.number)) [
  | inl less ↦
      rw less (other_first o p ps less ho hp, insert-IsUnrepeated o ps (fewer o p ps ho, hs))
  | inr more ↦ rw more (ho, (hp, hs))
]

as_sorted_list-IsUnrepeated :
    (os : List CoapOption) → IsUnrepeated os → IsUnrepeated (as_sorted_list os)
unfolding as_sorted_list
as_sorted_list-IsUnrepeated [] h = tt
as_sorted_list-IsUnrepeated (o ∷ os) (h, hs) =
    insert-IsUnrepeated o (as_sorted_list os)
      (rw (has_number-as_sorted_list o.number os) h, as_sorted_list-IsUnrepeated os hs)

-- Each option may stand behind those before the list.
abbrev IsFree : List CoapOption → CoapOption → Type 0
IsFree prior q = (may_repeat q.number || not (has_number q.number prior)) ≡ true

IsFree-after' :
    (prior : List CoapOption) (o q : CoapOption) (qs : List CoapOption)
    → IsFree (q ∷ qs) o
    → IsFree prior q
    → IsFree (prior ++ (o ∷ [])) q
unfolding has_number
IsFree-after' prior o q qs h hq = ground (arith, h, hq, has_number-append q.number prior (o ∷ []))

-- What follows an option that may not be repeated has other numbers.
IsFree-after :
    (prior : List CoapOption) (o : CoapOption) (os : List CoapOption)
    → IsFree os o
    → All (IsFree prior) os
    → All (IsFree (prior ++ (o ∷ []))) os
IsFree-after prior o [] h hs = tt
IsFree-after prior o (q ∷ qs) h (hq, hs) =
    (IsFree-after' prior o q qs h hq, IsFree-after prior o qs (fewer o q qs h) hs)

IsAddable-after :
    (prior os : List CoapOption) → IsUnrepeated os → All (IsFree prior) os → IsAddable prior os
IsAddable-after prior [] h free = tt
IsAddable-after prior (o ∷ os) (h, hs) (free, frees) =
    (free, IsAddable-after (prior ++ (o ∷ [])) os hs (IsFree-after prior o os h frees))

IsFree-of_none : (os : List CoapOption) → All (IsFree []) os
unfolding has_number
IsFree-of_none [] = tt
IsFree-of_none (o ∷ os) = (ground arith, IsFree-of_none os)

pub as_sorted_list-IsAddable :
    (os : List CoapOption) → IsUnrepeated os → IsAddable [] (as_sorted_list os)
as_sorted_list-IsAddable os h =
    IsAddable-after [] (as_sorted_list os) (as_sorted_list-IsUnrepeated os h) (IsFree-of_none _)
