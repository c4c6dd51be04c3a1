-- ===== src/Text/Parts.antt =====
-- Python's s.strip(c), s.split(c) and c.join(parts), for one character c, and the tests of a part.
use bubot_co_ap.Prelude.{
  ℕ, ◌≡◌, refl, sym, ap, ◌∙◌, Bool, true, false, Option, none, some, ◌&&◌, ◌||◌, List, [], ◌∷◌,
  ◌++◌, ◌==◌, if◌then◌else◌, Bool-cases, inl, inr, ==_iff,
}
use bubot_co_ap.Text.{Text}

-- s.startswith(t)
unfoldable pub starts_with : Text → Text → Bool
starts_with s [] = true
starts_with [] (c ∷ t) = false
starts_with (a ∷ s) (c ∷ t) = a == c && starts_with s t

-- `t in s`
unfoldable pub contains : Text → Text → Bool
unfolding starts_with
contains [] t = starts_with [] t
contains (a ∷ s) t = starts_with (a ∷ s) t || contains s t

drop_front : ℕ → Text → Text
drop_front sep [] = []
drop_front sep (c ∷ s) = let rest = drop_front sep s in if c == sep then rest else c ∷ s

drop_end : ℕ → Text → Text
drop_end sep [] = []
drop_end sep (c ∷ s) =
    let rest = drop_end sep s in
    elim rest [ [] ↦ if c == sep then [] else c ∷ [] | a ∷ r ↦ c ∷ a ∷ r ]

-- s.strip(sep)
unfoldable pub strip : ℕ → Text → Text
unfolding drop_front drop_end
strip sep s = drop_end sep (drop_front sep s)

-- The first part of a text, onto what is there.
onto_first : ℕ → List Text → List Text
onto_first c [] = (c ∷ []) ∷ []
onto_first c (p ∷ ps) = (c ∷ p) ∷ ps

-- s.split(sep)
unfoldable pub split : ℕ → Text → List Text
unfolding onto_first
split sep [] = [] ∷ []
split sep (c ∷ s) = let rest = split sep s in if c == sep then [] ∷ rest else onto_first c rest

-- sep.join(parts)
unfoldable pub join : ℕ → List Text → Text
join sep [] = []
join sep (s ∷ []) = s
join sep (s ∷ t ∷ ts) = s ++ (sep ∷ join sep (t ∷ ts))

-- There is a first part.
pub split-cons : (sep : ℕ) (s : Text) → (p : Text) × (ps : List Text) × (split sep s ≡ p ∷ ps)
unfolding split
split-cons sep [] = ([], [], refl)
split-cons sep (c ∷ s) = elim (Bool-cases (c == sep)) [
  | inl e ↦ ([], split sep s, rw e refl)
  | inr e ↦ let (p, ps, f) = split-cons sep s in (c ∷ p, ps, rw (e, f) (unfold onto_first in refl))
]

join-onto_first :
    (sep c : ℕ) (p : Text) (ps : List Text) → join sep ((c ∷ p) ∷ ps) ≡ c ∷ join sep (p ∷ ps)
unfolding join
join-onto_first sep c p [] = refl
join-onto_first sep c p (q ∷ ps) = refl

join-cons_nil :
    (sep : ℕ) (p : Text) (ps : List Text) → join sep ([] ∷ p ∷ ps) ≡ sep ∷ join sep (p ∷ ps)
unfolding join
join-cons_nil sep p ps = refl

-- Joining what split made gives the text back.
pub join-split : (sep : ℕ) (s : Text) → join sep (split sep s) ≡ s
unfolding split onto_first
join-split sep [] = unfold join in refl
join-split sep (c ∷ s) =
    let (p, ps, f) = split-cons sep s in
    let again : join sep (p ∷ ps) ≡ s = ap (join sep) (sym f) ∙ join-split sep s in
    elim (Bool-cases (c == sep)) [
      | inl hit ↦ rw (hit, f, join-cons_nil, again, (==_iff c sep).0 hit) refl
      | inr miss ↦ rw (miss, f, join-onto_first, again) refl
    ]

-- What stands before the first separator, and what stands behind it.
unfoldable pub before : ℕ → Text → Text
before sep [] = []
before sep (c ∷ s) = let rest = before sep s in if c == sep then [] else c ∷ rest

unfoldable pub behind : ℕ → Text → Option Text
behind sep [] = none
behind sep (c ∷ s) = let rest = behind sep s in if c == sep then some s else rest

-- The further parts.
abbrev pub further : ℕ → Option Text → List Text
further sep rest = elim rest [ none ↦ [] | some r ↦ split sep r ]

pub split-before : (sep : ℕ) (s : Text) → split sep s ≡ before sep s ∷ further sep (behind sep s)
unfolding split before behind onto_first
split-before sep [] = refl
split-before sep (c ∷ s) = elim (Bool-cases (c == sep)) [
  | inl hit ↦ rw hit refl
  | inr miss ↦ rw (miss, split-before sep s) refl
]
