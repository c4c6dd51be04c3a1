-- ===== src/Layers/ResourceLayer/Parents.antt =====
-- resource_layer.py, create_resource: the parent of a new resource.
use bubot_co_ap.Prelude.{
  ℕ, ◌≤◌, ◌<◌, ◌≡◌, ◌≢◌, refl, sym, ◌∙◌, ◌⊎◌, inl, inr, true, false, Option, none, some, List, [],
  ◌∷◌, length, ltb, All, arith, if◌then◌else◌, Bool-cases, ◌==◌,
}
use bubot_co_ap.Text.{Text}
use bubot_co_ap.Text.Parts.{starts_with}
use bubot_co_ap.Layers.Table
use bubot_co_ap.Layers.Table.{Key, octets, int, nothing, same_key, same_key_iff, same_key_self}
use bubot_co_ap.Outcome.{Outcome, returns, raises, key_error}
use bubot_co_ap.Transaction.{Transaction}
use bubot_co_ap.Defines.Codes
use bubot_co_ap.Server.Directory.{Directory, Tree, lookup}
use bubot_co_ap.Layers.ResourceLayer.{Parent, Handlers, answer_with}
use bubot_co_ap.Server.Directory.Prefixes.{paths, prefixes, with_prefix}
use bubot_co_ap.Layers.ResourceLayer.Post.{
  longest, is_same, add_resource, create_resource, edit_resource,
}

-- p stands in the list.
abbrev pub Listed : Text → List Text → Type 0
Listed p [] = ⊥
Listed p (q ∷ qs) = (p ≡ q) ⊎ Listed p qs

All-Listed : (P : Text → Type 0) (ps : List Text) → ((p : Text) → Listed p ps → P p) → All P ps
All-Listed P [] h = tt
All-Listed P (p ∷ ps) h = (h p (inl refl), All-Listed P ps (λ q l. h q (inr l)))

Listed-All : (P : Text → Type 0) (ps : List Text) (p : Text) → All P ps → Listed p ps → P p
Listed-All P [] p h l = elim l [ ]
Listed-All P (q ∷ qs) p (h, hs) (inl e) = rw e h
Listed-All P (q ∷ qs) p (h, hs) (inr l) = Listed-All P qs p hs l

-- What the loop has found: what it began with, or a longer path of the list.
data Found (ps : List Text) (best : Option Text) (size : ℕ) : Option Text → Type 0 where
  kept : All (λ q. length q ≤ size) ps → Found ps best size best
  found :
      (p : Text)
      → Listed p ps
      → size < length p
      → All (λ q. length q ≤ length p) ps
      → Found ps best size (some p)

longest-cons :
    (path p : Text) (ps : List Text) (best : Option Text) (size : ℕ)
    → is_same p path ≡ false
    → longest path (p ∷ ps) best size ≡ (
        if ltb size (length p)
        then longest path ps (some p) (length p)
        else longest path ps best size)
unfolding longest
longest-cons path p ps best size h = elim (Bool-cases (ltb size (length p))) [
  | inl longer ↦ rw (h, longer) refl
  | inr shorter ↦ rw (h, shorter) refl
]

Found-longer :
    (p : Text) (ps : List Text) (best b : Option Text) (size : ℕ)
    → size < length p
    → Found ps (some p) (length p) b
    → Found (p ∷ ps) best size b
Found-longer p ps best b size h (kept all) = found p (inl refl) h (omega arith, all)
Found-longer p ps best b size h (found q l longer all) =
    found q (inr l) (omega arith) (omega arith, all)

Found-shorter :
    (p : Text) (ps : List Text) (best b : Option Text) (size : ℕ)
    → length p ≤ size
    → Found ps best size b
    → Found (p ∷ ps) best size b
Found-shorter p ps best b size h (kept all) = kept (h, all)
Found-shorter p ps best b size h (found q l longer all) = found q (inr l) longer (omega arith, all)

longest-Found :
    (path : Text) (ps : List Text) (best : Option Text) (size : ℕ)
    → All (λ p. is_same p path ≡ false) ps
    → (b : Option Text) × (longest path ps best size ≡ (false, b)) × Found ps best size b
longest-Found path [] best size h = (best, unfold longest in refl, kept tt)
longest-Found path (p ∷ ps) best size (other, others) = elim (Bool-cases (ltb size (length p))) [
  | inl longer ↦
      let (b, e, f) = longest-Found path ps (some p) (length p) others in
      (
        b,
        rw (longest-cons path p ps best size other, longer) e,
        Found-longer p ps best b size (ground arith) f,
      )
  | inr shorter ↦
      let (b, e, f) = longest-Found path ps best size others in
      (
        b,
        rw (longest-cons path p ps best size other, shorter) e,
        Found-shorter p ps best b size (ground arith) f,
      )
]

octets-eq : (s t : Text) → octets s ≡ octets t → s ≡ t
octets-eq s t e = cc

-- The paths of a tree are those it has a resource for.
paths-get :
    (tree : Tree) (p : Text) (x : ℕ) → Table.get tree (octets p) ≡ some x → Listed p (paths tree)
unfolding Table.get paths same_key
paths-get [] p x e = absurd (cc)
paths-get ((octets q, y) ∷ tree) p x e = elim (Bool-cases (same_key (octets q) (octets p))) [
  | inl same ↦ inl (sym (octets-eq q p ((same_key_iff (octets q) (octets p)).0 same)))
  | inr other ↦ inr (paths-get tree p x (rw other at e))
]
paths-get ((int n, y) ∷ tree) p x e = paths-get tree p x e
paths-get ((nothing, y) ∷ tree) p x e = paths-get tree p x e

get-paths :
    (tree : Tree) (p : Text)
    → Listed p (paths tree)
    → (x : ℕ) × (Table.get tree (octets p) ≡ some x)
unfolding Table.get paths same_key
get-paths [] p l = elim l [ ]
get-paths ((octets q, y) ∷ tree) p (inl e) = (y, rw (e, same_key_self (octets q)) refl)
get-paths ((octets q, y) ∷ tree) p (inr l) = elim (Bool-cases (same_key (octets q) (octets p))) [
  | inl same ↦ (y, rw same refl)
  | inr other ↦ let (x, e) = get-paths tree p l in (x, rw other e)
]
get-paths ((int n, y) ∷ tree) p l = get-paths tree p l
get-paths ((nothing, y) ∷ tree) p l = get-paths tree p l

prefixes-Listed :
    (path q : Text) (ps : List Text)
    → Listed q ps
    → starts_with path q ≡ true
    → Listed q (prefixes path ps)
unfolding prefixes
prefixes-Listed path q [] l h = l
prefixes-Listed path q (p ∷ ps) (inl e) h = rw (← e, h) (inl refl)
prefixes-Listed path q (p ∷ ps) (inr l) h = elim (Bool-cases (starts_with path p)) [
  | inl front ↦ rw front (inr (prefixes-Listed path q ps l h))
  | inr away ↦ rw away (prefixes-Listed path q ps l h)
]

first_or_later :
    (path q p : Text) (ps : List Text)
    → starts_with path p ≡ true
    → (q ≡ p) ⊎ Listed q (prefixes path ps)
    → (Listed q (prefixes path ps) → (starts_with path q ≡ true) × Listed q ps)
    → (starts_with path q ≡ true) × Listed q (p ∷ ps)
first_or_later path q p ps front (inl e) later = (rw e front, inl e)
first_or_later path q p ps front (inr l) later = let (h, m) = later l in (h, inr m)

Listed-prefixes :
    (path q : Text) (ps : List Text)
    → Listed q (prefixes path ps)
    → (starts_with path q ≡ true) × Listed q ps
unfolding prefixes
Listed-prefixes path q [] l = elim l [ ]
Listed-prefixes path q (p ∷ ps) l = elim (Bool-cases (starts_with path p)) [
  | inl front ↦ first_or_later path q p ps front (rw front at l) (Listed-prefixes path q ps)
  | inr away ↦ let (h, m) = Listed-prefixes path q ps (rw away at l) in (h, inr m)
]

not-same : (p path : Text) → p ≢ path → is_same p path ≡ false
not-same p path h = elim (Bool-cases (is_same p path)) [
  | inl same ↦ absurd (h (octets-eq p path ((same_key_iff (octets p) (octets path)).0 same)))
  | inr other ↦ other
]

none-ne-some : (x : ℕ) → some x ≢ none
none-ne-some x e = cc

-- Where the list has a path that is not empty, one is found.
Found-some :
    (q : Text) (ps : List Text) (b : Option Text)
    → 0 < length q
    → Listed q ps
    → Found ps none 0 b
    → (p : Text) × (b ≡ some p) × Listed p ps × All (λ r. length r ≤ length p) ps
Found-some q ps b h l (kept all) =
    let short : length q ≤ 0 = Listed-All (λ r. length r ≤ 0) ps q all l in absurd (omega arith)
Found-some q ps b h l (found p l' longer all) = (p, refl, l', all)

-- Of a path without a resource, where some path of the tree that is not empty stands in front of it: the
-- loop of create_resource does not find the path itself, and finds a path of the tree that the path starts
-- with and that no other such path is longer than.
longest-prefixes :
    (tree : Tree) (path q : Text) (x : ℕ)
    → Table.get tree (octets path) ≡ none
    → Table.get tree (octets q) ≡ some x
    → starts_with path q ≡ true
    → 0 < length q
    → (p : Text) × (longest path (prefixes path (paths tree)) none 0 ≡ (false, some p))
      × ((parent : ℕ) × (Table.get tree (octets p) ≡ some parent))
      × (starts_with path p ≡ true)
      × ((r : Text) (y : ℕ)
          → Table.get tree (octets r) ≡ some y
          → starts_with path r ≡ true
          → length r ≤ length p)
longest-prefixes tree path q x fresh there front some_long =
    let ps = prefixes path (paths tree) in
    let others : All (λ p. is_same p path ≡ false) ps =
      All-Listed (λ p. is_same p path ≡ false) ps
        (λ p l.
          let (parent, e) = get-paths tree p (Listed-prefixes path p (paths tree) l).1 in
          not-same p path (λ same. none-ne-some parent (sym (rw same at e) ∙ fresh))) in
    let (b, e, f) = longest-Found path ps none 0 others in
    let here : Listed q ps = prefixes-Listed path q (paths tree) (paths-get tree q x there) front in
    let (p, is_p, l, all) = Found-some q ps b some_long here f in
    let (h, m) = Listed-prefixes path p (paths tree) l in
    (
      p,
      rw (← is_p) e,
      get-paths tree p m,
      h,
      λ r y there' front'.
          Listed-All (λ s. length s ≤ length p) ps r all
            (prefixes-Listed path r (paths tree) (paths-get tree r y there') front'),
    )

-- Where the list has a path, Tree.with_prefix returns.
returned :
    (q : Text) (ps : List Text)
    → Listed q ps
    → Path
        (Outcome (List Text))
        (elim ps [ [] ↦ raises key_error | p ∷ ps' ↦ returns (p ∷ ps') ])
        (returns ps)
returned q [] l = elim l [ ]
returned q (p ∷ ps) l = refl

starts_with_self : (s : Text) → starts_with s s ≡ true
unfolding starts_with
starts_with_self [] = refl
starts_with_self (c ∷ s) =
    let same : (c == c) ≡ true = ground arith in rw (same, starts_with_self s) refl

longest-present :
    (path : Text) (ps : List Text) (best : Option Text) (size : ℕ)
    → Listed path ps
    → (b : Option Text) × (longest path ps best size ≡ (true, b))
unfolding longest
longest-present path [] best size l = elim l [ ]
longest-present path (p ∷ ps) best size l = elim (Bool-cases (is_same p path)) [
  | inl same ↦ (best, rw same refl)
  | inr other ↦ elim l [
    | inl e ↦ (best, rw (← e, same_key_self (octets path)) refl)
    | inr l' ↦
        let (b, e) =
          longest-present path ps (if ltb size (length p) then some p else best)
            (if ltb size (length p) then length p else size) l' in
        (b, rw (other, e) refl)
  ]
]

-- A POST for a path that has a resource goes to edit_resource.
pub create_resource_present :
    (send_ack : Parent) (handlers : Handlers) (path : Text) (directory : Directory)
    (t : Transaction) (r : ℕ)
    → lookup directory path ≡ some r
    → create_resource send_ack handlers path directory t
      ≡ edit_resource send_ack handlers path directory t
unfolding create_resource with_prefix lookup
create_resource_present send_ack handlers path directory t r there =
    let tree = directory.root in
    let here =
      prefixes-Listed path path (paths tree) (paths-get tree path r there)
        (starts_with_self path) in
    let (b, e) = longest-present path (prefixes path (paths tree)) none 0 here in
    rw (returned path (prefixes path (paths tree)) here, e) refl

-- A POST for a path without a resource, where some path of the tree that is not empty stands in front of
-- it: create_resource passes it to the resource of a path that the path starts with, and no such path of
-- the tree is longer; it answers METHOD_NOT_ALLOWED where that resource allows no children.
pub create_resource_parent :
    (send_ack : Parent) (handlers : Handlers) (path : Text) (directory : Directory)
    (t : Transaction) (q : Text) (x : ℕ)
    → lookup directory path ≡ none
    → lookup directory q ≡ some x
    → starts_with path q ≡ true
    → 0 < length q
    → (p : Text) × (parent : ℕ) × (create_resource send_ack handlers path directory t ≡ (
        if (directory.resource parent).allow_children
        then add_resource send_ack handlers parent path directory t
        else answer_with Codes.method_not_allowed directory t))
      × (lookup directory p ≡ some parent)
      × (starts_with path p ≡ true)
      × ((r : Text) (y : ℕ)
          → lookup directory r ≡ some y
          → starts_with path r ≡ true
          → length r ≤ length p)
unfolding create_resource with_prefix lookup
create_resource_parent send_ack handlers path directory t q x fresh there front some_long =
    let tree = directory.root in
    let here = prefixes-Listed path q (paths tree) (paths-get tree q x there) front in
    let (p, e, (parent, f), g, most) = longest-prefixes tree path q x fresh there front some_long in
    (p, parent, rw (returned q (prefixes path (paths tree)) here, e, f) refl, f, g, most)
