-- ===== src/Prelude/Tests.antt =====
-- Boolean tests on the native numbers, the conditional, and splits that keep their equation.
use Prim.Native.Nat.{ℕ, ◌≤◌, ◌<◌, compare, Ordering}
use mathlib.Core.Path.{◌≡◌, refl, ap}
use mathlib.Core.Logic.{◌↔◌, ◌⊎◌, inl, inr}
use mathlib.Core.Bool.{Bool, true, false}
use mathlib.Core.Option.{Option, none, some}
use native.Mathlib.Omega.{arith}

abbrev pub ltb : ℕ → ℕ → Bool
ltb a b = elim (compare a b) [ Ordering.lt ↦ true | _ ↦ false ]

abbrev pub leb : ℕ → ℕ → Bool
leb a b = elim (compare a b) [ Ordering.gt ↦ false | _ ↦ true ]

infix 50 ◌==◌
abbrev pub ◌==◌ : ℕ → ℕ → Bool
a == b = elim (compare a b) [ Ordering.eq ↦ true | _ ↦ false ]

infix 1 if◌then◌else◌
abbrev pub if◌then◌else◌ {ℓ} : {A : Type ℓ} → Bool → A → A → A
if true then x else y = x
if false then x else y = y

pub ltb→lt : (a b : ℕ) → ltb a b ≡ true → a < b
ltb→lt a b h = ground arith

pub lt→ltb : (a b : ℕ) → a < b → ltb a b ≡ true
lt→ltb a b h = ground arith

pub le→leb : (a b : ℕ) → a ≤ b → leb a b ≡ true
le→leb a b h = ground arith

pub leb→le : (a b : ℕ) → leb a b ≡ true → a ≤ b
leb→le a b h = ground arith

pub ==_iff : (a b : ℕ) → ((a == b) ≡ true) ↔ (a ≡ b)
==_iff a b = ground arith

pub Bool-cases : (b : Bool) → (b ≡ true) ⊎ (b ≡ false)
Bool-cases true = inl refl
Bool-cases false = inr refl

pub Option-cases {ℓ} : {A : Type ℓ} (o : Option A) → (o ≡ none) ⊎ ((a : A) × (o ≡ some a))
Option-cases none = inl refl
Option-cases (some a) = inr (a, refl)

-- A property of both branches.
pub either_branch {ℓ κ} :
    {A : Type ℓ} (P : A → Type κ) (b : Bool) {x y : A} → P x → P y → P (if b then x else y)
either_branch P true p q = p
either_branch P false p q = q

pub either_option {ℓ κ μ} :
    {A : Type ℓ} {B : Type κ} (P : B → Type μ) (o : Option A) (x : B) (f : A → B)
    → P x
    → ((a : A) → o ≡ some a → P (f a))
    → P (elim o [ none ↦ x | some a ↦ f a ])
either_option P none x f p q = p
either_option P (some a) x f p q = q a refl

-- What a guarded lookup finds.
pub guarded-eq_some {ℓ} :
    {A : Type ℓ} (b : Bool) (o : Option A) (a : A) → (if b then o else none) ≡ some a → o ≡ some a
guarded-eq_some true o a e = e
guarded-eq_some false o a e = absurd (cc)

-- A split on an option that is known, where its name stands elsewhere too.
pub elim-eq_some {ℓ κ} :
    {A : Type ℓ} {B : Type κ} (o : Option A) (a : A) (x : B) (f : A → B)
    → o ≡ some a
    → Path B (elim o [ none ↦ x | some b ↦ f b ]) (f a)
elim-eq_some o a x f e = ap (λ p. elim p [ none ↦ x | some b ↦ f b ]) e

pub either_same {ℓ} : {A : Type ℓ} (b : Bool) (x : A) → (if b then x else x) ≡ x
either_same true x = refl
either_same false x = refl

pub elim-eq_none {ℓ κ} :
    {A : Type ℓ} {B : Type κ} (o : Option A) (x : B) (f : A → B)
    → o ≡ none
    → Path B (elim o [ none ↦ x | some b ↦ f b ]) x
elim-eq_none o x f e = ap (λ p. elim p [ none ↦ x | some b ↦ f b ]) e

pub if-eq_false {ℓ} : {A : Type ℓ} (b : Bool) (x y : A) → b ≡ false → (if b then x else y) ≡ y
if-eq_false b x y e = ap (λ c. if c then x else y) e

pub if-eq_true {ℓ} : {A : Type ℓ} (b : Bool) (x y : A) → b ≡ true → (if b then x else y) ≡ x
if-eq_true b x y e = ap (λ c. if c then x else y) e
