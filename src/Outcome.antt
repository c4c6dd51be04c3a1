-- ===== src/Outcome.antt =====
-- What a call of a Python function ends in: a value, or an exception that it raises.
-- `stuck` is no end of the program: a loop of the model ran out of fuel.
use bubot_co_ap.Prelude.{◌≡◌, refl, Bool, true, false, Option, none, some}

pub data Exception : Type 0 where
  attribute_error struct_error unicode_decode_error unicode_encode_error : Exception
  type_error index_error key_error value_error overflow_error assertion_error : Exception
  -- asyncio's, and the ExtException that wraps another
  timeout_error invalid_state_error ext_exception not_implemented_error : Exception

pub data Outcome {ℓ} (A : Type ℓ) : Type ℓ where
  returns : A → Outcome A
  raises : Exception → Outcome A
  stuck : Outcome A

infixl 5 ◌>>=◌ ◌>>◌
abbrev pub ◌>>=◌ {ℓ κ} : {A : Type ℓ} {B : Type κ} → Outcome A → (A → Outcome B) → Outcome B
returns a >>= f = f a
raises e >>= f = raises e
stuck >>= f = stuck

abbrev pub ◌>>◌ {ℓ} : {B : Type ℓ} → Outcome (Unit {0}) → Outcome B → Outcome B
m >> k = m >>= λ _. k

-- A lookup that raises where there is nothing.
abbrev pub or_raise {ℓ} : {A : Type ℓ} → Option A → Exception → Outcome A
or_raise none e = raises e
or_raise (some a) e = returns a

-- `if bad: raise e`
abbrev pub raise_if : Bool → Exception → Outcome (Unit {0})
raise_if true e = raises e
raise_if false e = returns tt

-- Inversion of a bind that returns.
pub >>=-eq-returns {ℓ κ} :
    {A : Type ℓ} {B : Type κ} (m : Outcome A) (f : A → Outcome B) {b : B}
    → (m >>= f) ≡ returns b
    → (a : A) × (m ≡ returns a) × (f a ≡ returns b)
>>=-eq-returns (returns a) f h = (a, refl, h)
>>=-eq-returns (raises e) f h = cc
>>=-eq-returns stuck f h = cc

-- The outcome is a value with the property, or an exception of the class.
abbrev pub Ends {ℓ} : {A : Type ℓ} → (Exception → Bool) → (A → Type 0) → Outcome A → Type 0
Ends ok P (returns a) = P a
Ends ok P (raises e) = ok e ≡ true
Ends ok P stuck = ⊥

pub Ends-bind {ℓ κ} :
    {A : Type ℓ} {B : Type κ} (ok : Exception → Bool) (P : A → Type 0) (Q : B → Type 0)
    (m : Outcome A) (f : A → Outcome B)
    → Ends ok P m
    → ((a : A) → P a → Ends ok Q (f a))
    → Ends ok Q (m >>= f)
Ends-bind ok P Q (returns a) f h k = k a h
Ends-bind ok P Q (raises e) f h k = h
Ends-bind ok P Q stuck f h k = h

-- Exceptions of every class.
unfoldable pub any_exception : Exception → Bool
any_exception e = true

abbrev pub Any {ℓ} : {A : Type ℓ} → A → Type 0
Any a = Unit {0}

pub or_raise-Ends {ℓ} :
    {A : Type ℓ} (ok : Exception → Bool) (P : A → Type 0) (o : Option A) (e : Exception)
    → ok e ≡ true
    → ((a : A) → o ≡ some a → P a)
    → Ends ok P (or_raise o e)
or_raise-Ends ok P none e h f = h
or_raise-Ends ok P (some a) e h f = f a refl

pub raise_if-Ends :
    (ok : Exception → Bool) (b : Bool) (e : Exception) → ok e ≡ true → Ends ok Any (raise_if b e)
raise_if-Ends ok true e h = h
raise_if-Ends ok false e h = tt

pub Ends-mono {ℓ} :
    {A : Type ℓ} (ok : Exception → Bool) (P Q : A → Type 0) (m : Outcome A)
    → Ends ok P m
    → ((a : A) → P a → Q a)
    → Ends ok Q m
Ends-mono ok P Q (returns a) h f = f a h
Ends-mono ok P Q (raises e) h f = h
Ends-mono ok P Q stuck h f = h

-- What returns or raises: it is not stuck.
abbrev pub Finishes {ℓ} : {A : Type ℓ} → Outcome A → Type 0
Finishes m = Ends any_exception Any m

pub or_raise-Finishes {ℓ} : {A : Type ℓ} (o : Option A) (e : Exception) → Finishes (or_raise o e)
unfolding any_exception
or_raise-Finishes none e = refl
or_raise-Finishes (some a) e = tt

pub Finishes-bind {ℓ κ} :
    {A : Type ℓ} {B : Type κ} (Q : B → Type 0) (m : Outcome A) (f : A → Outcome B)
    → Finishes m
    → ((a : A) → Ends any_exception Q (f a))
    → Ends any_exception Q (m >>= f)
Finishes-bind Q m f h k = Ends-bind any_exception Any Q m f h (λ a _. k a)
