-- ===== src/Serializer/Ends.antt =====
-- How a call of the deserializers ends: a predicate on outcomes, and its rules for chains of calls.
use bubot_co_ap.Prelude.{◌≡◌, refl, Bool, true, false}
use bubot_co_ap.Outcome.{
  Exception, Outcome, unicode_encode_error, key_error, value_error, overflow_error, assertion_error,
  timeout_error, invalid_state_error, ext_exception, not_implemented_error, returns, raises, stuck,
  attribute_error, struct_error, unicode_decode_error, type_error, index_error, ◌>>=◌,
}
pub use bubot_co_ap.Outcome.{Any, Ends, Ends-bind}
use bubot_co_ap.Messages.Message.{Message}
use bubot_co_ap.Serializer.Decode.{catch_malformed, Parsed, parsed, failed}

-- A value that is converted, stored and wrapped on its way to the continuation.
pub Ends-bind_through {ℓ} :
    {A B C D : Type ℓ} (ok : Exception → Bool) (P : B → Type 0) (Q : D → Type 0) (m : Outcome A)
    (g : A → Outcome B) (h : B → C) (s : A → Outcome C) (k : C → Outcome D)
    → ((a : A) → s a ≡ (g a >>= λ b. returns (h b)))
    → Ends ok P (m >>= g)
    → ((b : B) → P b → Ends ok Q (k (h b)))
    → Ends ok Q (m >>= λ a. s a >>= k)
Ends-bind_through {A} {B} {C} {D} ok P Q (returns a) g h s k same e f = rw (same a) (go (g a) e)
  where
    go : (x : Outcome B) → Ends ok P x → Ends ok Q (x >>= (λ b. returns (h b)) >>= k)
    go (returns b) e = f b e
    go (raises e') e = e
    go stuck e = e
Ends-bind_through ok P Q (raises e') g h s k same e f = e
Ends-bind_through ok P Q stuck g h s k same e f = e

-- The exceptions that a datagram can cause.
unfoldable pub is_caused : Exception → Bool
is_caused attribute_error = true
is_caused struct_error = true
is_caused unicode_decode_error = true
is_caused index_error = true
is_caused type_error = true
is_caused _ = false

-- The exceptions that no `except` clause of deserialize names.
unfoldable pub leaves : Exception → Bool
leaves index_error = true
leaves type_error = true
leaves _ = false

-- A message, or the number of BAD_REQUEST.
abbrev pub IsAnswer : Parsed → Type 0
IsAnswer (parsed m) = Unit {0}
IsAnswer (failed code) = code ≡ 128

pub catch_malformed-Ends :
    (o : Outcome Message) → Ends is_caused Any o → Ends leaves IsAnswer (catch_malformed o)
unfolding catch_malformed is_caused leaves
catch_malformed-Ends (returns m) h = tt
catch_malformed-Ends (raises attribute_error) h = refl
catch_malformed-Ends (raises struct_error) h = refl
catch_malformed-Ends (raises unicode_decode_error) h = refl
catch_malformed-Ends (raises index_error) h = refl
catch_malformed-Ends (raises type_error) h = refl
catch_malformed-Ends (raises unicode_encode_error) h = absurd (cc)
catch_malformed-Ends (raises key_error) h = absurd (cc)
catch_malformed-Ends (raises value_error) h = absurd (cc)
catch_malformed-Ends (raises overflow_error) h = absurd (cc)
catch_malformed-Ends (raises assertion_error) h = absurd (cc)
catch_malformed-Ends (raises timeout_error) h = absurd (cc)
catch_malformed-Ends (raises invalid_state_error) h = absurd (cc)
catch_malformed-Ends (raises ext_exception) h = absurd (cc)
catch_malformed-Ends (raises not_implemented_error) h = absurd (cc)
catch_malformed-Ends stuck h = absurd h
