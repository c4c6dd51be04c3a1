-- ===== src/Messages/Options/Values/Ends.antt =====
-- The getters and setters of options return or raise.
use bubot_co_ap.Prelude.{ℕ, ◌≡◌, refl, true, false, List, [], ◌∷◌, ◌==◌, ltb, either_branch}
use bubot_co_ap.Outcome.{
  returns, any_exception, Finishes, or_raise-Finishes, Finishes-bind, key_error, Any, ◌>>=◌,
  or_raise, Ends, value_error, unicode_encode_error,
}
use bubot_co_ap.Text.{utf8_encode}
use bubot_co_ap.Defines.{OptionItem, ValueType, integer, string, opaque, unknown, item_of}
use bubot_co_ap.Messages.Value
use bubot_co_ap.Messages.Value.{Value, absent, int, str, bytes, to_int, encode, parse_digits}
use bubot_co_ap.Messages.CoapOption.{CoapOption, read, stored, get_value, set_value}
use bubot_co_ap.Messages.Message.{Message}
use bubot_co_ap.Messages.Options.{add, add_option, has_number}
use bubot_co_ap.Messages.Options.Values.{values_of, add_value}

byte_len-Finishes : (v : Value) → Finishes (Value.byte_len v)
unfolding Value.byte_len any_exception
byte_len-Finishes absent = tt
byte_len-Finishes (int n) = tt
byte_len-Finishes (str []) = tt
byte_len-Finishes (str (c ∷ s)) = refl
byte_len-Finishes (bytes []) = tt
byte_len-Finishes (bytes (b ∷ bs)) = refl

pub to_int-Finishes : (v : Value) → Finishes (to_int v)
unfolding to_int any_exception
to_int-Finishes absent = refl
to_int-Finishes (int n) = tt
to_int-Finishes (str []) = refl
to_int-Finishes (str (c ∷ s)) = or_raise-Finishes (parse_digits 0 (c ∷ s)) value_error
to_int-Finishes (bytes []) = refl
to_int-Finishes (bytes (b ∷ bs)) = or_raise-Finishes (parse_digits 0 (b ∷ bs)) value_error

pub encode-Finishes : (v : Value) → Finishes (encode v)
unfolding encode any_exception
encode-Finishes absent = refl
encode-Finishes (int n) = refl
encode-Finishes (str s) = or_raise-Finishes (utf8_encode s) unicode_encode_error
encode-Finishes (bytes b) = refl

read_typed :
    (typ : ValueType) (item : OptionItem) (raw : Value)
    → typ ≡ item.value_type
    → Finishes (read item raw)
unfolding read
read_typed integer item raw e =
    rw (← e, read)
      (Finishes-bind Any (Value.byte_len raw) _ (byte_len-Finishes raw) (λ k.
        either_branch Finishes (ltb 0 k)
          (Finishes-bind Any (to_int raw) _ (to_int-Finishes raw) (λ n. tt)) tt))
read_typed string item raw e = rw (← e, read) tt
read_typed opaque item raw e = rw (← e, read) tt
read_typed unknown item raw e = rw (← e, read) tt

pub get_value-Finishes : (o : CoapOption) → Finishes (get_value o)
unfolding get_value
get_value-Finishes o =
    Finishes-bind Any (or_raise (item_of o.number) key_error) _
      (or_raise-Finishes (item_of o.number) key_error)
      (λ item. read_typed item.value_type item o.raw refl)

stored-Finishes : (typ : ValueType) (v : Value) → Finishes (stored typ v)
unfolding stored any_exception
stored-Finishes integer v = Finishes-bind Any (to_int v) _ (to_int-Finishes v) (λ n. tt)
stored-Finishes string absent = tt
stored-Finishes string (int n) = tt
stored-Finishes string (str s) = tt
stored-Finishes string (bytes b) = tt
stored-Finishes opaque absent = tt
stored-Finishes opaque (bytes b) = tt
stored-Finishes opaque (int n) = refl
stored-Finishes opaque (str s) =
    Finishes-bind Any (encode (str s)) _ (encode-Finishes (str s)) (λ b. tt)
stored-Finishes unknown v = tt

set_value-Finishes : (n : ℕ) (v : Value) → Finishes (set_value n v)
unfolding set_value
set_value-Finishes n v =
    Finishes-bind Any (or_raise (item_of n) key_error) _ (or_raise-Finishes (item_of n) key_error)
      (λ item.
        Finishes-bind Any (stored item.value_type v) _ (stored-Finishes item.value_type v)
          (λ raw. tt))

add-Finishes : (os : List CoapOption) (o : CoapOption) → Finishes (add os o)
unfolding add any_exception
add-Finishes os o =
    Finishes-bind Any (or_raise (item_of o.number) key_error) _
      (or_raise-Finishes (item_of o.number) key_error)
      (λ item.
        either_branch Finishes item.repeatable tt
          (either_branch Finishes (has_number o.number os) refl tt))

-- What does not depend on the options holds after an option is added, if nothing is raised.
module _ (P : Message → Type 0)
    (kept : (m : Message) (os : List CoapOption) → P m → P (record m { options = os })) where
  pub add_value-keeps :
      (n : ℕ) (v : Value) (m : Message) → P m → Ends any_exception P (add_value n v m)
  unfolding add_value add_option
  add_value-keeps n v m h =
      Finishes-bind P (set_value n v) _ (set_value-Finishes n v)
        (λ o. Finishes-bind P (add m.options o) _ (add-Finishes m.options o) (λ os. kept m os h))

pub values_of-Finishes : (n : ℕ) (os : List CoapOption) → Finishes (values_of n os)
unfolding values_of
values_of-Finishes n [] = tt
values_of-Finishes n (o ∷ os) =
    elim (o.number == n)
      as (λ b. Finishes (elim b [
        | true ↦ do v ← get_value o; rest ← values_of n os; returns (v ∷ rest)
        | false ↦ values_of n os
      ])) [
        | true ↦
            Finishes-bind Any (get_value o) _ (get_value-Finishes o)
              (λ v. Finishes-bind Any (values_of n os) _ (values_of-Finishes n os) (λ rest. tt))
        | false ↦ values_of-Finishes n os
      ]
