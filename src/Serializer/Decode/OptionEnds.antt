-- ===== src/Serializer/Decode/OptionEnds.antt =====
-- serializer.py: how reading one option ends.
use bubot_co_ap.Prelude.{
  ℕ, zero, suc, ◌≡◌, refl, Bool, true, false, Option, none, some, List, take, arith, ltb, ◌==◌, inl,
  inr, Bool-cases, Option-cases, ==_iff,
}
use bubot_co_ap.Outcome.{returns, raises, attribute_error, unicode_decode_error, ◌>>=◌, or_raise}
use bubot_co_ap.Text.{utf8_decode}
use bubot_co_ap.Defines.{
  ByteOrder, OptionItem, ValueType, integer, string, opaque, unknown, item_of, get_option_flags,
}
use bubot_co_ap.Messages.Value.{Value, absent, int, str, bytes}
use bubot_co_ap.Messages.CoapOption.{CoapOption, stored, set_value, read, get_value}
use bubot_co_ap.Messages.Message.{Message}
use bubot_co_ap.Messages.Options.{add, add_option, has_number}
use bubot_co_ap.Messages.Accessors.{content_type_number}
use bubot_co_ap.Utils
use bubot_co_ap.Defines.Facts.{content_type-integer}
use bubot_co_ap.Serializer.Words.{int_of_bytes}
use bubot_co_ap.Serializer.Decode.{read_value, convert_to_raw, note_content_type, read_option}
use bubot_co_ap.Serializer.Ends.{Ends, Ends-bind, Ends-bind_through, is_caused, Any}

-- What is stored has the registry's type; an int where it says integer.
abbrev HasType : ValueType → Value → Type 0
HasType integer (int n) = Unit {0}
HasType integer _ = ⊥
HasType _ _ = Unit {0}

decode-Ends : (o : Option (List ℕ)) → Ends is_caused Any (or_raise o unicode_decode_error)
unfolding is_caused
decode-Ends none = refl
decode-Ends (some s) = tt

stored-Ends :
    (t : ValueType) (len : ℕ) (bs : List ℕ)
    → Ends is_caused (HasType t) (convert_to_raw t (read_value t len bs) len >>= stored t)
unfolding convert_to_raw read_value stored is_caused
stored-Ends integer zero bs = tt
stored-Ends string zero bs = tt
stored-Ends opaque zero bs = tt
stored-Ends unknown zero bs = tt
stored-Ends t (suc n) bs = rw (some_bytes n) (full t n)
  where
    some_bytes : (n : ℕ) → (suc n == 0) ≡ false
    some_bytes n = ground arith

    text_stored :
        (o : Option (List ℕ))
        → Ends is_caused Any
            (or_raise o unicode_decode_error >>= (λ s. returns (str s)) >>= stored string)
    text_stored none = refl
    text_stored (some s) = tt

    full :
        (t : ValueType) (n : ℕ)
        → Ends is_caused (HasType t) (
            convert_to_raw t
              (elim t [
                | integer ↦ int (int_of_bytes 0 (take (suc n) bs))
                | _ ↦ bytes (take (suc n) bs)
              ])
              (suc n)
            >>= stored t)
    full integer n = tt
    full string n = text_stored (utf8_decode (take (suc n) bs))
    full opaque n = tt
    full unknown n = tt

flags-Ends :
    (order : ByteOrder) (n : ℕ) (m : Message)
    → Ends is_caused Any (
        get_option_flags order n >>= λ flags. elim flags.critical [
          | true ↦ raises attribute_error
          | false ↦ returns m
        ])
unfolding get_option_flags is_caused
flags-Ends order n m = elim (Bool-cases (ltb n 256)) [
  | inl h ↦ rw h (critical _)
  | inr h ↦ elim (Bool-cases (ltb n 65536)) [
    | inl h' ↦ rw (h, h') (critical _)
    | inr h' ↦ rw (h, h') refl
  ]
]
  where
    critical :
        (b : Bool)
        → Ends is_caused Any (elim b [ true ↦ raises attribute_error | false ↦ returns m ])
    critical true = refl
    critical false = tt

integer-Ends :
    (o : CoapOption) {item : OptionItem}
    → item_of o.number ≡ some item
    → item.value_type ≡ integer
    → HasType integer o.raw
    → Ends is_caused Any (get_value o)
unfolding get_value read
integer-Ends o {item} known type h = rw (known, type) (go o.raw h)
  where
    go :
        (raw : Value)
        → HasType integer raw
        → Ends is_caused Any (read (record item { value_type = integer }) raw)
    go (int n) h = elim (Bool-cases (ltb 0 (Utils.byte_len n))) [
      | inl p ↦ rw p tt
      | inr p ↦ rw p tt
    ]
    go absent h = absurd h
    go (str s) h = absurd h
    go (bytes bs) h = absurd h

noted-Ends :
    (o : CoapOption) (m : Message) {item : OptionItem}
    → item_of o.number ≡ some item
    → HasType item.value_type o.raw
    → Ends is_caused Any (note_content_type o m)
unfolding note_content_type
noted-Ends o m {item} known typed = elim (Bool-cases (o.number == content_type_number)) [
  | inl h ↦
      let e : o.number ≡ content_type_number = (==_iff o.number content_type_number).0 h in
      rw (h, note_content_type)
        (Ends-bind is_caused Any Any (get_value o) (λ v. returns (record m { payload_type = v }))
          (integer-Ends o known (typed_integer e) (rw (typed_integer e) at typed)) (λ v a. tt))
  | inr h ↦ rw (h, note_content_type) tt
]
  where
    typed_integer : o.number ≡ content_type_number → item.value_type ≡ integer
    typed_integer e = content_type-integer (rw e at known)

add-Ends :
    (m : Message) (o : CoapOption) {item : OptionItem}
    → item_of o.number ≡ some item
    → Ends is_caused Any (add_option m o)
unfolding add_option add is_caused
add-Ends m o {item} known = elim (Bool-cases item.repeatable) [
  | inl h ↦ rw (known, h) tt
  | inr h ↦ elim (Bool-cases (has_number o.number m.options)) [
    | inl h' ↦ rw (known, h, h') refl
    | inr h' ↦ rw (known, h, h') tt
  ]
]

pub read_option-Ends :
    (order : ByteOrder) (m : Message) (n len : ℕ) (bs : List ℕ)
    → Ends is_caused Any (read_option order m n len bs)
unfolding read_option set_value
read_option-Ends order m n len bs = elim (Option-cases (item_of n)) [
  | inl none_known ↦ rw (none_known, read_option) (flags-Ends order n m)
  | inr (item, known) ↦
      rw (known, read_option)
        (Ends-bind_through is_caused (HasType item.value_type) Any
          (convert_to_raw item.value_type (read_value item.value_type len bs) len)
          (stored item.value_type) (λ raw. record { number = n; raw = raw }) (set_value n)
          (λ o. add_option m o >>= λ m'. note_content_type o m') (λ v. rw (known, set_value) refl)
          (stored-Ends item.value_type len bs) (λ raw typed. added raw item known typed))
]
  where
    added :
        (raw : Value) (item : OptionItem)
        → item_of n ≡ some item
        → HasType item.value_type raw
        → Ends is_caused Any (
            add_option m (record { number = n; raw = raw }) >>= λ m'.
            note_content_type (record { number = n; raw = raw }) m')
    added raw item known typed =
        Ends-bind is_caused Any Any (add_option m (record { number = n; raw = raw }))
          (λ m'. note_content_type (record { number = n; raw = raw }) m')
          (add-Ends m (record { number = n; raw = raw }) known)
          (λ m' a. noted-Ends (record { number = n; raw = raw }) m' known typed)
