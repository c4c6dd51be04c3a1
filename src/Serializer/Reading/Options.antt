-- ===== src/Serializer/Reading/Options.antt =====
-- Reading one option from the wire format.
use bubot_co_ap.Prelude.{
  ℕ, suc, ◌+◌, ◌-◌, ◌*◌, ◌≤◌, ◌≡◌, refl, ◌∙◌, true, false, ◌||◌, not, some, List, [], ◌∷◌, ◌++◌,
  drop, arith, append_assoc, drop-append_exact, ◌==◌, if◌then◌else◌, inl, inr, Bool-cases, ==_iff,
}
use native.Mathlib.Decide.{dec_lt}
use bubot_co_ap.Outcome.{returns}
use bubot_co_ap.Defines.{ByteOrder, integer, item_of, payload_marker}
use bubot_co_ap.Defines.Facts.{item_of-le, content_type-integer}
use bubot_co_ap.Messages.Value
use bubot_co_ap.Messages.Value.{Value, absent, int, str, bytes}
use bubot_co_ap.Messages.CoapOption.{CoapOption, set_value, get_value, option_length}
use bubot_co_ap.Messages.CoapOption.Laws.{get_value-int, get_value-zero}
use bubot_co_ap.Messages.Message.{Message}
use bubot_co_ap.Messages.Options.{add_option, has_number}
use bubot_co_ap.Messages.Options.Laws.{add-ok}
use bubot_co_ap.Messages.Accessors.{content_type_number}
use bubot_co_ap.Serializer.Decode.{
  read_option_value_len_from_byte, note_content_type, read_option, options_loop,
}
use bubot_co_ap.Serializer.Wire.{
  nibble, nibble-lt, extended, largest, IsCarried, IsOption, value_bytes, option_bytes,
}
use bubot_co_ap.Serializer.Wire.Writes.{option_length-le}
use bubot_co_ap.Serializer.Reading.Values.{read_header, convert-stored, length-value_bytes}

-- The message with one option more; a Content-Type is noted beside.
unfoldable pub absorb : Message → CoapOption → Message
absorb m o = record m {
  options = m.options ++ (o ∷ []);
  payload_type = (if o.number == content_type_number then o.raw else m.payload_type);
}

-- The Content-Type is read back by the getter as it is stored: its default is 0.
content_type-get :
    (v : Value)
    → IsCarried integer v
    → get_value (record { number = content_type_number; raw = v }) ≡ returns v
unfolding item_of Value.of_default
content_type-get (int n) h = elim (dec_lt 0 n) [
  | yes p ↦ get_value-int content_type_number n refl refl p
  | no p ↦ let e : n ≡ 0 = omega arith in rw e (get_value-zero content_type_number refl refl)
]
content_type-get absent h = absurd h
content_type-get (str s) h = absurd h
content_type-get (bytes bs) h = absurd h

note_content_type-eq :
    (o : CoapOption) (m : Message)
    → IsOption o
    → note_content_type o m
      ≡ returns (record m {
        payload_type = (if o.number == content_type_number then o.raw else m.payload_type);
      })
unfolding note_content_type
note_content_type-eq o m h = elim (Bool-cases (o.number == content_type_number)) [
  | inl hit ↦
      let e : o.number ≡ content_type_number = (==_iff o.number content_type_number).0 hit in
      let typed : h.item.value_type ≡ integer = content_type-integer (e' e) in
      rw hit (rw e (rw (content_type-get o.raw (rw typed at h.carried))))
  | inr miss ↦ rw (miss, note_content_type)
]
  where
    e' : o.number ≡ content_type_number → item_of content_type_number ≡ some h.item
    e' e = rw (← e) h.known

option_bytes-append :
    (last : ℕ) (o : CoapOption) (rest : List ℕ)
    → option_bytes last o ++ rest
      ≡ (nibble (o.number - last) * 16 + nibble (option_length o))
        ∷ (extended (o.number - last)
            ++ (extended (option_length o) ++ (value_bytes o.raw ++ rest)))
unfolding option_bytes
option_bytes-append last o rest = rw (
  append_assoc (extended (o.number - last)) (extended (option_length o) ++ value_bytes o.raw) rest,
  append_assoc (extended (option_length o)) (value_bytes o.raw) rest,
)

module _ (order : ByteOrder) where
  read_option-absorb :
      (m : Message) (o : CoapOption) (rest : List ℕ) (h : IsOption o)
      → (h.item.repeatable || not (has_number o.number m.options)) ≡ true
      → read_option order m o.number (option_length o) (value_bytes o.raw ++ rest)
        ≡ returns (absorb m o)
  unfolding read_option add_option absorb set_value
  read_option-absorb m o rest h fresh =
      let (v, converted, kept) = convert-stored o rest h in
      rw
        (
          h.known,
          read_option,
          converted,
          h.known,
          set_value,
          kept,
          add-ok m.options o h.known fresh,
        )
        (note_content_type-eq o (record m { options = m.options ++ (o ∷ []) }) h)

  -- One round of the loop, by what its two readers return.
  options_loop_round :
      (f : ℕ) (m m' : Message) (last d len b : ℕ) (bs values : List ℕ)
      → (b == payload_marker) ≡ false
      → read_option_value_len_from_byte b bs ≡ returns (d, len, values)
      → read_option order m (last + d) len values ≡ returns m'
      → options_loop (suc f) order m last (b ∷ bs)
        ≡ options_loop f order m' (last + d) (drop len values)
  unfolding options_loop
  options_loop_round f m m' last d len b bs values head header option =
      ground (arith, head, header, option)

  -- One round of the loop on one option.
  pub options_loop_step :
      (f : ℕ) (m : Message) (last : ℕ) (o : CoapOption) (rest : List ℕ) (h : IsOption o)
      → last ≤ o.number
      → (h.item.repeatable || not (has_number o.number m.options)) ≡ true
      → options_loop (suc f) order m last (option_bytes last o ++ rest)
        ≡ options_loop f order (absorb m o) o.number rest
  options_loop_step f m last o rest h up fresh =
      let d = o.number - last in
      let len = option_length o in
      let back : last + d ≡ o.number = omega arith in
      let near : d ≤ largest = omega (arith, item_of-le o.number h.known) in
      let head : ((nibble d * 16 + nibble len) == payload_marker) ≡ false =
        ground (arith, nibble-lt d, nibble-lt len) in
      rw (option_bytes-append last o rest) (
        options_loop_round f m (absorb m o) last d len _ _ (value_bytes o.raw ++ rest) head
          (read_header d len (value_bytes o.raw ++ rest) near (option_length-le o h))
          (rw back (read_option-absorb m o rest h fresh))
        ∙ rw (back, drop-append_exact len (value_bytes o.raw) rest (length-value_bytes o h)))
