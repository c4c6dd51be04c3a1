-- ===== src/Serializer/Reading.antt =====
-- The deserializers' loop on what the wire format holds: every option comes back, in its order.
pub mod Values
pub mod Options
use bubot_co_ap.Prelude.{
  ℕ, zero, suc, ◌+◌, ◌-◌, ◌*◌, ◌/◌, ◌%◌, ◌^◌, ◌≤◌, ◌<◌, ◌≡◌, refl, ap, ◌∙◌, sym, Bool, true, false,
  ◌||◌, not, Option, none, some, List, [], ◌∷◌, ◌++◌, length, take, drop, All, arith, length-append,
  All-append, append_assoc, append-nil, take-append, drop-append, take-append_exact,
  drop-append_exact, leb, ltb, ◌==◌, if◌then◌else◌, bit_and, inl, inr, Bool-cases, ==_iff,
}
use native.Mathlib.Decide.{dec_lt}
use bubot_co_ap.Prelude.Bits.{mask-high_nibble, mask-low_nibble}
use bubot_co_ap.Outcome.{Outcome, returns, raises, ◌>>=◌, or_raise, >>=-eq-returns}
use bubot_co_ap.Text.{utf8_decode}
use bubot_co_ap.Text.Ascii.{IsAscii, utf8_decode-IsAscii}
use bubot_co_ap.Defines.{
  ByteOrder, OptionItem, ValueType, integer, string, opaque, unknown, item_of, payload_marker,
}
use bubot_co_ap.Defines.Facts.{item_of-le, content_type-integer}
use bubot_co_ap.Messages.Value
use bubot_co_ap.Messages.Value.{Value, absent, int, str, bytes}
use bubot_co_ap.Messages.CoapOption.{CoapOption, stored, set_value, get_value, option_length}
use bubot_co_ap.Messages.CoapOption.Laws.{stored_int, get_value-int, get_value-zero}
use bubot_co_ap.Messages.Message.{Message}
use bubot_co_ap.Messages.Options.{add_option, has_number}
use bubot_co_ap.Messages.Options.Laws.{add-ok}
use bubot_co_ap.Messages.Accessors.{content_type_number}
use bubot_co_ap.Utils.{byte_len}
use bubot_co_ap.Utils.ByteLen.{byte_len_bounds, byte_len_pos, byte_len-zero}
use bubot_co_ap.Serializer.Words.{to_bytes, int_of_bytes}
use bubot_co_ap.Serializer.Words.RoundTrip.{length-to_bytes, int_of_bytes-to_bytes}
use bubot_co_ap.Serializer.Decode.{
  read_extended, read_option_value_len_from_byte, read_value, convert_to_raw, note_content_type,
  read_option, options_loop,
}
use bubot_co_ap.Serializer.Wire.{
  payload_bytes, IsPayload, nibble, nibble-lt, extended, largest, IsCarried, IsOption, value_bytes,
  option_bytes, options_bytes,
}
use bubot_co_ap.Serializer.Wire.Writes.{option_length-le}
use bubot_co_ap.Serializer.Reading.Options.{absorb, options_loop_step}

-- The options in ascending order, each allowed behind those before it.
abbrev pub IsAscending : ℕ → List CoapOption → Type 0
IsAscending last [] = Unit {0}
IsAscending last (o ∷ os) = (last ≤ o.number) × IsAscending o.number os

unfoldable pub may_repeat : ℕ → Bool
may_repeat n = elim (item_of n) [ none ↦ true | some item ↦ item.repeatable ]

may_repeat-eq : (o : CoapOption) (h : IsOption o) → may_repeat o.number ≡ h.item.repeatable
unfolding may_repeat
may_repeat-eq o h = ground (arith, h.known)

abbrev pub IsAddable : List CoapOption → List CoapOption → Type 0
IsAddable prior [] = Unit {0}
IsAddable prior (o ∷ os) =
    ((may_repeat o.number || not (has_number o.number prior)) ≡ true)
    × IsAddable (prior ++ (o ∷ [])) os

unfoldable pub absorb_all : Message → List CoapOption → Message
absorb_all m [] = m
absorb_all m (o ∷ os) = absorb_all (absorb m o) os

abbrev last_number : ℕ → List CoapOption → ℕ
last_number last [] = last
last_number last (o ∷ os) = last_number o.number os

-- A packet without a payload leaves the attribute alone.
unfoldable pub with_payload : Message → List ℕ → Message
with_payload m [] = m
with_payload m (p ∷ ps) = record m { payload = bytes (p ∷ ps) }

-- An option takes a byte at least.
more_bytes :
    (last : ℕ) (o : CoapOption) (os : List CoapOption) (payload : List ℕ)
    → length (options_bytes o.number os ++ payload_bytes payload)
      < length (options_bytes last (o ∷ os) ++ payload_bytes payload)
unfolding options_bytes option_bytes
more_bytes last o os payload = omega (
  arith,
  length-append (option_bytes last o ++ options_bytes o.number os) (payload_bytes payload),
  length-append (option_bytes last o) (options_bytes o.number os),
  length-append (options_bytes o.number os) (payload_bytes payload),
)

module _ (order : ByteOrder) where
  options_loop-payload :
      (fuel : ℕ) (m : Message) (last : ℕ) (payload : List ℕ)
      → length (payload_bytes payload) ≤ fuel
      → options_loop fuel order m last (payload_bytes payload) ≡ returns (with_payload m payload)
  unfolding options_loop payload_bytes with_payload
  options_loop-payload fuel m last [] h = refl
  options_loop-payload zero m last (p ∷ ps) h = absurd (omega arith)
  options_loop-payload (suc f) m last (p ∷ ps) h = refl

  -- The loop reads the options and the payload that were written, given as much fuel as bytes.
  pub options_loop-options_bytes :
      (os : List CoapOption) (fuel : ℕ) (m : Message) (last : ℕ) (payload : List ℕ)
      → All IsOption os
      → IsAscending last os
      → IsAddable m.options os
      → length (options_bytes last os ++ payload_bytes payload) ≤ fuel
      → options_loop fuel order m last (options_bytes last os ++ payload_bytes payload)
        ≡ returns (with_payload (absorb_all m os) payload)
  unfolding options_bytes absorb_all
  options_loop-options_bytes [] fuel m last payload known up free enough =
      options_loop-payload fuel m last payload enough
  options_loop-options_bytes (o ∷ os) zero m last payload known up free enough =
      absurd (omega (arith, more_bytes last o os payload))
  options_loop-options_bytes (o ∷ os) (suc f) m last payload (h, hs) (up, ups) (free, frees)
        enough =
      rw (append_assoc (option_bytes last o) (options_bytes o.number os) (payload_bytes payload)) (
        options_loop_step order f m last o _ h up (rw (may_repeat-eq o h) at free)
        ∙ options_loop-options_bytes os f (absorb m o) o.number payload hs ups
            (unfold absorb in frees) (omega (arith, enough, more_bytes last o os payload)))

-- The attributes that options and payload leave alone.
pub record SameHead (a b : Message) : Type 0 where
  pub kind : a.kind ≡ b.kind
  pub version : a.version ≡ b.version
  pub type : a.type ≡ b.type
  pub code : a.code ≡ b.code
  pub mid : a.mid ≡ b.mid
  pub token : a.token ≡ b.token
  pub source : a.source ≡ b.source

absorb_all-eq :
    (m : Message) (os : List CoapOption)
    → SameHead (absorb_all m os) m
      × ((absorb_all m os).options ≡ m.options ++ os)
      × ((absorb_all m os).payload ≡ m.payload)
unfolding absorb_all absorb
absorb_all-eq m [] = (
  record {
    kind = refl;
    version = refl;
    type = refl;
    code = refl;
    mid = refl;
    token = refl;
    source = refl;
  },
  sym (append-nil m.options),
  refl,
)
absorb_all-eq m (o ∷ os) =
    let (head, options, payload) = absorb_all-eq (absorb m o) os in
    (
      record {
        kind = head.kind;
        version = head.version;
        type = head.type;
        code = head.code;
        mid = head.mid;
        token = head.token;
        source = head.source;
      },
      options ∙ append_assoc m.options (o ∷ []) os,
      payload,
    )

-- What the loop makes of a fresh message.
pub read_back :
    (m : Message) (os : List CoapOption) (ps : List ℕ)
    → m.options ≡ []
    → m.payload ≡ absent
    → SameHead (with_payload (absorb_all m os) ps) m
      × ((with_payload (absorb_all m os) ps).options ≡ os)
      × IsPayload (with_payload (absorb_all m os) ps).payload ps
unfolding with_payload
read_back m os [] bare empty =
    let (head, options, payload) = absorb_all-eq m os in
    (head, options ∙ ap (λ t. t ++ os) bare, rw (payload, empty) refl)
read_back m os (p ∷ ps) bare empty =
    let (head, options, payload) = absorb_all-eq m os in
    (
      record {
        kind = head.kind;
        version = head.version;
        type = head.type;
        code = head.code;
        mid = head.mid;
        token = head.token;
        source = head.source;
      },
      options ∙ ap (λ t. t ++ os) bare,
      refl,
    )
