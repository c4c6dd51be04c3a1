-- ===== src/Serializer/Udp/RoundTrip.antt =====
-- serializer_udp.py: what deserialize makes of what serialize wrote.
use bubot_co_ap.Prelude.{
  ℕ, suc, ◌+◌, ◌*◌, ◌/◌, ◌%◌, ◌<◌, ◌≡◌, refl, ap, ◌∙◌, sym, true, false, some, List, [], ◌∷◌, ◌++◌,
  length, All, arith, All-append, append-nil, take-append_exact, drop-append_exact, ltb, bit_and,
  lt→ltb,
}
use bubot_co_ap.Prelude.Bits.{mask-top_two, mask-next_two, mask-low_nibble}
use bubot_co_ap.Prelude.Masks.{join_two, join_nibble}
use bubot_co_ap.Outcome.{returns, ◌>>=◌}
use bubot_co_ap.Defines.{ByteOrder, known_code}
use bubot_co_ap.Messages.CoapOption.{CoapOption}
use bubot_co_ap.Messages.Message.{
  Kind, request, response, plain, Address, Message, new_message, set_version, set_type, set_mid,
  set_token, set_code,
}
use bubot_co_ap.Serializer.Pack.{byte, short, raw}
use bubot_co_ap.Serializer.Decode.{is_request, is_response, options_loop, parsed}
use bubot_co_ap.Serializer.Encode.{as_sorted_list}
use bubot_co_ap.Serializer.Wire.Writes.{payload-Writes, Writes, options-Writes}
use bubot_co_ap.Serializer.Wire.{
  IsPayload, payload_bytes, Fits, wire, wire-append, pack-wire, IsOption, options_bytes,
}
use bubot_co_ap.Serializer.Reading.{read_back, absorb_all, with_payload, options_loop-options_bytes}
use bubot_co_ap.Serializer.Sorting.{
  as_sorted_list-IsAscending, as_sorted_list-All, as_sorted_list-IsAddable, IsUnrepeated,
}
use bubot_co_ap.Serializer.Udp.{
  unpack_header, message_for, read_message, deserialize, header_fields, serialize,
}

-- A request or a response is an object of that class, with a code of that class.
abbrev pub HasClass : Kind → ℕ → Type 0
HasClass request code = is_request code ≡ true
HasClass response code = is_response code ≡ true
HasClass plain code = ⊥

-- A message that the wire can carry. A token is not empty: without one the receiver draws one.
pub record IsSendable (m : Message) : Type 0 where
  pub type : ℕ
  pub code : ℕ
  pub mid : ℕ
  pub token : List ℕ
  pub payload : List ℕ
  pub type_set : m.type ≡ some type
  pub type_fits : type < 4
  pub code_set : m.code ≡ some code
  pub code_known : known_code code ≡ true
  pub class : HasClass m.kind code
  pub mid_set : m.mid ≡ some mid
  pub mid_fits : mid < 65536
  pub token_set : m.token ≡ some token
  pub token_present : 0 < length token
  pub token_fits : length token < 16
  pub payload_set : IsPayload m.payload payload
  pub options_carried : All IsOption m.options
  pub options_unrepeated : IsUnrepeated m.options

known_code-lt : (c : ℕ) → known_code c ≡ true → c < 256
unfolding known_code
known_code-lt c h = ground (arith, h)

unfoldable pub header_bytes : (type code mid : ℕ) → List ℕ → List ℕ
header_bytes type code mid token =
    ((4 + type) * 16 + length token) ∷ code ∷ (mid / 256) ∷ (mid % 256) ∷ token

header-Writes :
    (m : Message) (h : IsSendable m)
    → Writes (header_fields m) (header_bytes h.type h.code h.mid h.token)
unfolding header_fields header_bytes
header-Writes m h = go h.token h.token_set h.token_present h.token_fits
  where
    go :
        (t : List ℕ)
        → m.token ≡ some t
        → 0 < length t
        → length t < 16
        → Writes
            (header_fields m)
            (((4 + h.type) * 16 + length t) ∷ h.code ∷ (h.mid / 256) ∷ (h.mid % 256) ∷ t)
    go [] e p q = absurd (omega arith)
    go (b ∷ t) e p q = (
      byte ((4 + h.type) * 16 + length (b ∷ t)) ∷ byte h.code ∷ short h.mid ∷ raw (b ∷ t) ∷ [],
      rw (h.type_set, h.code_set, h.mid_set, e)
          (rw (join_two 1 h.type h.type_fits, join_nibble (4 + h.type) (length (b ∷ t)) q)),
      unfold wire in rw append-nil,
      (omega arith, (known_code-lt h.code h.code_known, (h.mid_fits, (tt, tt)))),
    )

-- The packet: the header with the token, the options in ascending order, the payload.
packet : (m : Message) → IsSendable m → List ℕ
packet m h =
    header_bytes h.type h.code h.mid h.token
    ++ (options_bytes 0 (as_sorted_list m.options) ++ payload_bytes h.payload)

serialize-packet : (m : Message) (h : IsSendable m) → serialize m ≡ returns (packet m h)
unfolding serialize packet
serialize-packet m h =
    let os = as_sorted_list m.options in
    let (hf, p, pw, pf) = header-Writes m h in
    let (of, q, qw, qf) =
      options-Writes 0 os (as_sorted_list-All IsOption m.options h.options_carried) in
    let (bf, r, rw', rf) = payload-Writes m.payload h.payload h.payload_set in
    let fit : All Fits (hf ++ (of ++ bf)) =
      All-append Fits hf (of ++ bf) pf (All-append Fits of bf qf rf) in
    rw (p, q, r)
      (ap returns (
        pack-wire 0 (hf ++ (of ++ bf)) fit
        ∙ wire-append hf (of ++ bf)
        ∙ rw (pw, wire-append of bf, qw, rw')))

-- The object before its options are read.
start : (m : Message) → IsSendable m → Address → Message
unfolding new_message
start m h source = record (new_message m.kind) {
  source = some source;
  type = some h.type;
  code = some h.code;
  mid = some h.mid;
  token = some h.token;
}

classes_apart : (c : ℕ) → is_request c ≡ true → is_response c ≡ false
unfolding is_request is_response
classes_apart c h = ground (arith, h)

message_for-eq :
    (k : Kind) (c : ℕ)
    → HasClass k c
    → known_code c ≡ true
    → message_for c ≡ returns (record (new_message k) { code = some c })
unfolding message_for set_code
message_for-eq request c h known = rw (classes_apart c h, h, known)
message_for-eq response c h known = rw (h, known)
message_for-eq plain c h known = absurd h

module _ (order : ByteOrder) (fresh : List ℕ) (source : Address) where
  read_message-header :
      (m : Message) (h : IsSendable m) (rest : List ℕ)
      → read_message order fresh (header_bytes h.type h.code h.mid h.token ++ rest) source
        ≡ options_loop (length rest) order (start m h source) 0 rest
  unfolding read_message unpack_header header_bytes set_version set_type set_mid set_token start
  read_message-header m h rest =
      let tmp : ℕ = (4 + h.type) * 16 + length h.token in
      let small : tmp < 256 = omega (arith, h.type_fits, h.token_fits) in
      let version : bit_and tmp 0xC0 / 64 ≡ 1 = omega (arith, mask-top_two tmp small) in
      let type : bit_and tmp 0x30 / 16 ≡ h.type = omega (arith, mask-next_two tmp small) in
      let len : bit_and tmp 0x0F ≡ length h.token = omega (arith, mask-low_nibble tmp small) in
      let mid : h.mid / 256 * 256 + h.mid % 256 ≡ h.mid = omega arith in
      let type_ok : ltb h.type 4 ≡ true = lt→ltb h.type 4 h.type_fits in
      let mid_ok : ltb 65536 h.mid ≡ false = ground (arith, h.mid_fits) in
      let long : ltb 256 (length h.token) ≡ false = ground (arith, h.token_fits) in
      let some_token : ltb 0 (length h.token) ≡ true = lt→ltb 0 (length h.token) h.token_present in
      let four : 4 + length h.token ≡ suc (suc (suc (suc (length h.token)))) = omega arith in
      rw (
        message_for-eq m.kind h.code h.class h.code_known,
        version,
        type,
        type_ok,
        mid,
        mid_ok,
        len,
        some_token,
        take-append_exact (length h.token) h.token rest refl,
        long,
        four,
        drop-append_exact (length h.token) h.token rest refl,
      )

  loop_ends :
      (m : Message) (h : IsSendable m) (os : List CoapOption)
      → os ≡ as_sorted_list m.options
      → (let body = options_bytes 0 os ++ payload_bytes h.payload in
          options_loop (length body) order (start m h source) 0 body
          ≡ returns (with_payload (absorb_all (start m h source) os) h.payload))
  unfolding start new_message
  loop_ends m h os e =
      options_loop-options_bytes order os _ (start m h source) 0 h.payload
        (rw e (as_sorted_list-All IsOption m.options h.options_carried))
        (rw e (as_sorted_list-IsAscending m.options))
        (rw e (as_sorted_list-IsAddable m.options h.options_unrepeated)) (omega arith)

  -- Of a message that the wire can carry, deserialize makes a message of the same class, type, code,
  -- id, token and payload, from the given source, with the options in ascending order.
  pub deserialize-serialize :
      (m : Message) (h : IsSendable m)
      → (r : Message) × ((serialize m >>= λ datagram. deserialize order fresh datagram source)
          ≡ returns (parsed r))
        × (r.kind ≡ m.kind)
        × (r.type ≡ m.type)
        × (r.code ≡ m.code)
        × (r.mid ≡ m.mid)
        × (r.token ≡ m.token)
        × (r.source ≡ some source)
        × (r.options ≡ as_sorted_list m.options)
        × IsPayload r.payload h.payload
  unfolding deserialize packet start
  deserialize-serialize m h =
      let os = as_sorted_list m.options in
      let (head, options, payload) =
        read_back (start m h source) os h.payload (unfold start new_message in refl)
          (unfold start new_message in refl) in
      (
        with_payload (absorb_all (start m h source) os) h.payload,
        rw (
          serialize-packet m h,
          read_message-header m h (options_bytes 0 os ++ payload_bytes h.payload),
          loop_ends m h os refl,
        ),
        head.kind,
        head.type ∙ sym h.type_set,
        head.code ∙ sym h.code_set,
        head.mid ∙ sym h.mid_set,
        head.token ∙ sym h.token_set,
        head.source,
        options,
        payload,
      )
