-- ===== src/Serializer/Udp/Ends.antt =====
-- serializer_udp.py: how deserialize ends.
use bubot_co_ap.Prelude.{
  ℕ, ◌+◌, ◌/◌, refl, none, some, List, [], ◌∷◌, drop, take, arith, ltb, bit_and, inl, inr,
  Bool-cases, if◌then◌else◌,
}
use bubot_co_ap.Defines.{ByteOrder}
use bubot_co_ap.Messages.Message.{
  request, response, Address, set_version, set_type, set_mid, set_token,
}
use bubot_co_ap.Serializer.Ends.{
  Ends, Ends-bind, is_caused, Any, IsAnswer, leaves, catch_malformed-Ends,
}
use bubot_co_ap.Serializer.Decode.{is_request, is_response}
use bubot_co_ap.Serializer.Decode.Ends.{options_loop-Ends}
use bubot_co_ap.Serializer.SetterEnds.{guarded, set_token-Ends, set_mid-Ends, set_code-Ends}
use bubot_co_ap.Serializer.Udp.{unpack_header, message_for, read_message, deserialize}

message_for-Ends : (code : ℕ) → Ends is_caused Any (message_for code)
unfolding message_for
message_for-Ends code = elim (Bool-cases (is_response code)) [
  | inl r ↦ rw r (set_code-Ends response code)
  | inr n ↦ elim (Bool-cases (is_request code)) [
    | inl r ↦ rw (n, r) (set_code-Ends request code)
    | inr n' ↦ rw (n, n') tt
  ]
]

unpack_header-Ends : (bs : List ℕ) → Ends is_caused Any (unpack_header bs)
unfolding unpack_header is_caused
unpack_header-Ends [] = refl
unpack_header-Ends (a ∷ []) = refl
unpack_header-Ends (a ∷ b ∷ []) = refl
unpack_header-Ends (a ∷ b ∷ c ∷ []) = refl
unpack_header-Ends (a ∷ b ∷ c ∷ d ∷ bs) = tt

read_message-Ends :
    (order : ByteOrder) (fresh datagram : List ℕ) (source : Address)
    → Ends is_caused Any (read_message order fresh datagram source)
unfolding read_message set_version set_type
read_message-Ends order fresh datagram source =
    Ends-bind is_caused Any Any (unpack_header datagram) _ (unpack_header-Ends datagram)
      λ (first, code, mid) h.
        Ends-bind is_caused Any Any (message_for code) _ (message_for-Ends code) λ m h.
          Ends-bind is_caused Any Any
            (set_version (record m { source = some source }) (bit_and first 0xC0 / 64)) _
            (guarded _ _)
            λ m h.
              Ends-bind is_caused Any Any (set_type m (some (bit_and first 0x30 / 16))) _
                (guarded _ _)
                λ m h.
                  Ends-bind is_caused Any Any (set_mid m (some mid)) _ (set_mid-Ends m mid) λ m h.
                    Ends-bind is_caused Any Any
                      (set_token fresh m (
                        if ltb 0 (bit_and first 0x0F)
                        then some (take (bit_and first 0x0F) (drop 4 datagram))
                        else none))
                      _ (set_token-Ends fresh m _)
                      λ m h.
                        options_loop-Ends _ order m 0 (drop (4 + bit_and first 0x0F) datagram)
                          (omega arith)

-- On every datagram deserialize ends: it returns a message or BAD_REQUEST, or it raises IndexError
-- or TypeError, and no other exception.
pub deserialize-Ends :
    (order : ByteOrder) (fresh datagram : List ℕ) (source : Address)
    → Ends leaves IsAnswer (deserialize order fresh datagram source)
unfolding deserialize
deserialize-Ends order fresh datagram source =
    catch_malformed-Ends (read_message order fresh datagram source)
      (read_message-Ends order fresh datagram source)
