-- ===== src/Serializer/Tcp/Ends.antt =====
-- serializer_tcp.py: how deserialize ends.
use bubot_co_ap.Prelude.{
  ℕ, ◌+◌, ◌-◌, ◌≡◌, refl, Bool, true, false, Option, none, some, List, drop, take, arith, ltb,
  get_elem?, inl, inr, Bool-cases,
}
use bubot_co_ap.Outcome.{Exception, type_error, index_error, or_raise, raise_if}
use bubot_co_ap.Defines.{ByteOrder}
use bubot_co_ap.Messages.Message.{request, response, plain, Address, set_token}
use bubot_co_ap.Serializer.Ends.{
  Ends, Ends-bind, is_caused, Any, IsAnswer, leaves, catch_malformed-Ends,
}
use bubot_co_ap.Serializer.Decode.{is_request, is_response}
use bubot_co_ap.Serializer.Decode.Ends.{options_loop-Ends}
use bubot_co_ap.Serializer.SetterEnds.{set_token-Ends, set_code-Ends}
use bubot_co_ap.Serializer.Tcp.{extract_message_size, message_for, read_message, deserialize}

message_for-Ends : (code : ℕ) → Ends is_caused Any (message_for code)
unfolding message_for
message_for-Ends code = elim (Bool-cases (is_response code)) [
  | inl r ↦ rw r (set_code-Ends response code)
  | inr n ↦ elim (Bool-cases (is_request code)) [
    | inl r ↦ rw (n, r) (set_code-Ends request code)
    | inr n' ↦ rw (n, n') (set_code-Ends plain code)
  ]
]

or_raise-Ends {ℓ} :
    {A : Type ℓ} (o : Option A) (e : Exception)
    → is_caused e ≡ true
    → Ends is_caused Any (or_raise o e)
or_raise-Ends none e h = h
or_raise-Ends (some a) e h = tt

raise_if-Ends : (b : Bool) (e : Exception) → is_caused e ≡ true → Ends is_caused Any (raise_if b e)
raise_if-Ends true e h = h
raise_if-Ends false e h = tt

read_message-Ends :
    (order : ByteOrder) (fresh datagram : List ℕ) (source : Address)
    → Ends is_caused Any (read_message order fresh datagram source)
unfolding read_message is_caused
read_message-Ends order fresh datagram source =
    Ends-bind is_caused Any Any (or_raise (extract_message_size datagram) type_error) _
      (or_raise-Ends _ _ refl)
      λ sizes h.
        Ends-bind is_caused Any Any (raise_if (ltb 8 sizes.token_length) type_error) _
          (raise_if-Ends _ _ refl)
          λ u h.
            Ends-bind is_caused Any Any
              (or_raise (get_elem? datagram (sizes.token_offset - 1)) index_error) _
              (or_raise-Ends _ _ refl)
              λ code h.
                Ends-bind is_caused Any Any (message_for code) _ (message_for-Ends code) λ m h.
                  Ends-bind is_caused Any Any
                    (set_token fresh (record m { source = some source })
                      (some (take sizes.token_length (drop sizes.token_offset datagram))))
                    _ (set_token-Ends fresh (record m { source = some source }) _)
                    λ m h.
                      options_loop-Ends _ order m 0
                        (drop (sizes.token_offset + sizes.token_length) datagram) (omega arith)

-- On every frame deserialize ends: it returns a message or BAD_REQUEST, or it raises IndexError or
-- TypeError, and no other exception.
pub deserialize_frame-Ends :
    (order : ByteOrder) (fresh datagram : List ℕ) (source : Address)
    → Ends leaves IsAnswer (deserialize order fresh datagram source)
unfolding deserialize
deserialize_frame-Ends order fresh datagram source =
    catch_malformed-Ends (read_message order fresh datagram source)
      (read_message-Ends order fresh datagram source)
