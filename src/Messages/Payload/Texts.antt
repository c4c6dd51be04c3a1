-- ===== src/Messages/Payload/Texts.antt =====
-- messages/message.py: a text payload.
use bubot_co_ap.Prelude.{◌≡◌, refl, [], ◌∷◌}
use bubot_co_ap.Outcome.{returns, ◌>>=◌}
use bubot_co_ap.Text.{Text}
use bubot_co_ap.Text.Ascii.{IsAscii, utf8_encode-IsAscii, utf8_decode-IsAscii}
use bubot_co_ap.Defines.{item_of}
use bubot_co_ap.Messages.Value.{Value, int, str, bytes, encode}
use bubot_co_ap.Messages.Message.{Message}
use bubot_co_ap.Messages.Options.{get_option}
use bubot_co_ap.Messages.Accessors.{get_content_type}
use bubot_co_ap.Messages.Payload.{
  Cbor, plain, is_true, string_encode, string_decode, decode_with, encode_with, encode_text,
  on_key_error, coder_of, encode_payload, decode_payload,
}

string_decode-string_encode :
    (s : Text)
    → IsAscii s
    → (string_encode (str s) >>= λ b. string_decode (bytes b)) ≡ returns (str s)
unfolding string_encode string_decode encode
string_decode-string_encode [] h = refl
string_decode-string_encode (c ∷ s) h =
    rw (utf8_encode-IsAscii (c ∷ s) h, utf8_decode-IsAscii (c ∷ s) h) refl

module _ (cbor : Cbor) (as_object : Value → cbor.Object) where
  -- In a message whose content type is text, an ASCII text that is encoded as the payload is decoded
  -- again.
  pub decode_payload-encode_payload :
      (m : Message) (s : Text)
      → get_content_type m ≡ returns (int 0)
      → IsAscii s
      → (encode_payload cbor as_object m (plain (str s)) >>= decode_payload cbor)
        ≡ returns (plain (str s))
  unfolding encode_payload decode_payload get_content_type encode_with decode_with encode_text
      on_key_error coder_of string_encode string_decode is_true item_of get_option
  decode_payload-encode_payload m [] typed h = rw (typed, typed) refl
  decode_payload-encode_payload m (c ∷ s) typed h =
      rw (typed, utf8_encode-IsAscii (c ∷ s) h, typed, utf8_decode-IsAscii (c ∷ s) h) refl
