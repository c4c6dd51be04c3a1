-- ===== src/Messages/Payload.antt =====
-- messages/message.py, decode_payload and encode_payload. cbor2 is a library: its objects and its two
-- functions are a parameter.
pub mod Texts
use bubot_co_ap.Prelude.{ℕ, Bool, true, false, List, [], ◌∷◌, ◌==◌, if◌then◌else◌, ◌||◌}
use bubot_co_ap.Outcome.{
  Outcome, returns, raises, stuck, attribute_error, type_error, key_error, unicode_decode_error,
  or_raise, ◌>>=◌,
}
use bubot_co_ap.Text.{utf8_decode}
use bubot_co_ap.Messages.Value
use bubot_co_ap.Messages.Value.{Value, absent, int, str, bytes}
use bubot_co_ap.Messages.Message.{Message}
use bubot_co_ap.Messages.Accessors.{get_content_type}

-- cbor2, with the truth of its objects.
pub record Cbor : Type 1 where
  pub Object : Type 0
  pub truthy : Object → Bool
  pub loads : Value → Outcome Object
  pub dumps : Object → Outcome (List ℕ)

-- A value of the model, or an object of cbor2.
pub data Payload (Object : Type 0) : Type 0 where
  plain : Value → Payload Object
  object : Object → Payload Object

-- `if payload`
unfoldable pub is_true : Value → Bool
is_true absent = false
is_true (int n) = if n == 0 then false else true
is_true (str []) = false
is_true (str (c ∷ s)) = true
is_true (bytes []) = false
is_true (bytes (b ∷ bs)) = true

-- payload.decode("utf-8")
decode : Value → Outcome Value
decode (bytes b) = do s ← or_raise (utf8_decode b) unicode_decode_error; returns (str s)
decode _ = raises attribute_error

unfoldable pub string_decode : Value → Outcome Value
unfolding is_true decode
string_decode v = if is_true v then decode v else returns (str [])

unfoldable pub string_encode : Value → Outcome (List ℕ)
unfolding is_true Value.encode
string_encode v = if is_true v then Value.encode v else returns []

-- `except KeyError`
unfoldable pub on_key_error {ℓ} : {A : Type ℓ} → Outcome A → Outcome A → Outcome A
on_key_error (returns a) other = returns a
on_key_error (raises key_error) other = other
on_key_error (raises e) other = raises e
on_key_error stuck other = stuck

-- The keys of the tables `encoder` and `decoder`.
pub data Coder : Type 0 where
  as_text as_cbor no_coder : Coder

unfoldable pub coder_of : Value → Coder
coder_of (int n) = if n == 0 then as_text else if n == 60 || n == 10000 then as_cbor else no_coder
coder_of _ = no_coder

module _ (cbor : Cbor) where
  open cbor use {Object, truthy, loads, dumps}

  unfoldable pub cbor_loads : Value → Outcome (Payload Object)
  unfolding is_true
  cbor_loads v = if is_true v then (do o ← loads v; returns (object o)) else returns (plain v)

  unfoldable pub decode_with : Coder → Value → Outcome (Payload Object)
  unfolding string_decode cbor_loads
  decode_with as_text v = do s ← string_decode v; returns (plain s)
  decode_with as_cbor v = cbor_loads v
  decode_with no_coder v = raises key_error

  unfoldable pub decode_payload : Message → Outcome (Payload Object)
  unfolding decode_with on_key_error
  decode_payload m =
      on_key_error (do t ← get_content_type m; decode_with (coder_of t) m.payload)
        (returns (plain m.payload))

  -- bytes(payload, "utf-8") of an object is a TypeError.
  unfoldable pub encode_text : Payload Object → Outcome (List ℕ)
  unfolding string_encode
  encode_text (plain v) = string_encode v
  encode_text (object o) = if truthy o then raises type_error else returns []

  -- cbor2.dumps(payload) if payload else b''; what the model has as a value is an object of cbor2 too.
  unfoldable pub encode_with : (Value → Object) → Coder → Payload Object → Outcome (List ℕ)
  unfolding encode_text is_true
  encode_with as_object as_text p = encode_text p
  encode_with as_object as_cbor (plain v) = if is_true v then dumps (as_object v) else returns []
  encode_with as_object as_cbor (object o) = if truthy o then dumps o else returns []
  encode_with as_object no_coder p = raises key_error

  unfoldable pub encode_payload : (Value → Object) → Message → Payload Object → Outcome Message
  unfolding encode_with encode_text on_key_error
  encode_payload as_object m p = do
    b ←
        on_key_error (do t ← get_content_type m; encode_with as_object (coder_of t) p)
          (encode_text p)
    returns (record m { payload = bytes b })
