-- ===== src/Defines/ContentTypes.antt =====
-- defines.py: Content_types, a dict from names to numbers.
use bubot_co_ap.Prelude.{ℕ, Bool, false, ◌||◌, Option, [], ◌∷◌, ◌==◌}
use bubot_co_ap.Text.{Text, text}
use bubot_co_ap.Layers.Table
use bubot_co_ap.Layers.Table.{Table, Key, octets}

abbrev pub content_types : Table ℕ
content_types =
    (octets (text "text/plain"), 0)
    ∷ (octets (text "application/link-format"), 40)
    ∷ (octets (text "application/xml"), 41)
    ∷ (octets (text "application/octet-stream"), 42)
    ∷ (octets (text "application/exi"), 47)
    ∷ (octets (text "application/json"), 50)
    ∷ (octets (text "application/cbor"), 60)
    ∷ (octets (text "application/vnd.ocf+cbor"), 10000)
    ∷ []

-- Content_types[name], none for KeyError.
unfoldable pub content_type_named : Text → Option ℕ
content_type_named name = Table.get content_types (octets name)

has_value : ℕ → Table ℕ → Bool
has_value n [] = false
has_value n ((name, k) ∷ rest) = k == n || has_value n rest

-- `value in list(Content_types.values())`
unfoldable pub is_content_type : ℕ → Bool
unfolding has_value
is_content_type n = has_value n content_types
