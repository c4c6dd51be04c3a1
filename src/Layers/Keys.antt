-- ===== src/Layers/Keys.antt =====
-- The keys by which the layers find what belongs to an address and a token.
use bubot_co_ap.Prelude.{ℕ, Option, List, [], ◌∷◌}
use bubot_co_ap.Outcome.{Outcome, returns, type_error, or_raise, ◌>>=◌}
use bubot_co_ap.Messages.Message.{Address}
use bubot_co_ap.Utils.Keys.{Builtins, word, number, token_arg, mid_arg, str_append_hash}

-- `host, port = address; utils.str_append_hash(host, port, token)`
unfoldable pub key_token : Builtins → Option Address → Option (List ℕ) → Outcome ℕ
key_token builtins address token = do
  a ← or_raise address type_error
  returns (str_append_hash builtins (word a.host ∷ number a.port ∷ token_arg token ∷ []))

-- `host, port = address; utils.str_append_hash(host, port, mid)`
unfoldable pub key_mid : Builtins → Option Address → Option ℕ → Outcome ℕ
key_mid builtins address mid = do
  a ← or_raise address type_error
  returns (str_append_hash builtins (word a.host ∷ number a.port ∷ mid_arg mid ∷ []))
