-- ===== src/Messages/Request.antt =====
-- src/Bubot_CoAP/messages/request.py: the path and the query of a request.
pub mod Uri
pub mod Fields
pub mod Query
use bubot_co_ap.Prelude.{ℕ, List, [], ◌∷◌, ◌++◌}
use bubot_co_ap.Outcome.{Outcome, returns, raises, index_error, ◌>>=◌}
use bubot_co_ap.Text.{Text, text, text_of_int, text_of_bytes}
use bubot_co_ap.Text.Parts.{strip, split, join}
use bubot_co_ap.Messages.Value.{Value, absent, int, str, bytes}
use bubot_co_ap.Messages.Message.{Message}
use bubot_co_ap.Messages.Options.{del_option_by_number}
use bubot_co_ap.Messages.Options.Values.{values_of, add_values}

abbrev pub uri_path_number : ℕ
uri_path_number = 11

abbrev pub uri_query_number : ℕ
uri_query_number = 15

-- str(v)
unfoldable pub str_of : Value → Text
str_of absent = text "None"
str_of (int n) = text_of_int n
str_of (str s) = s
str_of (bytes b) = text_of_bytes b

-- s[:-1]
unfoldable pub drop_last : Text → Text
drop_last [] = []
drop_last (a ∷ []) = []
drop_last (a ∷ b ∷ s) = a ∷ drop_last (b ∷ s)

-- Each value with its slash, one after the other.
unfoldable pub segments : List Value → Text
unfolding str_of
segments [] = []
segments (v ∷ vs) = str_of v ++ (47 ∷ segments vs)

unfoldable pub uri_path : Message → Outcome Text
unfolding segments drop_last values_of
uri_path m = do vs ← values_of uri_path_number m.options; returns (drop_last (segments vs))

-- str of each value
unfoldable pub texts : List Value → List Text
unfolding str_of
texts [] = []
texts (v ∷ vs) = str_of v ∷ texts vs

unfoldable pub uri_query : Message → Outcome Text
unfolding texts values_of
uri_query m = do vs ← values_of uri_query_number m.options; returns (join 38 (texts vs))

-- The texts as values.
unfoldable pub strs : List Text → List Value
strs [] = []
strs (s ∷ ss) = str s ∷ strs ss

unfoldable pub del_uri_path : Message → Message
del_uri_path m = del_option_by_number uri_path_number m

unfoldable pub del_uri_query : Message → Message
del_uri_query m = del_option_by_number uri_query_number m

unfoldable pub set_uri_query : Message → Text → Outcome Message
unfolding strs del_uri_query
set_uri_query m value = add_values uri_query_number (strs (split 38 value)) (del_uri_query m)

-- The first two parts of `path.split("?")`: there is always a first one.
unfoldable pub set_parts : Message → List Text → Outcome Message
unfolding strs set_uri_query
set_parts m [] = raises index_error
set_parts m (path ∷ []) = add_values uri_path_number (strs (split 47 path)) m
set_parts m (path ∷ query ∷ rest) = do
  m' ← add_values uri_path_number (strs (split 47 path)) m
  set_uri_query m' query

unfoldable pub set_uri_path : Message → Text → Outcome Message
unfolding set_parts
set_uri_path m path = set_parts m (split 63 (strip 47 path))
