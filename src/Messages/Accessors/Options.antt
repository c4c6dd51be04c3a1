-- ===== src/Messages/Accessors/Options.antt =====
-- messages/message.py: etag, the setter of the content type, the deleters, and deleting an option.
pub mod Deleted
use bubot_co_ap.Prelude.{
  ℕ, zero, suc, Bool, false, ◌||◌, length, List, [], ◌∷◌, String, some, none, if◌then◌else◌,
}
use text.Mathlib.Text.{◌==◌ as str_eq}
use bubot_co_ap.Outcome.{Outcome, returns, key_error, or_raise, ◌>>=◌}
use bubot_co_ap.Defines.{item_of}
use bubot_co_ap.Messages.Value
use bubot_co_ap.Messages.Value.{Value, absent, int, str, bytes}
use bubot_co_ap.Messages.CoapOption.{CoapOption}
use bubot_co_ap.Messages.Message.{Message}
use bubot_co_ap.Messages.Options.{remove_first, same_option, del_option_by_number}
use bubot_co_ap.Messages.Options.Values.{values_of, add_value}
use bubot_co_ap.Messages.Accessors.{
  observe_number, content_type_number, block1_number, block2_number, size1_number, size2_number,
}

abbrev pub etag_number : ℕ
etag_number = 4

unfoldable pub get_etag : Message → Outcome (List Value)
get_etag m = values_of etag_number m.options

-- `if not isinstance(e, bytes): e = bytes(e, "utf-8")`
unfoldable pub etag_bytes : Value → Outcome (List ℕ)
unfolding Value.encode
etag_bytes absent = Value.encode absent
etag_bytes (int n) = Value.encode (int n)
etag_bytes (str s) = Value.encode (str s)
etag_bytes (bytes b) = returns b

-- A value that is no list is one in a list.
unfoldable pub set_etag : Message → List Value → Outcome Message
unfolding etag_bytes
set_etag m [] = returns m
set_etag m (e ∷ es) = do b ← etag_bytes e; m' ← add_value etag_number (bytes b) m; set_etag m' es

unfoldable pub del_etag : Message → Message
del_etag m = del_option_by_number etag_number m

unfoldable pub set_content_type : Message → Value → Outcome Message
unfolding Value.to_int
set_content_type m v = do n ← Value.to_int v; add_value content_type_number (int n) m

unfoldable pub del_content_type : Message → Message
del_content_type m = del_option_by_number content_type_number m

unfoldable pub del_observe : Message → Message
del_observe m = del_option_by_number observe_number m

unfoldable pub del_block1 : Message → Message
del_block1 m = del_option_by_number block1_number m

unfoldable pub del_block2 : Message → Message
del_block2 m = del_option_by_number block2_number m

unfoldable pub del_size1 : Message → Message
del_size1 m = del_option_by_number size1_number m

unfoldable pub del_size2 : Message → Message
del_size2 m = del_option_by_number size2_number m

unfoldable pub has_option : CoapOption → List CoapOption → Bool
has_option o [] = false
has_option o (p ∷ ps) = same_option p o || has_option o ps

-- `while option in list(self._options): self._options.remove(option)`, on fuel.
unfoldable pub remove_rounds : ℕ → CoapOption → List CoapOption → List CoapOption
unfolding has_option
remove_rounds zero o os = os
remove_rounds (suc fuel) o os =
    let rest = remove_rounds fuel o (remove_first o os) in if has_option o os then rest else os

-- A round takes an option away, so as many rounds as options are enough.
unfoldable pub del_option : CoapOption → Message → Message
unfolding remove_rounds
del_option o m = record m { options = remove_rounds (length m.options) o m.options }

-- A number that the registry lacks has no name: KeyError.
unfoldable pub del_named : String → List CoapOption → List CoapOption → Outcome (List CoapOption)
del_named name [] options = returns options
del_named name (o ∷ os) options = do
  item ← or_raise (item_of o.number) key_error
  del_named name os (if str_eq item.name name then remove_first o options else options)

unfoldable pub del_option_by_name : String → Message → Outcome Message
unfolding del_named
del_option_by_name name m = do
  options ← del_named name m.options m.options
  returns (record m { options = options })
