-- ===== src/Messages/Options.antt =====
-- messages/message.py: the list of options of a message.
pub mod Laws
pub mod Values
use bubot_co_ap.Prelude.{
  ℕ, Bool, true, false, ◌&&◌, not, Option, none, some, List, [], ◌∷◌, ◌++◌, String,
}
use bubot_co_ap.Prelude.{◌==◌, if◌then◌else◌}
use text.Mathlib.Text.{◌==◌ as str_eq}
use bubot_co_ap.Outcome.{Outcome, returns, raises, type_error, key_error, or_raise, ◌>>=◌}
use bubot_co_ap.Defines.{OptionItem, item_of}
use bubot_co_ap.Messages.Value.{Value, absent, int, str, bytes}
use bubot_co_ap.Messages.CoapOption.{CoapOption, get_value}
use bubot_co_ap.Messages.Message.{Message}

-- _already_in: some option has the number.
unfoldable pub has_number : ℕ → List CoapOption → Bool
has_number n [] = false
has_number n (o ∷ os) = if n == o.number then true else has_number n os

-- add_option, on the list
unfoldable pub add : List CoapOption → CoapOption → Outcome (List CoapOption)
add options o = do
  item ← or_raise (item_of o.number) key_error
  if item.repeatable
      then returns (options ++ (o ∷ []))
      else if has_number o.number options
      then raises type_error
      else returns (options ++ (o ∷ []))

unfoldable pub add_option : Message → CoapOption → Outcome Message
add_option m o = do options ← add m.options o; returns (record m { options = options })

same_texts : List ℕ → List ℕ → Bool
same_texts [] [] = true
same_texts (a ∷ s) (b ∷ t) = a == b && same_texts s t
same_texts _ _ = false

-- Python's == on what _value holds; a str and a bytes object are never equal.
unfoldable pub same_value : Value → Value → Bool
unfolding same_texts
same_value absent absent = true
same_value (int a) (int b) = a == b
same_value (str s) (str t) = same_texts s t
same_value (bytes s) (bytes t) = same_texts s t
same_value _ _ = false

-- Option.__eq__: the attributes _number and _value.
unfoldable pub same_option : CoapOption → CoapOption → Bool
same_option a b = a.number == b.number && same_value a.raw b.raw

-- list.remove: the first option that is equal. (The one asked for is always there.)
unfoldable pub remove_first : CoapOption → List CoapOption → List CoapOption
remove_first o [] = []
remove_first o (p ∷ ps) = if same_option p o then ps else p ∷ remove_first o ps

-- `for o in list(self._options): if o.number == number: self._options.remove(o)`
unfoldable pub del_loop : ℕ → List CoapOption → List CoapOption → List CoapOption
del_loop n [] options = options
del_loop n (o ∷ os) options =
    del_loop n os (if o.number == n then remove_first o options else options)

unfoldable pub del_option_by_number : ℕ → Message → Message
unfolding del_loop
del_option_by_number n m = record m { options = del_loop n m.options m.options }

-- get_option with a default: the first option of that name.
unfoldable pub get_option_from : List CoapOption → OptionItem → Value → Outcome Value
get_option_from [] wanted default = returns default
get_option_from (o ∷ os) wanted default = do
  item ← or_raise (item_of o.number) key_error
  if str_eq item.name wanted.name then get_value o else get_option_from os wanted default

unfoldable pub get_option : Message → OptionItem → Value → Outcome Value
unfolding get_option_from
get_option m wanted default = get_option_from m.options wanted default
