-- ===== src/Messages/Response/Fields.antt =====
-- messages/response.py: what the getters of the location and of Max-Age read after the setters.
use bubot_co_ap.Prelude.{
  ℕ, zero, suc, ◌≡◌, refl, false, List, [], ◌∷◌, ◌++◌, ◌==◌, if◌then◌else◌, arith,
}
use bubot_co_ap.Outcome.{returns, ◌>>=◌}
use bubot_co_ap.Text.{Text}
use bubot_co_ap.Text.Parts.{strip, split, join-split, before, split-before}
use bubot_co_ap.Defines.{item_of}
use bubot_co_ap.Messages.Value.{int, of_default}
use bubot_co_ap.Messages.CoapOption.{CoapOption}
use bubot_co_ap.Messages.CoapOption.Laws.{set_value-int, get_value-int, get_value-zero}
use bubot_co_ap.Messages.Message.{Message}
use bubot_co_ap.Messages.Options.{has_number, add, add_option}
use bubot_co_ap.Messages.Options.Laws.{without, del_option_by_number-without, has_number-without}
use bubot_co_ap.Messages.Options.Values.{add_value}
use bubot_co_ap.Messages.Options.Values.Laws.{
  AreKept, options_of, add_values-AreKept, values_of-options_of, values_of-append,
}
use bubot_co_ap.Messages.Request.{strs}
use bubot_co_ap.Messages.Request.Uri.{strs-AreKept, texts-strs}
use bubot_co_ap.Messages.Response.{
  get_location_path, set_location_path, add_location, location_path_number, get_location_query,
  set_location_query, del_location_query, location_query_number, find_max_age, get_max_age,
  set_max_age, del_max_age, max_age_number,
}

location-AreKept : (ss : List Text) → AreKept location_path_number (strs ss)
unfolding item_of
location-AreKept ss = strs-AreKept location_path_number _ ss refl refl refl

query-AreKept : (ss : List Text) → AreKept location_query_number (strs ss)
unfolding item_of
query-AreKept ss = strs-AreKept location_query_number _ ss refl refl refl

located : Message → Text → Message
located m path = record m {
  options = m.options ++ options_of location_path_number (strs (split 47 path));
}

get_location_path-located :
    (m : Message) (path : Text)
    → has_number location_path_number m.options ≡ false
    → get_location_path (located m path) ≡ returns path
unfolding get_location_path located
get_location_path-located m path none_there =
    rw
      (
        values_of-append location_path_number m.options _ none_there,
        values_of-options_of location_path_number _ (location-AreKept (split 47 path)),
        texts-strs (split 47 path),
        join-split 47 path,
      )
      refl

-- On a response without a Location-Path the setter returns, and the getter gives the path without the
-- slashes at its ends, as far as a question mark.
pub get_location_path-set_location_path :
    (m : Message) (path : Text)
    → has_number location_path_number m.options ≡ false
    → (set_location_path m path >>= get_location_path) ≡ returns (before 63 (strip 47 path))
unfolding set_location_path add_location
get_location_path-set_location_path m path none_there =
    let kept = before 63 (strip 47 path) in
    rw
      (
        split-before 63 (strip 47 path),
        add_values-AreKept location_path_number _ m (location-AreKept (split 47 kept)),
      )
      (unfold located in get_location_path-located m kept none_there)

-- The Location-Query that is set is read back as the parts between the ampersands; the old one is gone.
pub get_location_query-set_location_query :
    (m : Message) (value : Text)
    → (set_location_query m value >>= get_location_query) ≡ returns (strs (split 38 value))
unfolding set_location_query get_location_query del_location_query
get_location_query-set_location_query m value =
    rw
      (
        del_option_by_number-without location_query_number m,
        add_values-AreKept location_query_number _ _ (query-AreKept (split 38 value)),
        values_of-append location_query_number (without location_query_number m.options) _
            (has_number-without location_query_number m.options),
      )
      (values_of-options_of location_query_number _ (query-AreKept (split 38 value)))

find_max_age-append :
    (value : ℕ) (os ps : List CoapOption)
    → has_number max_age_number os ≡ false
    → find_max_age value (os ++ ps) ≡ find_max_age value ps
unfolding find_max_age has_number
find_max_age-append value [] ps h = refl
find_max_age-append value (o ∷ os) ps h = ground (arith, find_max_age-append value os ps)

find_max_age_single :
    (n : ℕ)
    → find_max_age 60 (record { number = max_age_number; raw = int n } ∷ [])
      ≡ returns (if n == 0 then 60 else n)
unfolding find_max_age item_of of_default
find_max_age_single zero = rw (find_max_age, get_value-zero max_age_number refl refl) refl
find_max_age_single (suc n) =
    let pos : (suc n == 0) ≡ false = ground arith in
    rw (find_max_age, get_value-int max_age_number (suc n) refl refl (omega arith), pos) refl

-- A Max-Age that is set is read back, but for 0, which is read as the default, 60.
pub get_max_age-set_max_age :
    (m : Message) (n : ℕ)
    → (set_max_age m (int n) >>= get_max_age) ≡ returns (if n == 0 then 60 else n)
unfolding set_max_age get_max_age del_max_age add_value add_option add item_of
get_max_age-set_max_age m n =
    rw
      (
        del_option_by_number-without max_age_number m,
        set_value-int max_age_number n refl refl,
        has_number-without max_age_number m.options,
        find_max_age-append 60 (without max_age_number m.options) _
            (has_number-without max_age_number m.options),
        find_max_age_single n,
      )
      refl
