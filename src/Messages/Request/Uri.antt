-- ===== src/Messages/Request/Uri.antt =====
-- messages/request.py: what the getters of the path and the query read after the setters.
use bubot_co_ap.Prelude.{
  ℕ, ◌≡◌, refl, sym, ap, ◌∙◌, true, false, Option, none, some, List, [], ◌∷◌, ◌++◌, All,
  append_assoc,
}
use bubot_co_ap.Outcome.{Outcome, returns}
use bubot_co_ap.Text.{Text}
use bubot_co_ap.Text.Parts.{
  strip, split, join, split-cons, join-split, before, behind, further, split-before,
}
use bubot_co_ap.Defines.{OptionItem, item_of, string}
use bubot_co_ap.Messages.CoapOption.{stored, read}
use bubot_co_ap.Messages.Message.{Message}
use bubot_co_ap.Messages.Options.{has_number}
use bubot_co_ap.Messages.Options.Laws.{without, del_option_by_number-without, has_number-without}
use bubot_co_ap.Messages.Options.Values.{add_values}
use bubot_co_ap.Messages.Options.Values.Laws.{
  AreKept, options_of, add_values-AreKept, values_of-options_of, values_of-append,
  values_of-options_of_other, values_of-without,
}
use bubot_co_ap.Messages.Request.{
  uri_path, uri_query, segments, texts, strs, str_of, drop_last, uri_path_number, uri_query_number,
  set_uri_path, set_uri_query, set_parts, del_uri_query,
}

each_stored :
    (item : OptionItem) (ss : List Text)
    → item.value_type ≡ string
    → All (λ v. stored item.value_type v ≡ returns v) (strs ss)
unfolding strs stored
each_stored item [] h = tt
each_stored item (s ∷ ss) h = (rw (h, stored) refl, each_stored item ss h)

each_read :
    (item : OptionItem) (ss : List Text)
    → item.value_type ≡ string
    → All (λ v. read item v ≡ returns v) (strs ss)
unfolding strs read
each_read item [] h = tt
each_read item (s ∷ ss) h = (rw (h, read) refl, each_read item ss h)

-- Texts are kept under a number of text options that may be repeated.
pub strs-AreKept :
    (n : ℕ) (item : OptionItem) (ss : List Text)
    → item_of n ≡ some item
    → item.repeatable ≡ true
    → item.value_type ≡ string
    → AreKept n (strs ss)
strs-AreKept n item ss known repeatable is_text = record {
  item = item;
  known = known;
  repeatable = repeatable;
  are_stored = each_stored item ss is_text;
  are_read = each_read item ss is_text;
}

path-AreKept : (ss : List Text) → AreKept uri_path_number (strs ss)
unfolding item_of
path-AreKept ss = strs-AreKept uri_path_number _ ss refl refl refl

query-AreKept : (ss : List Text) → AreKept uri_query_number (strs ss)
unfolding item_of
query-AreKept ss = strs-AreKept uri_query_number _ ss refl refl refl

pub texts-strs : (ss : List Text) → texts (strs ss) ≡ ss
unfolding texts strs str_of
texts-strs [] = refl
texts-strs (s ∷ ss) = ap (λ (r : List Text). s ∷ r) (texts-strs ss)

drop_last-cons : (a : ℕ) (s : Text) (c : ℕ) → drop_last (a ∷ s ++ (c ∷ [])) ≡ a ∷ s
unfolding drop_last
drop_last-cons a [] c = refl
drop_last-cons a (b ∷ s) c = ap (λ (r : Text). a ∷ r) (drop_last-cons b s c)

drop_last-append : (s : Text) (c : ℕ) → drop_last (s ++ (c ∷ [])) ≡ s
drop_last-append [] c = unfold drop_last in refl
drop_last-append (a ∷ s) c = drop_last-cons a s c

segments-strs :
    (s : Text) (ss : List Text) → segments (strs (s ∷ ss)) ≡ join 47 (s ∷ ss) ++ (47 ∷ [])
unfolding segments strs str_of join
segments-strs s [] = refl
segments-strs s (t ∷ ss) =
    ap (λ (r : Text). s ++ (47 ∷ r)) (segments-strs t ss)
    ∙ sym (append_assoc s (47 ∷ join 47 (t ∷ ss)) (47 ∷ []))

-- A path in front of which no path stands.
drop_last-segments : (path : Text) → drop_last (segments (strs (split 47 path))) ≡ path
drop_last-segments path =
    let (s, ss, e) = split-cons 47 path in
    rw e (rw (segments-strs s ss, drop_last-append) (ap (join 47) (sym e) ∙ join-split 47 path))

-- The message after the query setter.
queried : Message → Text → Message
queried m value = record m {
  options =
      without uri_query_number m.options ++ options_of uri_query_number (strs (split 38 value));
}

set_uri_query-queried :
    (m : Message) (value : Text) → set_uri_query m value ≡ returns (queried m value)
unfolding set_uri_query queried del_uri_query
set_uri_query-queried m value =
    rw (del_option_by_number-without uri_query_number m) (
      add_values-AreKept uri_query_number (strs (split 38 value)) _
        (query-AreKept (split 38 value)))

uri_query-queried : (m : Message) (value : Text) → uri_query (queried m value) ≡ returns value
unfolding uri_query queried
uri_query-queried m value =
    rw
      (
        values_of-append uri_query_number (without uri_query_number m.options) _
            (has_number-without uri_query_number m.options),
        values_of-options_of uri_query_number _ (query-AreKept (split 38 value)),
        texts-strs (split 38 value),
        join-split 38 value,
      )
      refl

uri_path-queried : (m : Message) (value : Text) → uri_path (queried m value) ≡ uri_path m
unfolding uri_path queried
uri_path-queried m value =
    rw
      (
        values_of-options_of_other uri_path_number uri_query_number
            (without uri_query_number m.options) (strs (split 38 value)) refl,
        values_of-without uri_path_number uri_query_number m.options refl,
      )
      refl

-- The message after the path setter has added the segments of the path.
routed : Message → Text → Message
routed m path = record m {
  options = m.options ++ options_of uri_path_number (strs (split 47 path));
}

uri_path-routed :
    (m : Message) (path : Text)
    → has_number uri_path_number m.options ≡ false
    → uri_path (routed m path) ≡ returns path
unfolding uri_path routed
uri_path-routed m path none_there =
    rw
      (
        values_of-append uri_path_number m.options _ none_there,
        values_of-options_of uri_path_number _ (path-AreKept (split 47 path)),
        drop_last-segments path,
      )
      refl

uri_query-routed : (m : Message) (path : Text) → uri_query (routed m path) ≡ uri_query m
unfolding uri_query routed
uri_query-routed m path =
    rw
      (values_of-options_of_other uri_query_number uri_path_number m.options (strs (split 47 path))
        refl)
      refl

-- Setting the query deletes the old one, and the getter of the query gives it back as it was set; the
-- path stays.
pub uri_query-set_uri_query :
    (m : Message) (value : Text)
    → (m' : Message) × (set_uri_query m value ≡ returns m')
      × (uri_query m' ≡ returns value)
      × (uri_path m' ≡ uri_path m)
uri_query-set_uri_query m value = (
  queried m value,
  set_uri_query-queried m value,
  uri_query-queried m value,
  uri_path-queried m value,
)

set_path :
    (m : Message) (path : Text)
    → add_values uri_path_number (strs (split 47 path)) m ≡ returns (routed m path)
unfolding routed
set_path m path =
    add_values-AreKept uri_path_number (strs (split 47 path)) m (path-AreKept (split 47 path))

-- The query that is left: the one behind the question mark, up to the next, or the old one.
unfoldable pub query_left : Message → Option Text → Outcome Text
query_left m none = uri_query m
query_left m (some rest) = returns (before 63 rest)

set_parts-split :
    (m : Message) (path : Text) (rest : Option Text)
    → has_number uri_path_number m.options ≡ false
    → (m' : Message) × (set_parts m (path ∷ further 63 rest) ≡ returns m')
      × (uri_path m' ≡ returns path)
      × (uri_query m' ≡ query_left m rest)
unfolding set_parts query_left
set_parts-split m path none none_there =
    (routed m path, set_path m path, uri_path-routed m path none_there, uri_query-routed m path)
set_parts-split m path (some rest) none_there =
    let value = before 63 rest in
    (
      queried (routed m path) value,
      rw (split-before 63 rest, set_path m path) (set_uri_query-queried (routed m path) value),
      uri_path-queried (routed m path) value ∙ uri_path-routed m path none_there,
      uri_query-queried (routed m path) value,
    )

-- On a request without Uri-Path options the path setter returns. The getter of the path then gives the
-- path without the slashes at its ends, as far as a question mark; the query is what stands between that
-- question mark and the next, and the old query where there is none.
pub uri_path-set_uri_path :
    (m : Message) (path : Text)
    → has_number uri_path_number m.options ≡ false
    → (m' : Message) × (set_uri_path m path ≡ returns m')
      × (uri_path m' ≡ returns (before 63 (strip 47 path)))
      × (uri_query m' ≡ query_left m (behind 63 (strip 47 path)))
unfolding set_uri_path
uri_path-set_uri_path m path none_there =
    rw (split-before 63 (strip 47 path))
      (set_parts-split m (before 63 (strip 47 path)) (behind 63 (strip 47 path)) none_there)
