-- ===== src/Resources/Links.antt =====
-- resource.py: the link attributes as the discovery prints them.
use bubot_co_ap.Prelude.{ℕ, true, false, Option, none, some, List, [], ◌∷◌, ◌++◌}
use bubot_co_ap.Text.{Text, text, text_of_int}
use bubot_co_ap.Messages.Request.{drop_last}
use bubot_co_ap.Layers.Table
use bubot_co_ap.Layers.Table.{octets}
use bubot_co_ap.Resources.{Resource, Attribute, word, numbers}

unfoldable pub spaced : List ℕ → Text
spaced [] = []
spaced (n ∷ ns) = text_of_int n ++ (32 ∷ spaced ns)

-- The property content_type. `ct` holds a list; of a str, which only `attributes` can put there, each
-- character is taken for itself.
unfoldable pub spaced_word : Text → Text
spaced_word [] = []
spaced_word (c ∷ s) = c ∷ 32 ∷ spaced_word s

unfoldable pub shown_types : Text → Text
shown_types [] = []
shown_types (c ∷ s) = drop_last (text "ct=" ++ (c ∷ s))

unfoldable pub get_content_type : Resource → Text
unfolding spaced spaced_word shown_types
get_content_type r = elim (Table.get r.attributes (octets (text "ct"))) [
  | none ↦ []
  | some (numbers ns) ↦ shown_types (spaced ns)
  | some (word s) ↦ shown_types (spaced_word s)
]

-- str(lst) of a list of numbers
unfoldable pub listed : List ℕ → Text
listed [] = []
listed (n ∷ []) = text_of_int n
listed (n ∷ m ∷ ns) = text_of_int n ++ (44 ∷ 32 ∷ listed (m ∷ ns))

unfoldable pub shown : Attribute → Text
unfolding listed
shown (word s) = s
shown (numbers ns) = 91 ∷ listed ns ++ (93 ∷ [])

-- The properties resource_type, interface_type and maximum_size_estimated: key="value".
unfoldable pub quoted : Text → Resource → Text
unfolding shown
quoted key r = elim (Table.get r.attributes (octets key)) [
  | none ↦ []
  | some a ↦ key ++ (61 ∷ 34 ∷ shown a ++ (34 ∷ []))
]

unfoldable pub get_resource_type : Resource → Text
unfolding quoted
get_resource_type r = quoted (text "rt") r

unfoldable pub get_interface_type : Resource → Text
unfolding quoted
get_interface_type r = quoted (text "if") r

unfoldable pub get_maximum_size_estimated : Resource → Text
unfolding quoted
get_maximum_size_estimated r = quoted (text "sz") r

unfoldable pub get_observing : Resource → Option Text
get_observing r = elim r.observable [ true ↦ some (text "obs") | false ↦ none ]
