-- ===== src/Resources.antt =====
-- src/Bubot_CoAP/resources/resource.py: a resource, its attributes and their getters and setters. What its
-- handlers render is the user's, see Layers.ResourceLayer.
pub mod Contents
pub mod Links
use bubot_co_ap.Prelude.{ℕ, ◌%◌, Bool, true, false, Option, none, some, List, [], ◌∷◌, ◌++◌}
use bubot_co_ap.Text.{Text, text}
use bubot_co_ap.Messages.Value.{Value, absent, int, str, bytes}
use bubot_co_ap.Layers.Table
use bubot_co_ap.Layers.Table.{Table, Key, octets}

-- The value of a link attribute: a str, or the list of numbers of `ct`.
pub data Attribute : Type 0 where
  word : Text → Attribute
  numbers : List ℕ → Attribute

-- The list of ETags, the last one first. The location query is the empty list at first, here none.
pub record Resource : Type 0 where
  pub name : Text
  pub path : Option Text
  pub visible : Bool
  pub observable : Bool
  pub allow_children : Bool
  pub observe_count : ℕ
  pub deleted : Bool
  pub changed : Bool
  pub attributes : Table Attribute
  pub payloads : List (Value × Value)
  pub actual_content_type : Option ℕ
  pub etags : List (List ℕ)
  pub location_query : Option Text
  pub max_age : Option ℕ

-- Resource(name, visible=..., observable=..., allow_children=...)
unfoldable pub new_resource : Text → Bool → Bool → Bool → Resource
new_resource name visible observable allow_children = record {
  name = name;
  path = none;
  visible = visible;
  observable = observable;
  allow_children = allow_children;
  observe_count = 1;
  deleted = false;
  changed = false;
  attributes = elim observable [ true ↦ (octets (text "obs"), word []) ∷ [] | false ↦ [] ];
  payloads = [];
  actual_content_type = none;
  etags = [];
  location_query = none;
  max_age = none;
}

unfoldable pub set_observe_count : Resource → ℕ → Resource
set_observe_count r v = record r { observe_count = v % 65000 }

unfoldable pub set_deleted : Resource → Bool → Resource
set_deleted r b = record r { deleted = b }

unfoldable pub set_changed : Resource → Bool → Resource
set_changed r b = record r { changed = b }

-- The last ETag that was set.
unfoldable pub get_etag : Resource → Option (List ℕ)
get_etag r = elim r.etags [ [] ↦ none | e ∷ es ↦ some e ]

unfoldable pub set_location_query : Resource → Text → Resource
set_location_query r query = record r { location_query = some query }

unfoldable pub del_location_query : Resource → Resource
del_location_query r = record r { location_query = none }

unfoldable pub set_max_age : Resource → Option ℕ → Resource
set_max_age r age = record r { max_age = age }

unfoldable pub set_attributes : Resource → Table Attribute → Resource
set_attributes r attributes = record r { attributes = attributes }
