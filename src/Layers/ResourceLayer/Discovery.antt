-- ===== src/Layers/ResourceLayer/Discovery.antt =====
-- resource_layer.py: discover, valid and corelinkformat.
use bubot_co_ap.Prelude.{
  Bool, true, false, Option, none, some, List, [], ◌∷◌, ◌++◌, ltb, ◌==◌, if◌then◌else◌,
}
use bubot_co_ap.Outcome.{
  Outcome, returns, raises, attribute_error, type_error, key_error, or_raise, ◌>>=◌,
}
use bubot_co_ap.Text.{Text, text}
use bubot_co_ap.Text.Parts.{split}
use bubot_co_ap.Messages.Value.{int, str}
use bubot_co_ap.Messages.Message.{Message, set_code}
use bubot_co_ap.Messages.Accessors.Options.{set_content_type}
use bubot_co_ap.Messages.Request.{uri_query, drop_last}
use bubot_co_ap.Resources.{Resource, Attribute, word, numbers}
use bubot_co_ap.Resources.Links.{
  get_content_type, get_resource_type, get_interface_type, get_maximum_size_estimated,
  get_observing,
}
use bubot_co_ap.Transaction.{Transaction}
use bubot_co_ap.Defines.Codes
use bubot_co_ap.Layers.Table
use bubot_co_ap.Layers.Table.{Table, Key, octets, same_key}
use bubot_co_ap.Server.Directory.{Directory, lookup}
use bubot_co_ap.Server.Directory.Prefixes.{paths}
use bubot_co_ap.Layers.ResourceLayer.{Ending}

-- s < t, by code points
unfoldable pub before_text : Text → Text → Bool
before_text [] [] = false
before_text [] (c ∷ t) = true
before_text (a ∷ s) [] = false
before_text (a ∷ s) (c ∷ t) =
    let rest = before_text s t in if ltb a c then true else if a == c then rest else false

unfoldable pub insert_text : Text → List Text → List Text
unfolding before_text
insert_text s [] = s ∷ []
insert_text s (t ∷ ts) =
    let rest = insert_text s ts in if before_text t s then t ∷ rest else s ∷ t ∷ ts

-- sorted(list(...))
unfoldable pub sorted : List Text → List Text
unfolding insert_text
sorted [] = []
sorted (s ∷ ss) = insert_text s (sorted ss)

-- `v == attributes[k]`: a list is no str.
unfoldable pub is_word : Text → Option Attribute → Bool
is_word v none = false
is_word v (some (numbers ns)) = false
is_word v (some (word s)) = same_key (octets v) (octets s)

-- One part of the query: what follows a second sign of equality is dropped.
unfoldable pub valid_part : Table Attribute → List Text → Bool
unfolding is_word
valid_part attributes (k ∷ v ∷ rest) = is_word v (Table.get attributes (octets k))
valid_part attributes _ = true

unfoldable pub valid_parts : Table Attribute → List Text → Bool
unfolding valid_part
valid_parts attributes [] = true
valid_parts attributes (q ∷ qs) =
    let rest = valid_parts attributes qs in
    if valid_part attributes (split 61 q) then rest else false

unfoldable pub valid : Text → Table Attribute → Bool
unfolding valid_parts
valid query attributes = valid_parts attributes (split 38 query)

-- getattr(resource, defines.corelinkformat[k], None), a KeyError for an unknown attribute.
unfoldable pub link_of : Resource → Text → Outcome (Option Text)
link_of r k =
    if same_key (octets k) (octets (text "ct"))
    then returns (some (get_content_type r))
    else if same_key (octets k) (octets (text "rt"))
    then returns (some (get_resource_type r))
    else if same_key (octets k) (octets (text "if"))
    then returns (some (get_interface_type r))
    else if same_key (octets k) (octets (text "sz"))
    then returns (some (get_maximum_size_estimated r))
    else if same_key (octets k) (octets (text "obs"))
    then returns (get_observing r)
    else raises key_error

-- msg[:-1] + ";" + link + ","
unfoldable pub with_link : Text → Text → Text
with_link msg link = drop_last msg ++ (59 ∷ link ++ (44 ∷ []))

-- `";" + k + "=" + v + ","` of the attribute itself: a list cannot be added to a str.
unfoldable pub with_attribute : Resource → Text → Text → Outcome Text
unfolding with_link
with_attribute r k msg = elim (Table.get r.attributes (octets k)) [
  | none ↦ raises key_error
  | some (numbers ns) ↦ raises type_error
  | some (word v) ↦ returns (with_link msg (k ++ (61 ∷ v)))
]

unfoldable pub add_link : Resource → Text → Text → Option Text → Outcome Text
unfolding with_link with_attribute
add_link r k msg none = with_attribute r k msg
add_link r k msg (some []) = with_attribute r k msg
add_link r k msg (some (c ∷ s)) = returns (with_link msg (c ∷ s))

unfoldable pub add_links : Resource → List Text → Text → Outcome Text
unfolding link_of add_link
add_links r [] msg = returns msg
add_links r (k ∷ ks) msg = do link ← link_of r k; msg' ← add_link r k msg link; add_links r ks msg'

unfoldable pub attribute_names : Table Attribute → List Text
attribute_names [] = []
attribute_names ((octets k, a) ∷ rest) = k ∷ attribute_names rest
attribute_names ((k, a) ∷ rest) = attribute_names rest

-- "<" + None is a TypeError.
unfoldable pub corelinkformat : Resource → Outcome Text
unfolding add_links sorted attribute_names
corelinkformat r = do
  path ← or_raise r.path type_error
  add_links r (sorted (attribute_names r.attributes)) (60 ∷ path ++ (62 ∷ 59 ∷ []))

-- One path of the loop of discover.
unfoldable pub list_one : Directory → Message → Text → Outcome Text
unfolding valid corelinkformat
list_one directory request path =
    if same_key (octets path) (octets (text "/")) then returns [] else (do
      r ← or_raise (lookup directory path) key_error
      let x = directory.resource r
      if x.visible
          then (do
            query ← uri_query request
            if valid query x.attributes then corelinkformat x else returns [])
          else returns [])

unfoldable pub list_all : Directory → Message → List Text → Outcome Text
unfolding list_one
list_all directory request [] = returns []
list_all directory request (p ∷ ps) = do
  link ← list_one directory request p
  links ← list_all directory request ps
  returns (link ++ links)

-- The content type is application/link-format.
unfoldable pub discover : Directory → Transaction → Ending
unfolding list_all sorted paths
discover directory t = do
  m ← or_raise t.response attribute_error
  m ← set_code m (some Codes.content)
  links ← list_all directory t.request (sorted (paths directory.root))
  m ← set_content_type (record m { payload = str links }) (int 40)
  returns (directory, record t { response = some m })
