-- ===== src/Layers/ResourceLayer/Filled/Listing.antt =====
-- resource_layer.py: the discovery answers with a code.
use bubot_co_ap.Prelude.{refl, Option, none, some, List, [], ◌∷◌, ◌++◌, either_branch}
use bubot_co_ap.Outcome.{
  any_exception, returns, raises, attribute_error, type_error, key_error, or_raise, Ends-bind, Any,
  Finishes, Finishes-bind, or_raise-Finishes,
}
use bubot_co_ap.Text.{Text, text}
use bubot_co_ap.Defines.Codes
use bubot_co_ap.Messages.Value.{int, str, to_int}
use bubot_co_ap.Messages.Message.{Message, set_code}
use bubot_co_ap.Messages.Options.Values.Ends.{values_of-Finishes, add_value-keeps}
use bubot_co_ap.Messages.Accessors.{content_type_number}
use bubot_co_ap.Messages.Accessors.Options.{set_content_type}
use bubot_co_ap.Messages.Request.{uri_query, uri_query_number}
use bubot_co_ap.Resources.{Resource, word, numbers}
use bubot_co_ap.Transaction.{Transaction}
use bubot_co_ap.Layers.Table
use bubot_co_ap.Layers.Table.{octets, same_key}
use bubot_co_ap.Server.Directory.{Directory, lookup}
use bubot_co_ap.Server.Directory.Prefixes.{paths}
use bubot_co_ap.Layers.ResourceLayer.Filled.{IsCoded, IsFilled, Fills, set_code-IsCoded}
use bubot_co_ap.Layers.ResourceLayer.Filled.Operations.{or_raise-Fills}
use bubot_co_ap.Layers.ResourceLayer.Filled.Updates.{IsCoded-options, IsCoded-payload}
use bubot_co_ap.Layers.ResourceLayer.Discovery.{
  sorted, valid, link_of, with_link, with_attribute, add_link, add_links, attribute_names,
  corelinkformat, list_one, list_all, discover,
}

link_of-Finishes : (r : Resource) (k : Text) → Finishes (link_of r k)
unfolding link_of any_exception
link_of-Finishes r k = either_branch Finishes (same_key (octets k) (octets (text "ct"))) tt (
    either_branch Finishes (same_key (octets k) (octets (text "rt"))) tt (
      either_branch Finishes (same_key (octets k) (octets (text "if"))) tt (
        either_branch Finishes (same_key (octets k) (octets (text "sz"))) tt
          (either_branch Finishes (same_key (octets k) (octets (text "obs"))) tt refl))))

with_attribute-Finishes : (r : Resource) (k msg : Text) → Finishes (with_attribute r k msg)
unfolding with_attribute any_exception
with_attribute-Finishes r k msg =
    elim (Table.get r.attributes (octets k))
      as (λ a. Finishes (elim a [
        | none ↦ raises key_error
        | some (numbers ns) ↦ raises type_error
        | some (word v) ↦ returns (with_link msg (k ++ (61 ∷ v)))
      ])) [ none ↦ refl | some (numbers ns) ↦ refl | some (word v) ↦ tt ]

add_link-Finishes :
    (r : Resource) (k msg : Text) (link : Option Text) → Finishes (add_link r k msg link)
unfolding add_link
add_link-Finishes r k msg none = with_attribute-Finishes r k msg
add_link-Finishes r k msg (some []) = with_attribute-Finishes r k msg
add_link-Finishes r k msg (some (c ∷ s)) = tt

add_links-Finishes : (r : Resource) (ks : List Text) (msg : Text) → Finishes (add_links r ks msg)
unfolding add_links
add_links-Finishes r [] msg = tt
add_links-Finishes r (k ∷ ks) msg =
    Finishes-bind Any (link_of r k) _ (link_of-Finishes r k) (λ link.
      Finishes-bind Any (add_link r k msg link) _ (add_link-Finishes r k msg link)
        (λ msg'. add_links-Finishes r ks msg'))

corelinkformat-Finishes : (r : Resource) → Finishes (corelinkformat r)
unfolding corelinkformat
corelinkformat-Finishes r =
    Finishes-bind Any (or_raise r.path type_error) _ (or_raise-Finishes r.path type_error)
      (λ path. add_links-Finishes r (sorted (attribute_names r.attributes)) _)

uri_query-Finishes : (m : Message) → Finishes (uri_query m)
unfolding uri_query
uri_query-Finishes m =
    Finishes-bind Any _ _ (values_of-Finishes uri_query_number m.options) (λ vs. tt)

list_one-Finishes :
    (directory : Directory) (request : Message) (path : Text)
    → Finishes (list_one directory request path)
unfolding list_one
list_one-Finishes directory request path =
    either_branch Finishes (same_key (octets path) (octets (text "/"))) tt (
      Finishes-bind Any (or_raise (lookup directory path) key_error) _
        (or_raise-Finishes (lookup directory path) key_error)
        (λ r.
          let x = directory.resource r in
          either_branch Finishes x.visible
            (Finishes-bind Any (uri_query request) _ (uri_query-Finishes request) (λ query.
              either_branch Finishes (valid query x.attributes) (corelinkformat-Finishes x) tt))
            tt))

list_all-Finishes :
    (directory : Directory) (request : Message) (ps : List Text)
    → Finishes (list_all directory request ps)
unfolding list_all
list_all-Finishes directory request [] = tt
list_all-Finishes directory request (p ∷ ps) =
    Finishes-bind Any (list_one directory request p) _ (list_one-Finishes directory request p)
      (λ link.
        Finishes-bind Any (list_all directory request ps) _ (list_all-Finishes directory request ps)
          (λ links. tt))

pub discover-Fills : (directory : Directory) (t : Transaction) → Fills (discover directory t)
unfolding discover set_content_type to_int
discover-Fills directory t =
    let Coded = λ (r : Message). IsCoded (some r) in
    or_raise-Fills t.response attribute_error _ (λ m.
      Ends-bind any_exception Coded IsFilled (set_code m (some Codes.content)) _
        (set_code-IsCoded m Codes.content)
        (λ m1 h1.
          Finishes-bind IsFilled (list_all directory t.request (sorted (paths directory.root))) _
            (list_all-Finishes directory t.request (sorted (paths directory.root)))
            (λ links.
              Ends-bind any_exception Coded IsFilled _ _
                (add_value-keeps Coded IsCoded-options content_type_number (int 40)
                  (record m1 { payload = str links }) (IsCoded-payload m1 (str links) h1))
                (λ m2 h2. h2))))
