-- ===== src/Server/Directory.antt =====
-- server.py, add_resource and remove_resource, with utils.Tree, a dict from paths to resources. A path is
-- the key `octets path`; a resource is the number of its object.
pub mod Laws
pub mod Prefixes
use bubot_co_ap.Prelude.{
  ℕ, ◌≡◌, ◌≢◌, refl, sym, ap, ◌∙◌, Bool, true, false, Option, none, some, List, [], ◌∷◌, ◌++◌, ◌==◌,
  if◌then◌else◌, arith, Bool-cases, Option-cases, inl, inr,
}
use bubot_co_ap.Text.{Text}
use bubot_co_ap.Text.Parts.{strip, split}
use bubot_co_ap.Resources.{Resource}
use bubot_co_ap.Layers.Table
use bubot_co_ap.Layers.Table.{
  Table, Key, octets, same_key, same_key_iff, same_key_self, get-put, get-put_self, get-remove,
}

-- utils.Tree
abbrev pub Tree : Type 0
Tree = Table ℕ

pub record Directory : Type 0 where
  pub root : Tree
  pub resource : ℕ → Resource

unfoldable pub lookup : Directory → Text → Option ℕ
lookup d path = Table.get d.root (octets path)

-- root[path] = resource; resource.path = path
unfoldable pub register : Directory → Text → ℕ → Directory
register d path r = record d {
  root = Table.put d.root (octets path) r;
  resource = λ i. if i == r then record (d.resource i) { path = some path } else d.resource i;
}

-- One pass of the loop of add_resource.
unfoldable pub add_missing : Directory → Text → ℕ → Directory
unfolding lookup register
add_missing d path r = elim (lookup d path) [ none ↦ register d path r | some q ↦ d ]

unfoldable pub add_all : Directory → Text → List Text → ℕ → Directory
unfolding add_missing
add_all d path [] r = d
add_all d path (p ∷ ps) r = let next = path ++ (47 ∷ p) in add_all (add_missing d next r) next ps r

unfoldable pub add_resource : Directory → Text → ℕ → Directory
unfolding add_all strip split
add_resource d path r = add_all d [] (split 47 (strip 47 path)) r

-- actual_path after the loop
unfoldable pub joined : Text → List Text → Text
joined path [] = path
joined path (p ∷ ps) = joined (path ++ (47 ∷ p)) ps

unfoldable pub actual_path : Text → Text
unfolding joined strip split
actual_path path = joined [] (split 47 (strip 47 path))

-- The resource that is removed, None where there is none.
unfoldable pub remove_resource : Directory → Text → Directory × Option ℕ
unfolding lookup actual_path
remove_resource d path = elim (lookup d (actual_path path)) [
  | none ↦ (d, none)
  | some r ↦ (record d { root = Table.remove d.root (octets (actual_path path)) }, some r)
]
