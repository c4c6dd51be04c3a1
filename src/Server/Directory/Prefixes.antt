-- ===== src/Server/Directory/Prefixes.antt =====
-- utils.Tree: the paths in front of a path.
use bubot_co_ap.Prelude.{List, [], ◌∷◌, if◌then◌else◌}
use bubot_co_ap.Outcome.{Outcome, returns, raises, key_error}
use bubot_co_ap.Text.{Text}
use bubot_co_ap.Text.Parts.{starts_with}
use bubot_co_ap.Layers.Table.{octets}
use bubot_co_ap.Server.Directory.{Tree}

-- The keys of the dict, in its order; a path is the key `octets path`.
unfoldable pub paths : Tree → List Text
paths [] = []
paths ((octets p, r) ∷ tree) = p ∷ paths tree
paths ((k, r) ∷ tree) = paths tree

-- The paths that the path starts with.
unfoldable pub prefixes : Text → List Text → List Text
prefixes path [] = []
prefixes path (p ∷ ps) =
    let rest = prefixes path ps in if starts_with path p then p ∷ rest else rest

-- Tree.with_prefix: none is a KeyError.
unfoldable pub with_prefix : Tree → Text → Outcome (List Text)
unfolding paths prefixes
with_prefix tree path = elim (prefixes path (paths tree)) [
  | [] ↦ raises key_error
  | p ∷ ps ↦ returns (p ∷ ps)
]
