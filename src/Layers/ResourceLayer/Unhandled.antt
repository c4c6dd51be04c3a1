-- ===== src/Layers/ResourceLayer/Unhandled.antt =====
-- request_layer.py and resource_layer.py: requests for a resource whose class defines no handler.
use bubot_co_ap.Prelude.{ℕ, ◌≡◌, ◌⊎◌, false, some, List, [], ◌∷◌}
use bubot_co_ap.Outcome.{returns}
use bubot_co_ap.Text.{Text, text}
use bubot_co_ap.Defines.Codes
use bubot_co_ap.Messages.Message.{Message}
use bubot_co_ap.Messages.Request.Fields.{get_if_match, get_if_none_match}
use bubot_co_ap.Transaction.{Transaction}
use bubot_co_ap.Server.Directory.{Directory, lookup}
use bubot_co_ap.Layers.RequestLayer.{discovery_url, is_path}
use bubot_co_ap.Layers.RequestLayer.Addressed.{IsAddressed, answer}
use bubot_co_ap.Layers.ResourceLayer.{Parent}
use bubot_co_ap.Layers.ResourceLayer.Refusals.{answered}

-- A GET, POST, PUT or DELETE without If-Match and If-None-Match for the path of a resource, which is
-- neither the root nor the discovery's.
pub record IsUnhandled (directory : Directory) (t : Transaction) : Type 0 where
  pub addressed : IsAddressed t
  pub code : ℕ
  pub code_set : t.request.code ≡ some code
  pub is_method :
      (code ≡ Codes.get) ⊎ (code ≡ Codes.post) ⊎ (code ≡ Codes.put) ⊎ (code ≡ Codes.delete)
  pub resource : ℕ
  pub found : lookup directory (47 ∷ addressed.path) ≡ some resource
  pub no_discovery : is_path (47 ∷ addressed.path) discovery_url ≡ false
  pub no_root : is_path (47 ∷ addressed.path) (text "/") ≡ false
  pub unmatched : get_if_match t.request ≡ returns []
  pub unconditional : get_if_none_match t.request ≡ false

module _ (fresh : List ℕ) (send_ack : Parent) (directory : Directory) (t : Transaction)
    (h : IsUnhandled directory t) where
  abbrev made : Message
  made = answer t.request h.addressed.here h.addressed.token

  abbrev path : Text
  path = 47 ∷ h.addressed.path

  -- The transaction with its resource.
  abbrev placed : Transaction
  placed = record t { response = some made; resource = some h.resource }

  abbrev refused : Transaction
  refused = answered Codes.method_not_allowed placed made
