-- ===== src/Layers/ResourceLayer/Post.antt =====
-- resource_layer.py: edit_resource, add_resource and create_resource, and the test of If-Match.
use bubot_co_ap.Prelude.{
  ℕ, Bool, true, false, ◌&&◌, ◌||◌, not, Option, none, some, List, [], ◌∷◌, length, ltb,
  if◌then◌else◌,
}
use bubot_co_ap.Outcome.{key_error, or_raise, ◌>>=◌}
use bubot_co_ap.Text.{Text, text, text_of_bytes}
use bubot_co_ap.Messages.Value.{Value, absent, str}
use bubot_co_ap.Messages.Options.{same_value}
use bubot_co_ap.Messages.Request.Fields.{get_if_match}
use bubot_co_ap.Resources.{Resource, get_etag}
use bubot_co_ap.Transaction.{Transaction}
use bubot_co_ap.Defines.Codes
use bubot_co_ap.Layers.Table.{octets, same_key}
use bubot_co_ap.Server.Directory.{Directory, lookup, register}
use bubot_co_ap.Server.Directory.Prefixes.{with_prefix}
use bubot_co_ap.Layers.ResourceLayer.{
  Parent, Handlers, Ending, Touch, await_call, plain_call, answer_with, on_rendered, take_result,
  mark_changed, update,
}

-- str(resource.etag)
unfoldable pub etag_text : Resource → Text
unfolding get_etag
etag_text r = elim (get_etag r) [ none ↦ text "None" | some b ↦ text_of_bytes b ]

-- `v in values`
unfoldable pub is_among : Value → List Value → Bool
is_among v [] = false
is_among v (w ∷ ws) = same_value w v || is_among v ws

-- `if_match and None not in if_match`
unfoldable pub must_match : List Value → Bool
unfolding is_among
must_match [] = false
must_match (v ∷ vs) = not (is_among absent (v ∷ vs))

-- `... and str(resource.etag) not in if_match`
unfoldable pub fails_match : List Value → Resource → Bool
unfolding etag_text is_among must_match
fails_match values r = must_match values && not (is_among (str (etag_text r)) values)

unfoldable pub edit_resource : Parent → Handlers → Text → Directory → Transaction → Ending
unfolding answer_with await_call on_rendered take_result mark_changed
edit_resource send_ack handlers path directory t = do
  r ← or_raise (lookup directory path) key_error
  let t' = record t { resource = some r }
  values ← get_if_match t.request
  if fails_match values (directory.resource r)
      then answer_with Codes.precondition_failed directory t'
      else (let (directory', t'', end) = await_call (handlers.render_post r) directory t' in
          on_rendered (take_result send_ack handlers mark_changed Codes.created directory' t'')
            directory' t'' end)

-- resource.path = lp; resource.changed = True; self._parent.root[resource.path] = resource
unfoldable pub place : Text → Touch
unfolding update register
place path directory r = update (λ x. record x { changed = true }) (register directory path r) r

-- The handler of the parent is not awaited.
unfoldable pub add_resource : Parent → Handlers → ℕ → Text → Directory → Transaction → Ending
unfolding plain_call on_rendered take_result place
add_resource send_ack handlers parent path directory t =
    let (directory', t', end) = plain_call (handlers.render_post parent) directory t in
    on_rendered (take_result send_ack handlers (place path) Codes.created directory' t') directory'
      t' end

-- `i == path`
abbrev pub is_same : Text → Text → Bool
is_same s t = same_key (octets s) (octets t)

-- The loop over the prefixes: whether the path itself is there, and the longest so far.
unfoldable pub longest : Text → List Text → Option Text → ℕ → Bool × Option Text
longest path [] best size = (false, best)
longest path (p ∷ ps) best size =
    let longer : Bool = ltb size (length p) in
    let rest =
      longest path ps (if longer then some p else best) (if longer then length p else size) in
    if is_same p path then (true, best) else rest

unfoldable pub create_resource : Parent → Handlers → Text → Directory → Transaction → Ending
unfolding longest edit_resource add_resource answer_with
create_resource send_ack handlers path directory t = do
  ps ← with_prefix directory.root path
  let (present, best) = longest path ps none 0
  if present then edit_resource send_ack handlers path directory t else (do
    p ← or_raise best key_error
    parent ← or_raise (lookup directory p) key_error
    if (directory.resource parent).allow_children
        then add_resource send_ack handlers parent path directory t
        else answer_with Codes.method_not_allowed directory t)
