-- ===== src/Layers/ResourceLayer/Delete.antt =====
-- resource_layer.py: delete_resource.
use bubot_co_ap.Prelude.{Bool, true, false, some, [], ◌∷◌}
use bubot_co_ap.Outcome.{
  Outcome, returns, raises, index_error, key_error, value_error, type_error, or_raise, ◌>>=◌,
}
use bubot_co_ap.Text.{Text}
use bubot_co_ap.Messages.Message.{Message}
use bubot_co_ap.Transaction.{Transaction}
use bubot_co_ap.Defines.Codes
use bubot_co_ap.Layers.Table
use bubot_co_ap.Layers.Table.{octets}
use bubot_co_ap.Server.Directory.{Directory, lookup}
use bubot_co_ap.Layers.ResourceLayer.{
  resource, response, flag, Result, single, tuple, Parent, Handlers, Ending, await_call,
  answer_with, with_default, on_rendered, handle_separate_advanced,
}

-- `if delete: del self._parent.root[path]`
unfoldable pub remove_if : Bool → Text → Directory → Outcome Directory
remove_if false path directory = returns directory
remove_if true path directory = do
  r ← or_raise (lookup directory path) key_error
  returns (record directory { root = Table.remove directory.root (octets path) })

unfoldable pub conclude_delete : Text → Directory → Transaction → Bool → Message → Ending
unfolding remove_if with_default
conclude_delete path directory t delete m = do
  directory' ← remove_if delete path directory
  m' ← with_default Codes.deleted m
  returns (directory', record t { response = some m' })

-- The result of the callback: a bool and a Response.
unfoldable pub take_second_delete : Text → Directory → Transaction → Result → Ending
unfolding conclude_delete answer_with
take_second_delete path directory t (single x) = answer_with Codes.internal_server_error directory t
take_second_delete path directory t (tuple []) = raises index_error
take_second_delete path directory t (tuple (flag b ∷ [])) = raises index_error
take_second_delete path directory t (tuple (flag b ∷ response m ∷ [])) =
    conclude_delete path directory t b m
take_second_delete path directory t (tuple (flag b ∷ response m ∷ x ∷ xs)) = raises value_error
take_second_delete path directory t (tuple (x ∷ xs)) =
    answer_with Codes.internal_server_error directory t

-- A pair of a bool and a Response, or a Resource, a Response and a callback.
unfoldable pub take_delete : Parent → Handlers → Text → Directory → Transaction → Result → Ending
unfolding conclude_delete take_second_delete handle_separate_advanced answer_with
take_delete send_ack handlers path directory t (tuple (flag b ∷ response m ∷ [])) =
    conclude_delete path directory t b m
take_delete send_ack handlers path directory t (tuple (resource r ∷ response m ∷ x ∷ [])) =
    handle_separate_advanced send_ack handlers x (take_second_delete path) directory t
take_delete send_ack handlers path directory t _ = answer_with Codes.method_not_allowed directory t

-- What stands behind the try statement is not reached: all of its ends return.
unfoldable pub delete_resource : Parent → Handlers → Text → Directory → Transaction → Ending
unfolding take_delete await_call on_rendered
delete_resource send_ack handlers path directory t = do
  r ← or_raise t.resource type_error
  let (directory', t', end) = await_call (handlers.render_delete r) directory t
  on_rendered (take_delete send_ack handlers path directory' t') directory' t' end
