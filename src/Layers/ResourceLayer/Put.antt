-- ===== src/Layers/ResourceLayer/Put.antt =====
-- resource_layer.py: update_resource.
use bubot_co_ap.Prelude.{ℕ, Bool, false, Option, none, some, List, [], ◌∷◌, if◌then◌else◌}
use bubot_co_ap.Outcome.{
  Outcome, returns, raises, attribute_error, type_error, not_implemented_error, or_raise, ◌>>=◌,
}
use bubot_co_ap.Messages.Value.{Value, absent, int, bytes}
use bubot_co_ap.Messages.Message.{Message, set_code}
use bubot_co_ap.Messages.Accessors.Options.{set_etag}
use bubot_co_ap.Messages.Response.{set_max_age}
use bubot_co_ap.Messages.Request.Fields.{get_if_match, get_if_none_match}
use bubot_co_ap.Resources.{Resource, get_etag}
use bubot_co_ap.Transaction.{Transaction}
use bubot_co_ap.Defines.Codes
use bubot_co_ap.Server.Directory.{Directory}
use bubot_co_ap.Layers.ResourceLayer.{
  Item, resource, Result, single, tuple, Rendered, gives, unimplemented, fails, Parent, Handlers,
  Ending, await_call, answer_with, on_rendered, take_result, acknowledge, await_request, callback,
  mark_changed,
}
use bubot_co_ap.Layers.ResourceLayer.Post.{must_match, fails_match}

-- `if resource.etag is not None: transaction.response.etag = resource.etag`
unfoldable pub copy_etag : Resource → Message → Outcome Message
unfolding get_etag set_etag
copy_etag x m = elim (get_etag x) [ none ↦ returns m | some e ↦ set_etag m (bytes e ∷ []) ]

unfoldable pub copy_max_age : Resource → Message → Outcome Message
unfolding set_max_age
copy_max_age x m = elim x.max_age [ none ↦ returns m | some n ↦ set_max_age m (int n) ]

-- What the response to a PUT says of the resource: the ETag is added twice.
unfoldable pub describe : Resource → Message → Outcome Message
unfolding copy_etag copy_max_age
describe x m = do
  m ← copy_etag x m
  m ← set_code m (some Codes.changed)
  m ← copy_etag x (record m { payload = absent })
  copy_max_age x m

unfoldable pub conclude_put : Directory → Transaction → ℕ → Ending
unfolding describe mark_changed
conclude_put directory t r = do
  m ← or_raise t.response attribute_error
  m ← describe (directory.resource r) m
  returns (mark_changed directory r, record t { resource = some r; response = some m })

-- What the callback of _handle_separate gives has to be a Resource.
unfoldable pub take_separate : Directory → Transaction → Result → Ending
unfolding conclude_put answer_with
take_separate directory t (single (resource r)) = conclude_put directory t r
take_separate directory t _ = answer_with Codes.internal_server_error directory t

-- The callback is called outside of the try block: NotImplementedError is not caught.
unfoldable pub after_callback : Directory → Transaction → Rendered → Ending
unfolding take_separate
after_callback directory t (gives r) = take_separate directory t r
after_callback directory t unimplemented = raises not_implemented_error
after_callback directory t (fails e) = raises e

-- _handle_separate: the callback is given the request alone.
unfoldable pub call_again_request :
    Handlers → Item → Directory → Transaction → Directory × Transaction × Rendered
unfolding await_request
call_again_request handlers (callback c) directory t =
    await_request (handlers.called_back c) directory t
call_again_request handlers x directory t = (directory, t, fails type_error)

-- The result of render_PUT: a Resource, or a pair with a callback.
unfoldable pub take_put : Parent → Handlers → Directory → Transaction → Result → Ending
unfolding conclude_put acknowledge call_again_request after_callback answer_with
take_put send_ack handlers directory t (single (resource r)) = conclude_put directory t r
take_put send_ack handlers directory t (tuple (x ∷ y ∷ [])) = do
  t' ← acknowledge send_ack t
  let (directory', t'', end) = call_again_request handlers y directory t'
  after_callback directory' t'' end
take_put send_ack handlers directory t _ = answer_with Codes.internal_server_error directory t

-- `except NotImplementedError`: the advanced handler.
unfoldable pub put_advanced : Parent → Handlers → ℕ → Directory → Transaction → Ending
unfolding await_call on_rendered take_result mark_changed
put_advanced send_ack handlers r directory t =
    let (directory', t', end) = await_call (handlers.render_put_advanced r) directory t in
    on_rendered (take_result send_ack handlers mark_changed Codes.changed directory' t') directory'
      t' end

unfoldable pub put_rendered : Parent → Handlers → ℕ → Directory → Transaction → Rendered → Ending
unfolding take_put put_advanced
put_rendered send_ack handlers r directory t (gives result) =
    take_put send_ack handlers directory t result
put_rendered send_ack handlers r directory t unimplemented =
    put_advanced send_ack handlers r directory t
put_rendered send_ack handlers r directory t (fails e) = raises e

-- None has no ETag.
unfoldable pub refuses_match : List Value → Directory → Option ℕ → Outcome Bool
unfolding must_match fails_match
refuses_match values directory none =
    if must_match values then raises attribute_error else returns false
refuses_match values directory (some r) = returns (fails_match values (directory.resource r))

-- render_PUT is not given the response.
unfoldable pub update_resource : Parent → Handlers → Directory → Transaction → Ending
unfolding put_rendered await_request answer_with
update_resource send_ack handlers directory t = do
  values ← get_if_match t.request
  refused ← refuses_match values directory t.resource
  if refused
      then answer_with Codes.precondition_failed directory t
      else if get_if_none_match t.request
      then answer_with Codes.precondition_failed directory t
      else (do
        r ← or_raise t.resource type_error
        let (directory', t', end) = await_request (handlers.render_put r) directory t
        put_rendered send_ack handlers r directory' t' end)
