-- ===== src/Layers/ResourceLayer.antt =====
-- src/Bubot_CoAP/layers/resource_layer.py: what the handlers of a resource, which the user of the library
-- writes, make of a request. They are a parameter, and so is send_ack of the server.
pub mod Post
pub mod Put
pub mod Delete
pub mod Discovery
pub mod Filled
pub mod Contract
pub mod Parents
pub mod Refusals
pub mod Unhandled
use bubot_co_ap.Prelude.{
  ℕ, ◌+◌, Bool, true, false, Option, none, some, List, [], ◌∷◌, ◌==◌, if◌then◌else◌, not,
}
use bubot_co_ap.Outcome.{
  Exception, Outcome, returns, raises, attribute_error, type_error, index_error, value_error,
  or_raise, ◌>>=◌,
}
use bubot_co_ap.Messages.Message.{Message, set_code}
use bubot_co_ap.Resources.{Resource, set_observe_count}
use bubot_co_ap.Transaction.{Transaction}
use bubot_co_ap.Defines.Codes
use bubot_co_ap.Server.Directory.{Directory}

-- What stands in what a handler returns: a Resource, by the number of its object, a Response, a bool, a
-- function that is called again, or any other object.
pub data Item : Type 0 where
  resource : ℕ → Item
  response : Message → Item
  flag : Bool → Item
  callback : ℕ → Item
  nothing : Item
  other : Item

pub data Result : Type 0 where
  single : Item → Result
  tuple : List Item → Result

-- A call returns, raises NotImplementedError, or raises another exception.
pub data Rendered : Type 0 where
  gives : Result → Rendered
  unimplemented : Rendered
  fails : Exception → Rendered

-- What the call leaves: the resources, the request and the response of the transaction, and its end.
pub record Answer : Type 0 where
  pub directory : Directory
  pub request : Message
  pub response : Option Message
  pub rendered : Rendered

-- The arguments that a function has to be given. `getattr` gives None where an object has no such method,
-- and None cannot be called.
pub data Parameters : Type 0 where
  request_only request_and_response any_arguments not_callable : Parameters

-- Whether a call with the request, and with the response or without, fits.
unfoldable pub accepts : Parameters → Bool → Bool
accepts request_only with_response = not with_response
accepts request_and_response with_response = with_response
accepts any_arguments with_response = true
accepts not_callable with_response = false

-- A function of the user, async or not.
pub record Render : Type 0 where
  pub parameters : Parameters
  pub is_async : Bool
  pub run : Directory → Message → Option Message → Answer

-- The methods of the resource objects, by number, and the functions that a handler returns.
pub record Handlers : Type 0 where
  pub render_get : ℕ → Render
  pub render_put : ℕ → Render
  pub render_put_advanced : ℕ → Render
  pub render_post : ℕ → Render
  pub render_delete : ℕ → Render
  pub called_back : ℕ → Render

-- The server, as far as the layer calls it.
abbrev pub Parent : Type 0
Parent = Transaction → Outcome Transaction

abbrev pub Ending : Type 0
Ending = Outcome (Directory × Transaction)

-- `await f(...)`: what a function that is not async returns cannot be awaited.
unfoldable pub awaited : Bool → Rendered → Rendered
awaited true r = r
awaited false (gives r) = fails type_error
awaited false unimplemented = unimplemented
awaited false (fails e) = fails e

unfoldable pub await_call : Render → Directory → Transaction → Directory × Transaction × Rendered
unfolding awaited accepts
await_call f directory t =
    let a = f.run directory t.request t.response in
    if accepts f.parameters true
    then (
      a.directory,
      record t { request = a.request; response = a.response },
      awaited f.is_async a.rendered,
    )
    else (directory, t, fails type_error)

-- The same with the request as the only argument.
unfoldable pub await_request : Render → Directory → Transaction → Directory × Transaction × Rendered
unfolding awaited accepts
await_request f directory t =
    let a = f.run directory t.request none in
    if accepts f.parameters false
    then (a.directory, record t { request = a.request }, awaited f.is_async a.rendered)
    else (directory, t, fails type_error)

-- `f(...)` alone: an async function only makes a coroutine.
unfoldable pub plain_call : Render → Directory → Transaction → Directory × Transaction × Rendered
unfolding accepts
plain_call f directory t =
    let a = f.run directory t.request t.response in
    if not (accepts f.parameters true)
    then (directory, t, fails type_error)
    else if f.is_async
    then (directory, t, gives (single other))
    else (a.directory, record t { request = a.request; response = a.response }, a.rendered)

-- `transaction.response.code = code; return transaction`
unfoldable pub answer_with : ℕ → Directory → Transaction → Ending
answer_with code directory t = do
  r ← or_raise t.response attribute_error
  r ← set_code r (some code)
  returns (directory, record t { response = some r })

-- `if transaction.response.code is None: transaction.response.code = code`
unfoldable pub with_default : ℕ → Message → Outcome Message
with_default code m = elim m.code [ none ↦ set_code m (some code) | some c ↦ returns m ]

-- What is done to the resource that is returned.
abbrev pub Touch : Type 0
Touch = Directory → ℕ → Directory

abbrev pub untouched : Touch
untouched directory r = directory

unfoldable pub update : (Resource → Resource) → Touch
update f directory r = record directory {
  resource = λ i. if i == r then f (directory.resource i) else directory.resource i;
}

-- resource.changed = True; resource.observe_count += 1
unfoldable pub mark_changed : Touch
unfolding update set_observe_count
mark_changed directory r =
    update (λ x. set_observe_count (record x { changed = true }) (x.observe_count + 1)) directory r

-- `resource, response = ret` and what follows it.
unfoldable pub conclude : Touch → ℕ → Directory → Transaction → ℕ → Message → Ending
unfolding with_default
conclude touch code directory t r m = do
  m' ← with_default code m
  returns (touch directory r, record t { resource = some r; response = some m' })

-- The result of the callback: a tuple that begins with a Resource and a Response has two elements.
unfoldable pub take_second : Touch → ℕ → Directory → Transaction → Result → Ending
unfolding conclude answer_with
take_second touch code directory t (single x) = answer_with Codes.internal_server_error directory t
take_second touch code directory t (tuple []) = raises index_error
take_second touch code directory t (tuple (resource r ∷ [])) = raises index_error
take_second touch code directory t (tuple (resource r ∷ response m ∷ [])) =
    conclude touch code directory t r m
take_second touch code directory t (tuple (resource r ∷ response m ∷ x ∷ xs)) = raises value_error
take_second touch code directory t (tuple (x ∷ xs)) =
    answer_with Codes.internal_server_error directory t

-- The end of the try block, whose handler answers METHOD_NOT_ALLOWED.
unfoldable pub on_rendered : (Result → Ending) → Directory → Transaction → Rendered → Ending
unfolding answer_with
on_rendered f directory t (gives r) = f r
on_rendered f directory t unimplemented = answer_with Codes.method_not_allowed directory t
on_rendered f directory t (fails e) = raises e

-- `if not transaction.request.acknowledged`
unfoldable pub acknowledge : Parent → Transaction → Outcome Transaction
acknowledge send_ack t = if t.request.acknowledged then returns t else (do
  t' ← send_ack t
  returns (record t' { request = record t'.request { acknowledged = true } }))

unfoldable pub call_again :
    Handlers → Item → Directory → Transaction → Directory × Transaction × Rendered
unfolding await_call
call_again handlers (callback c) directory t = await_call (handlers.called_back c) directory t
call_again handlers x directory t = (directory, t, fails type_error)

-- _handle_separate_advanced, and what is done with its result.
unfoldable pub handle_separate_advanced :
    Parent
    → Handlers
    → Item
    → (Directory → Transaction → Result → Ending)
    → Directory
    → Transaction
    → Ending
unfolding acknowledge call_again on_rendered
handle_separate_advanced send_ack handlers x take directory t = do
  t' ← acknowledge send_ack t
  let (directory', t'', end) = call_again handlers x directory t'
  on_rendered (take directory' t'') directory' t'' end

-- What POST, PUT and GET make of the result of a handler.
unfoldable pub take_result :
    Parent → Handlers → Touch → ℕ → Directory → Transaction → Result → Ending
unfolding conclude take_second handle_separate_advanced answer_with
take_result send_ack handlers touch code directory t (tuple (resource r ∷ response m ∷ [])) =
    conclude touch code directory t r m
take_result send_ack handlers touch code directory t (tuple (resource r ∷ response m ∷ x ∷ [])) =
    handle_separate_advanced send_ack handlers x (take_second touch code) directory t
take_result send_ack handlers touch code directory t _ =
    answer_with Codes.method_not_allowed directory t

-- get_resource: a handler may return None for the response.
unfoldable pub take_get : Parent → Handlers → Directory → Transaction → Result → Ending
unfolding take_result
take_get send_ack handlers directory t (tuple (resource r ∷ nothing ∷ [])) =
    returns (directory, record t { resource = some r; response = none })
take_get send_ack handlers directory t result =
    take_result send_ack handlers untouched Codes.content directory t result

-- The handler of `transaction.resource`; None has no method, and calling None is a TypeError.
unfoldable pub get_resource : Parent → Handlers → Directory → Transaction → Ending
unfolding await_call take_get on_rendered
get_resource send_ack handlers directory t = do
  r ← or_raise t.resource type_error
  let (directory', t', end) = await_call (handlers.render_get r) directory t
  on_rendered (take_get send_ack handlers directory' t') directory' t' end
