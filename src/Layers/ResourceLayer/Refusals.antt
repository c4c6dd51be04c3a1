-- ===== src/Layers/ResourceLayer/Refusals.antt =====
-- resource_layer.py with resource.py: what the layer refuses.
use bubot_co_ap.Prelude.{ℕ, ◌≡◌, refl, true, false, some, List, [], ◌∷◌, All}
use bubot_co_ap.Outcome.{returns, raises, type_error}
use bubot_co_ap.Text.{Text}
use bubot_co_ap.Defines.{known_code}
use bubot_co_ap.Defines.Codes
use bubot_co_ap.Messages.Value.{Value, absent, str, bytes}
use bubot_co_ap.Messages.Message.{Message, set_code}
use bubot_co_ap.Messages.Options.{same_value}
use bubot_co_ap.Messages.Request.Fields.{get_if_match, get_if_none_match}
use bubot_co_ap.Resources.{Resource}
use bubot_co_ap.Transaction.{Transaction}
use bubot_co_ap.Server.Directory.{Directory, lookup}
use bubot_co_ap.Layers.ResourceLayer.{
  Parameters, request_and_response, not_callable, accepts, Rendered, unimplemented, Render,
  Handlers, Parent, answer_with, plain_call, get_resource,
}
use bubot_co_ap.Layers.ResourceLayer.Post.{
  is_among, must_match, fails_match, edit_resource, add_resource, etag_text,
}
use bubot_co_ap.Layers.ResourceLayer.Put.{update_resource, refuses_match}
use bubot_co_ap.Layers.ResourceLayer.Delete.{delete_resource}

-- A function that does nothing and ends so.
unfoldable pub ends_so : Parameters → Rendered → Render
ends_so parameters end = record {
  parameters = parameters;
  is_async = false;
  run = λ directory request response. record {
    directory = directory;
    request = request;
    response = response;
    rendered = end;
  };
}

-- The methods of the class Resource take the request and the response, and raise NotImplementedError; the
-- class has no render_PUT_advanced. They return no functions that could be called again.
unfoldable pub resource_class : Handlers
unfolding ends_so
resource_class = record {
  render_get = λ r. ends_so request_and_response unimplemented;
  render_put = λ r. ends_so request_and_response unimplemented;
  render_put_advanced = λ r. ends_so not_callable unimplemented;
  render_post = λ r. ends_so request_and_response unimplemented;
  render_delete = λ r. ends_so request_and_response unimplemented;
  called_back = λ c. ends_so not_callable unimplemented;
}

-- The transaction answered with a code.
abbrev pub answered : ℕ → Transaction → Message → Transaction
answered code t m = record t { response = some (record m { code = some code }) }

-- Of a resource whose class defines no handler: GET and DELETE answer with METHOD_NOT_ALLOWED, and
-- change nothing else; PUT, without If-Match and If-None-Match, raises TypeError.
pub resource_class_refuses :
    (send_ack : Parent) (path : Text) (directory : Directory) (t : Transaction) (r : ℕ)
    (m : Message)
    → t.resource ≡ some r
    → t.response ≡ some m
    → get_if_match t.request ≡ returns []
    → get_if_none_match t.request ≡ false
    → (get_resource send_ack resource_class directory t
        ≡ returns (directory, answered Codes.method_not_allowed t m))
      × (delete_resource send_ack resource_class path directory t
          ≡ returns (directory, answered Codes.method_not_allowed t m))
      × (update_resource send_ack resource_class directory t ≡ raises type_error)
unfolding resource_class get_resource delete_resource update_resource set_code known_code
    refuses_match
resource_class_refuses send_ack path directory t r m found answer unmatched unconditional =
    (rw (found, answer) refl, rw (found, answer) refl, rw (unmatched, found, unconditional) refl)

-- Values that are bytes objects, as those of an opaque option are.
abbrev pub AreBytes : List Value → Type 0
AreBytes vs = All (λ v. (b : List ℕ) × (v ≡ bytes b)) vs

is_among-absent : (vs : List Value) → AreBytes vs → is_among absent vs ≡ false
unfolding is_among same_value
is_among-absent [] h = refl
is_among-absent (v ∷ vs) ((b, e), h) = rw (e, is_among-absent vs h) refl

is_among-str : (s : Text) (vs : List Value) → AreBytes vs → is_among (str s) vs ≡ false
unfolding is_among same_value
is_among-str s [] h = refl
is_among-str s (v ∷ vs) ((b, e), h) = rw (e, is_among-str s vs h) refl

pub fails_match-AreBytes :
    (v : Value) (vs : List Value) (x : Resource) → AreBytes (v ∷ vs) → fails_match (v ∷ vs) x ≡ true
unfolding fails_match must_match
fails_match-AreBytes v vs x h =
    rw (is_among-absent (v ∷ vs) h, is_among-str (etag_text x) (v ∷ vs) h) refl

refused :
    (directory : Directory) (r : ℕ) (v : Value) (vs : List Value)
    → AreBytes (v ∷ vs)
    → refuses_match (v ∷ vs) directory (some r) ≡ returns true
unfolding refuses_match
refused directory r v vs h = rw (fails_match-AreBytes v vs (directory.resource r) h) refl

-- A request with an If-Match of bytes is refused: whatever the ETag of the resource is, PUT and the POST
-- to a resource answer with PRECONDITION_FAILED, and no handler is called.
pub if_match_refused :
    (send_ack : Parent) (handlers : Handlers) (path : Text) (directory : Directory)
    (t : Transaction) (r : ℕ) (v : Value) (vs : List Value)
    → get_if_match t.request ≡ returns (v ∷ vs)
    → AreBytes (v ∷ vs)
    → t.resource ≡ some r
    → lookup directory path ≡ some r
    → (update_resource send_ack handlers directory t
        ≡ answer_with Codes.precondition_failed directory t)
      × (edit_resource send_ack handlers path directory t
          ≡ answer_with Codes.precondition_failed directory (record t { resource = some r }))
unfolding update_resource edit_resource
if_match_refused send_ack handlers path directory t r v vs given are_bytes found there =
    let fails = fails_match-AreBytes v vs (directory.resource r) are_bytes in
    (rw (given, found, refused directory r v vs are_bytes) refl, rw (there, given, fails) refl)

-- A POST for a new resource whose parent's handler takes the request and the response and is an async function answers METHOD_NOT_ALLOWED, and
-- the handler does not run.
pub add_resource_async :
    (send_ack : Parent) (handlers : Handlers) (parent : ℕ) (path : Text) (directory : Directory)
    (t : Transaction)
    → accepts (handlers.render_post parent).parameters true ≡ true
    → (handlers.render_post parent).is_async ≡ true
    → add_resource send_ack handlers parent path directory t
      ≡ answer_with Codes.method_not_allowed directory t
unfolding add_resource
add_resource_async send_ack handlers parent path directory t fits h = rw (fits, h, plain_call) refl
