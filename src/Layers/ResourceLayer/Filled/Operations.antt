-- ===== src/Layers/ResourceLayer/Filled/Operations.antt =====
-- resource_layer.py: the operations for POST, PUT, DELETE and the discovery answer with a code.
use bubot_co_ap.Prelude.{ℕ, refl, Bool, true, false, Option, none, some, [], ◌∷◌, either_branch}
use bubot_co_ap.Outcome.{
  Exception, any_exception, returns, raises, type_error, key_error, or_raise, Ends, Ends-bind, Any,
  or_raise-Ends, Finishes, Finishes-bind, ◌>>=◌,
}
use bubot_co_ap.Text.{Text}
use bubot_co_ap.Messages.Options.Values.Ends.{values_of-Finishes}
use bubot_co_ap.Messages.Request.Fields.{get_if_match, if_match_number}
use bubot_co_ap.Messages.Message.{Message}
use bubot_co_ap.Transaction.{Transaction}
use bubot_co_ap.Server.Directory.{Directory, Tree, lookup}
use bubot_co_ap.Server.Directory.Prefixes.{with_prefix, prefixes, paths}
use bubot_co_ap.Defines.Codes
use bubot_co_ap.Layers.ResourceLayer.{
  resource, response, flag, Result, single, tuple, Parent, Handlers, Ending, await_call, plain_call,
  take_result, mark_changed, with_default,
}
use bubot_co_ap.Layers.ResourceLayer.Filled.{
  IsCoded, IsFilled, Fills, Acks, answer_with-Fills, on_rendered-Fills, take_result-Fills,
  handle_separate_advanced-Fills, with_default-IsCoded,
}
use bubot_co_ap.Layers.ResourceLayer.Post.{
  edit_resource, add_resource, create_resource, place, fails_match, longest,
}
use bubot_co_ap.Layers.ResourceLayer.Delete.{
  remove_if, conclude_delete, take_second_delete, take_delete, delete_resource,
}

-- A value that is looked up first, and an operation that answers with a code.
pub or_raise-Fills {ℓ} :
    {A : Type ℓ} (o : Option A) (e : Exception) (f : A → Ending)
    → ((a : A) → Fills (f a))
    → Fills (or_raise o e >>= f)
unfolding any_exception
or_raise-Fills none e f h = refl
or_raise-Fills (some a) e f h = h a

remove_if-Ends :
    (delete : Bool) (path : Text) (directory : Directory)
    → Ends any_exception Any (remove_if delete path directory)
unfolding remove_if any_exception
remove_if-Ends false path directory = tt
remove_if-Ends true path directory =
    Ends-bind any_exception Any Any (or_raise (lookup directory path) key_error) _
      (or_raise-Ends any_exception Any (lookup directory path) key_error refl (λ r e. tt))
      (λ r _. tt)

conclude_delete-Fills :
    (path : Text) (directory : Directory) (t : Transaction) (delete : Bool) (m : Message)
    → Fills (conclude_delete path directory t delete m)
unfolding conclude_delete
conclude_delete-Fills path directory t delete m =
    Ends-bind any_exception Any IsFilled (remove_if delete path directory) _
      (remove_if-Ends delete path directory)
      (λ d _.
        Ends-bind any_exception (λ x. IsCoded (some x)) IsFilled (with_default Codes.deleted m) _
          (with_default-IsCoded Codes.deleted m) (λ x h. h))

take_second_delete-Fills :
    (path : Text) (directory : Directory) (t : Transaction) (result : Result)
    → Fills (take_second_delete path directory t result)
unfolding take_second_delete any_exception
take_second_delete-Fills path directory t (single x) =
    answer_with-Fills Codes.internal_server_error directory t
take_second_delete-Fills path directory t (tuple []) = refl
take_second_delete-Fills path directory t (tuple (flag b ∷ [])) = refl
take_second_delete-Fills path directory t (tuple (flag b ∷ response m ∷ [])) =
    conclude_delete-Fills path directory t b m
take_second_delete-Fills path directory t (tuple (flag b ∷ response m ∷ x ∷ xs)) = refl
take_second_delete-Fills path directory t (tuple (x ∷ xs)) =
    answer_with-Fills Codes.internal_server_error directory t

with_prefix-Finishes : (tree : Tree) (path : Text) → Finishes (with_prefix tree path)
unfolding with_prefix any_exception
with_prefix-Finishes tree path =
    elim (prefixes path (paths tree))
      as (λ ps. Finishes (elim ps [ [] ↦ raises key_error | p ∷ ps' ↦ returns (p ∷ ps') ])) [
        | [] ↦ refl
        | p ∷ ps ↦ tt
      ]

module _ (send_ack : Parent) (handlers : Handlers) (acks : Acks send_ack) where
  take_delete-Fills :
      (path : Text) (directory : Directory) (t : Transaction) (result : Result)
      → Fills (take_delete send_ack handlers path directory t result)
  unfolding take_delete
  take_delete-Fills path directory t (tuple (flag b ∷ response m ∷ [])) =
      conclude_delete-Fills path directory t b m
  take_delete-Fills path directory t (tuple (resource r ∷ response m ∷ x ∷ [])) =
      handle_separate_advanced-Fills send_ack handlers acks x (take_second_delete path) directory t
        (take_second_delete-Fills path)
  take_delete-Fills path directory t _ = answer_with-Fills Codes.method_not_allowed directory t

  pub delete_resource-Fills :
      (path : Text) (directory : Directory) (t : Transaction)
      → Fills (delete_resource send_ack handlers path directory t)
  unfolding delete_resource
  delete_resource-Fills path directory t = or_raise-Fills t.resource type_error _ (λ r.
      let (d, t', end) = await_call (handlers.render_delete r) directory t in
      on_rendered-Fills (take_delete send_ack handlers path d t') d t' end
        (take_delete-Fills path d t'))

  edit_resource-Fills :
      (path : Text) (directory : Directory) (t : Transaction)
      → Fills (edit_resource send_ack handlers path directory t)
  unfolding edit_resource get_if_match
  edit_resource-Fills path directory t = or_raise-Fills (lookup directory path) key_error _ (λ r.
      let t' = record t { resource = some r } in
      Finishes-bind IsFilled (get_if_match t.request) _
        (values_of-Finishes if_match_number t.request.options)
        (λ values.
          let (d, t'', end) = await_call (handlers.render_post r) directory t' in
          either_branch Fills (fails_match values (directory.resource r))
            (answer_with-Fills Codes.precondition_failed directory t')
            (on_rendered-Fills (take_result send_ack handlers mark_changed Codes.created d t'') d
              t'' end (take_result-Fills send_ack handlers acks mark_changed Codes.created d t''))))

  add_resource-Fills :
      (parent : ℕ) (path : Text) (directory : Directory) (t : Transaction)
      → Fills (add_resource send_ack handlers parent path directory t)
  unfolding add_resource
  add_resource-Fills parent path directory t =
      let (d, t', end) = plain_call (handlers.render_post parent) directory t in
      on_rendered-Fills (take_result send_ack handlers (place path) Codes.created d t') d t' end
        (take_result-Fills send_ack handlers acks (place path) Codes.created d t')

  pub create_resource-Fills :
      (path : Text) (directory : Directory) (t : Transaction)
      → Fills (create_resource send_ack handlers path directory t)
  unfolding create_resource
  create_resource-Fills path directory t =
      Finishes-bind IsFilled (with_prefix directory.root path) _
        (with_prefix-Finishes directory.root path)
        (λ ps.
          let (present, best) = longest path ps none 0 in
          either_branch Fills present (edit_resource-Fills path directory t) (
            or_raise-Fills best key_error _ (λ p.
              or_raise-Fills (lookup directory p) key_error _ (λ parent.
                either_branch Fills (directory.resource parent).allow_children
                  (add_resource-Fills parent path directory t)
                  (answer_with-Fills Codes.method_not_allowed directory t)))))
