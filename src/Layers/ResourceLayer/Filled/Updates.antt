-- ===== src/Layers/ResourceLayer/Filled/Updates.antt =====
-- resource_layer.py: PUT and the discovery answer with a code.
use bubot_co_ap.Prelude.{ℕ, refl, Option, none, some, List, [], ◌∷◌, either_branch}
use bubot_co_ap.Outcome.{
  any_exception, returns, attribute_error, type_error, Ends, Ends-bind, Any, Finishes,
  Finishes-bind,
}
use bubot_co_ap.Defines.Codes
use bubot_co_ap.Messages.Value.{Value, absent, int, bytes, to_int}
use bubot_co_ap.Messages.Message.{Message, set_code}
use bubot_co_ap.Messages.CoapOption.{CoapOption}
use bubot_co_ap.Messages.Options.{del_option_by_number}
use bubot_co_ap.Messages.Options.Values.{add_value}
use bubot_co_ap.Messages.Options.Values.Ends.{values_of-Finishes, add_value-keeps}
use bubot_co_ap.Messages.Accessors.Options.{set_etag, etag_number, etag_bytes}
use bubot_co_ap.Messages.Response.{set_max_age, del_max_age, max_age_number}
use bubot_co_ap.Messages.Request.Fields.{get_if_match, get_if_none_match, if_match_number}
use bubot_co_ap.Resources.{Resource, get_etag}
use bubot_co_ap.Transaction.{Transaction}
use bubot_co_ap.Server.Directory.{Directory}
use bubot_co_ap.Layers.ResourceLayer.{
  resource, Result, single, tuple, Rendered, gives, unimplemented, fails, Parent, Handlers,
  await_call, await_request, take_result, mark_changed, acknowledge,
}
use bubot_co_ap.Layers.ResourceLayer.Filled.{
  IsCoded, IsFilled, Fills, Acks, answer_with-Fills, on_rendered-Fills, take_result-Fills,
  acknowledge-Ends, set_code-IsCoded,
}
use bubot_co_ap.Layers.ResourceLayer.Filled.Operations.{or_raise-Fills}
use bubot_co_ap.Layers.ResourceLayer.Post.{must_match}
use bubot_co_ap.Layers.ResourceLayer.Put.{
  copy_etag, copy_max_age, describe, conclude_put, take_separate, after_callback, take_put,
  put_advanced, put_rendered, refuses_match, update_resource, call_again_request,
}

module _ (P : Message → Type 0)
    (kept : (m : Message) (os : List CoapOption) → P m → P (record m { options = os })) where
  copy_etag-keeps : (x : Resource) (m : Message) → P m → Ends any_exception P (copy_etag x m)
  unfolding copy_etag set_etag etag_bytes
  copy_etag-keeps x m h =
      elim (get_etag x)
        as (λ e.
          Ends any_exception P (elim e [ none ↦ returns m | some b ↦ set_etag m (bytes b ∷ []) ])) [
            | none ↦ h
            | some b ↦
                Ends-bind any_exception P P (add_value etag_number (bytes b) m) _
                  (add_value-keeps P kept etag_number (bytes b) m h) (λ m' h'. h')
          ]

  copy_max_age-keeps : (x : Resource) (m : Message) → P m → Ends any_exception P (copy_max_age x m)
  unfolding copy_max_age set_max_age del_max_age del_option_by_number to_int
  copy_max_age-keeps x m h =
      elim x.max_age
        as (λ a.
          Ends any_exception P (elim a [ none ↦ returns m | some n ↦ set_max_age m (int n) ])) [
            | none ↦ h
            | some n ↦ add_value-keeps P kept max_age_number (int n) (del_max_age m) (kept m _ h)
          ]

pub IsCoded-options :
    (m : Message) (os : List CoapOption)
    → IsCoded (some m)
    → IsCoded (some (record m { options = os }))
unfolding IsCoded
IsCoded-options m os h = h

pub IsCoded-payload :
    (m : Message) (v : Value) → IsCoded (some m) → IsCoded (some (record m { payload = v }))
unfolding IsCoded
IsCoded-payload m v h = h

describe-IsCoded :
    (x : Resource) (m : Message) → Ends any_exception (λ r. IsCoded (some r)) (describe x m)
unfolding describe
describe-IsCoded x m =
    let Coded = λ (r : Message). IsCoded (some r) in
    Finishes-bind Coded (copy_etag x m) _ (copy_etag-keeps Any (λ a os h. tt) x m tt) (λ m1.
      Ends-bind any_exception Coded Coded (set_code m1 (some Codes.changed)) _
        (set_code-IsCoded m1 Codes.changed)
        (λ m2 h2.
          Ends-bind any_exception Coded Coded (copy_etag x (record m2 { payload = absent })) _
            (copy_etag-keeps Coded IsCoded-options x (record m2 { payload = absent })
              (IsCoded-payload m2 absent h2))
            (λ m3 h3. copy_max_age-keeps Coded IsCoded-options x m3 h3)))

conclude_put-Fills :
    (directory : Directory) (t : Transaction) (r : ℕ) → Fills (conclude_put directory t r)
unfolding conclude_put
conclude_put-Fills directory t r = or_raise-Fills t.response attribute_error _ (λ m.
    Ends-bind any_exception (λ x. IsCoded (some x)) IsFilled (describe (directory.resource r) m) _
      (describe-IsCoded (directory.resource r) m) (λ x h. h))

take_separate-Fills :
    (directory : Directory) (t : Transaction) (result : Result)
    → Fills (take_separate directory t result)
unfolding take_separate
take_separate-Fills directory t (single (resource r)) = conclude_put-Fills directory t r
take_separate-Fills directory t _ = answer_with-Fills Codes.internal_server_error directory t

after_callback-Fills :
    (directory : Directory) (t : Transaction) (end : Rendered)
    → Fills (after_callback directory t end)
unfolding after_callback any_exception
after_callback-Fills directory t (gives r) = take_separate-Fills directory t r
after_callback-Fills directory t unimplemented = refl
after_callback-Fills directory t (fails e) = refl

module _ (send_ack : Parent) (handlers : Handlers) (acks : Acks send_ack) where
  take_put-Fills :
      (directory : Directory) (t : Transaction) (result : Result)
      → Fills (take_put send_ack handlers directory t result)
  unfolding take_put
  take_put-Fills directory t (single (resource r)) = conclude_put-Fills directory t r
  take_put-Fills directory t (tuple (x ∷ y ∷ [])) =
      Finishes-bind IsFilled (acknowledge send_ack t) _ (acknowledge-Ends send_ack handlers acks t)
        (λ t'.
          let (d, t'', end) = call_again_request handlers y directory t' in
          after_callback-Fills d t'' end)
  take_put-Fills directory t _ = answer_with-Fills Codes.internal_server_error directory t

  put_rendered-Fills :
      (r : ℕ) (directory : Directory) (t : Transaction) (end : Rendered)
      → Fills (put_rendered send_ack handlers r directory t end)
  unfolding put_rendered put_advanced any_exception
  put_rendered-Fills r directory t (gives result) = take_put-Fills directory t result
  put_rendered-Fills r directory t unimplemented =
      let (d, t', end) = await_call (handlers.render_put_advanced r) directory t in
      on_rendered-Fills (take_result send_ack handlers mark_changed Codes.changed d t') d t' end
        (take_result-Fills send_ack handlers acks mark_changed Codes.changed d t')
  put_rendered-Fills r directory t (fails e) = refl

  refuses_match-Finishes :
      (values : List Value) (directory : Directory) (r : Option ℕ)
      → Finishes (refuses_match values directory r)
  unfolding refuses_match any_exception
  refuses_match-Finishes values directory none = either_branch Finishes (must_match values) refl tt
  refuses_match-Finishes values directory (some r) = tt

  pub update_resource-Fills :
      (directory : Directory) (t : Transaction)
      → Fills (update_resource send_ack handlers directory t)
  unfolding update_resource get_if_match
  update_resource-Fills directory t =
      Finishes-bind IsFilled (get_if_match t.request) _
        (values_of-Finishes if_match_number t.request.options)
        (λ values.
          Finishes-bind IsFilled (refuses_match values directory t.resource) _
            (refuses_match-Finishes values directory t.resource)
            (λ refused.
              either_branch Fills refused (answer_with-Fills Codes.precondition_failed directory t)
                (either_branch Fills (get_if_none_match t.request)
                  (answer_with-Fills Codes.precondition_failed directory t)
                  (or_raise-Fills t.resource type_error _ (λ r.
                    let (d, t', end) = await_request (handlers.render_put r) directory t in
                    put_rendered-Fills r d t' end)))))
