-- ===== src/Layers/ResourceLayer/Filled.antt =====
-- resource_layer.py: whatever the handlers do, an answer that is there has a code.
pub mod Operations
pub mod Updates
pub mod Listing
use bubot_co_ap.Prelude.{
  ℕ, ◌≡◌, refl, Bool, true, false, Option, none, some, List, [], ◌∷◌, if◌then◌else◌, either_branch,
  either_option,
}
use bubot_co_ap.Outcome.{
  Exception, any_exception, Outcome, returns, raises, stuck, attribute_error, type_error,
  index_error, or_raise, Ends, Ends-bind, Any, or_raise-Ends, ◌>>=◌,
}
use bubot_co_ap.Text.{Text}
use bubot_co_ap.Defines.{known_code}
use bubot_co_ap.Defines.Codes
use bubot_co_ap.Messages.Message.{Message, set_code}
use bubot_co_ap.Transaction.{Transaction}
use bubot_co_ap.Server.Directory.{Directory}
use bubot_co_ap.Layers.ResourceLayer.{
  Item, resource, response, flag, callback, nothing, other, Result, single, tuple, Rendered, gives,
  unimplemented, fails, Parent, Handlers, Ending, Touch, answer_with, with_default, conclude,
  take_second, on_rendered, acknowledge, call_again, handle_separate_advanced, take_result,
  take_get, get_resource, untouched, await_call,
}

-- A response that is there has a code.
unfoldable pub IsCoded : Option Message → Type 0
IsCoded none = Unit
IsCoded (some m) = (n : ℕ) × (m.code ≡ some n)

abbrev pub IsFilled : Directory × Transaction → Type 0
IsFilled (directory, t) = IsCoded t.response

abbrev pub Fills : Ending → Type 0
Fills e = Ends any_exception IsFilled e

pub set_code-IsCoded :
    (m : Message) (n : ℕ) → Ends any_exception (λ r. IsCoded (some r)) (set_code m (some n))
unfolding set_code any_exception IsCoded
set_code-IsCoded m n =
    either_branch (Ends any_exception (λ r. IsCoded (some r))) (known_code n) (n, refl) refl

pub answer_with-Fills :
    (n : ℕ) (directory : Directory) (t : Transaction) → Fills (answer_with n directory t)
unfolding answer_with any_exception
answer_with-Fills n directory t =
    Ends-bind any_exception Any IsFilled (or_raise t.response attribute_error) _
      (or_raise-Ends any_exception Any t.response attribute_error refl (λ m e. tt))
      (λ r _.
        Ends-bind any_exception (λ m. IsCoded (some m)) IsFilled (set_code r (some n)) _
          (set_code-IsCoded r n) (λ m h. h))

pub with_default-IsCoded :
    (n : ℕ) (m : Message) → Ends any_exception (λ r. IsCoded (some r)) (with_default n m)
unfolding with_default
with_default-IsCoded n m =
    either_option (Ends any_exception (λ r. IsCoded (some r))) m.code (set_code m (some n))
      (λ c. returns m) (set_code-IsCoded m n) (unfold IsCoded in λ c e. (c, e))

pub conclude-Fills :
    (touch : Touch) (n : ℕ) (directory : Directory) (t : Transaction) (r : ℕ) (m : Message)
    → Fills (conclude touch n directory t r m)
unfolding conclude
conclude-Fills touch n directory t r m =
    Ends-bind any_exception (λ x. IsCoded (some x)) IsFilled (with_default n m) _
      (with_default-IsCoded n m) (λ x h. h)

pub take_second-Fills :
    (touch : Touch) (n : ℕ) (directory : Directory) (t : Transaction) (result : Result)
    → Fills (take_second touch n directory t result)
unfolding take_second any_exception
take_second-Fills touch n directory t (single x) = answer_with-Fills _ directory t
take_second-Fills touch n directory t (tuple []) = refl
take_second-Fills touch n directory t (tuple (resource r ∷ [])) = refl
take_second-Fills touch n directory t (tuple (resource r ∷ response m ∷ [])) =
    conclude-Fills touch n directory t r m
take_second-Fills touch n directory t (tuple (resource r ∷ response m ∷ x ∷ xs)) = refl
take_second-Fills touch n directory t (tuple (x ∷ xs)) = answer_with-Fills _ directory t

pub on_rendered-Fills :
    (f : Result → Ending) (directory : Directory) (t : Transaction) (end : Rendered)
    → ((result : Result) → Fills (f result))
    → Fills (on_rendered f directory t end)
unfolding on_rendered any_exception
on_rendered-Fills f directory t (gives r) h = h r
on_rendered-Fills f directory t unimplemented h = answer_with-Fills _ directory t
on_rendered-Fills f directory t (fails e) h = refl

-- send_ack returns or raises, for every transaction.
abbrev pub Acks : Parent → Type 0
Acks send_ack = (t : Transaction) → Ends any_exception Any (send_ack t)

module _ (send_ack : Parent) (handlers : Handlers) (acks : Acks send_ack) where
  pub acknowledge-Ends : (t : Transaction) → Ends any_exception Any (acknowledge send_ack t)
  unfolding acknowledge
  acknowledge-Ends t =
      either_branch (Ends any_exception Any) t.request.acknowledged tt
        (Ends-bind any_exception Any Any (send_ack t) _ (acks t) (λ t' _. tt))

  pub handle_separate_advanced-Fills :
      (x : Item) (take : Directory → Transaction → Result → Ending) (directory : Directory)
      (t : Transaction)
      → ((d : Directory) (t' : Transaction) (result : Result) → Fills (take d t' result))
      → Fills (handle_separate_advanced send_ack handlers x take directory t)
  unfolding handle_separate_advanced
  handle_separate_advanced-Fills x take directory t h =
      Ends-bind any_exception Any IsFilled (acknowledge send_ack t) _ (acknowledge-Ends t) (λ t' _.
        let (d, t'', end) = call_again handlers x directory t' in
        on_rendered-Fills (take d t'') d t'' end (h d t''))

  pub take_result-Fills :
      (touch : Touch) (n : ℕ) (directory : Directory) (t : Transaction) (result : Result)
      → Fills (take_result send_ack handlers touch n directory t result)
  unfolding take_result
  take_result-Fills touch n directory t (tuple (resource r ∷ response m ∷ [])) =
      conclude-Fills touch n directory t r m
  take_result-Fills touch n directory t (tuple (resource r ∷ response m ∷ x ∷ [])) =
      handle_separate_advanced-Fills x (take_second touch n) directory t (take_second-Fills touch n)
  take_result-Fills touch n directory t _ = answer_with-Fills _ directory t

  take_get-Fills :
      (directory : Directory) (t : Transaction) (result : Result)
      → Fills (take_get send_ack handlers directory t result)
  unfolding take_get IsCoded
  take_get-Fills directory t (tuple (resource r ∷ nothing ∷ [])) = tt
  take_get-Fills directory t result = take_result-Fills untouched Codes.content directory t result

  pub get_resource-Fills :
      (directory : Directory) (t : Transaction) → Fills (get_resource send_ack handlers directory t)
  unfolding get_resource
  get_resource-Fills directory t =
      Ends-bind any_exception Any IsFilled (or_raise t.resource type_error) _
        (or_raise-Ends any_exception Any t.resource type_error (unfold any_exception in refl)
          (λ r e. tt))
        (λ r _.
          let (d, t', end) = await_call (handlers.render_get r) directory t in
          on_rendered-Fills (take_get send_ack handlers d t') d t' end (take_get-Fills d t'))
