-- ===== src/Layers/ObserveLayer/Observers.antt =====
-- observe_layer.py, notify: whom it names.
use bubot_co_ap.Prelude.{
  ℕ, ◌≡◌, refl, ap, sym, ◌∙◌, Bool, true, false, ◌||◌, Option, none, some, List, [], ◌∷◌, arith,
  ltb, ◌==◌, if◌then◌else◌, All, either_branch, Bool-cases, inl, inr,
}
use mathlib.Core.Path.{subst}
use bubot_co_ap.Outcome.{Exception, Ends, Ends-bind, type_error, attribute_error, or_raise}
use bubot_co_ap.Defines.Types
use bubot_co_ap.Messages.Message.{Message, set_type}
use bubot_co_ap.Transaction.{Transaction}
use bubot_co_ap.Layers.MessageLayer.{is_type}
use bubot_co_ap.Layers.ObserveLayer.{ObserveItem, ObserveLayer}
use bubot_co_ap.Layers.ObserveLayer.Notify.{
  notify, notify_one, type_notification, type_answer, is_of, max_non_notifications,
}

-- The cells of the relations whose transaction is of the resource, in their order.
unfoldable pub observers : ℕ → (ℕ → Transaction) → ObserveLayer → List ℕ
observers resource cell [] = []
observers resource cell ((k, item) ∷ layer) =
    let rest = observers resource cell layer in
    elim item.transaction [
      | none ↦ rest
      | some c ↦ if is_of resource (cell c) then c ∷ rest else rest
    ]

unfoldable pub keys : ObserveLayer → List ℕ
keys [] = []
keys ((k, item) ∷ layer) = k ∷ keys layer

abbrev pub has_response : Transaction → Bool
has_response t = elim t.response [ none ↦ false | some r ↦ true ]

-- A relation of a server: it counts, and its transaction has been answered.
pub record IsAnswered (cell : ℕ → Transaction) (item : ObserveItem) : Type 0 where
  pub number : ℕ
  pub counter : ℕ
  pub transaction_set : item.transaction ≡ some number
  pub counter_set : item.non_counter ≡ some counter
  pub response_set : has_response (cell number) ≡ true

abbrev pub AreAnswered : (ℕ → Transaction) → ObserveLayer → Type 0
AreAnswered cell layer = All (λ (e : ℕ × ObserveItem). IsAnswered cell e.1) layer

-- No exception at all.
unfoldable pub no_exception : Exception → Bool
no_exception e = false

IsNotified : ℕ → ObserveItem × Transaction → Type 0
IsNotified resource (item, t) = (is_of resource t ≡ true) × (has_response t ≡ true)

present :
    {A : Type 0} (o : Option A) (e : Exception) (a : A)
    → o ≡ some a
    → Ends no_exception (λ b. o ≡ some b) (or_raise o e)
present none e a h = absurd (cc)
present (some b) e a h = refl

response_of :
    (o : Option Message)
    → (elim o as (λ p. Bool) [ none ↦ false | some r ↦ true ]) ≡ true
    → (r : Message) × (o ≡ some r)
response_of none h = absurd (cc)
response_of (some r) h = (r, refl)

abbrev HasResponse : Transaction → Type 0
HasResponse t = has_response t ≡ true

type_answer-HasResponse :
    (t : Transaction) (n : ℕ)
    → ltb n 4 ≡ true
    → HasResponse t
    → Ends no_exception HasResponse (type_answer n t)
unfolding type_answer set_type
type_answer-HasResponse t n small answered =
    let (r, e) = response_of t.response answered in
    Ends-bind no_exception _ HasResponse (or_raise t.response attribute_error) _
      (present t.response attribute_error r e) (λ response _. rw small refl)

-- The item after a notification, with its transaction.
abbrev Typed : ObserveItem × Transaction → Type 0
Typed (item, t) = HasResponse t

type_notification-Typed :
    (item : ObserveItem) (t : Transaction) (counter : ℕ)
    → item.non_counter ≡ some counter
    → HasResponse t
    → Ends no_exception Typed (type_notification item t)
unfolding type_notification
type_notification-Typed item t counter counted answered =
    Ends-bind no_exception _ Typed (or_raise item.non_counter type_error) _
      (present item.non_counter type_error counter counted)
      (λ n _.
        either_branch (Ends no_exception Typed)
          (ltb max_non_notifications n || is_type t.request Types.con)
          (Ends-bind no_exception HasResponse Typed _ _
            (type_answer-HasResponse t Types.con refl answered) (λ t' h. h))
          (either_branch (Ends no_exception Typed) (is_type t.request Types.non)
            (Ends-bind no_exception HasResponse Typed _ _
              (type_answer-HasResponse t Types.non refl answered) (λ t' h. h))
            answered))

notify_one-IsNotified :
    (resource : ℕ) (item : ObserveItem) (t : Transaction) (counter : ℕ)
    → item.non_counter ≡ some counter
    → HasResponse t
    → Ends no_exception (IsNotified resource) (notify_one resource item t)
unfolding notify_one IsNotified
notify_one-IsNotified resource item t counter counted answered =
    Ends-bind no_exception Typed (IsNotified resource) _ _
      (type_notification-Typed item t counter counted answered)
      (λ (item', t') h.
        let (r, e) = response_of t'.response h in
        Ends-bind no_exception _ (IsNotified resource) (or_raise t'.response attribute_error) _
          (present t'.response attribute_error r e) (λ response _. (ground arith, refl)))

-- A write of an answered transaction of the resource to a cell that held one.
abbrev written : (ℕ → Transaction) → ℕ → Transaction → ℕ → Transaction
written cell c t i = if i == c then t else cell i

written-AreAnswered :
    (cell : ℕ → Transaction) (c : ℕ) (t : Transaction) (layer : ObserveLayer)
    → HasResponse t
    → AreAnswered cell layer
    → AreAnswered (written cell c t) layer
written-AreAnswered cell c t [] answered h = tt
written-AreAnswered cell c t ((k, item) ∷ layer) answered h = (
  record {
    number = h.0.number;
    counter = h.0.counter;
    transaction_set = h.0.transaction_set;
    counter_set = h.0.counter_set;
    response_set = either_branch HasResponse (h.0.number == c) answered h.0.response_set;
  },
  written-AreAnswered cell c t layer answered h.1,
)

observers-written :
    (resource : ℕ) (cell : ℕ → Transaction) (c : ℕ) (t : Transaction) (layer : ObserveLayer)
    → is_of resource t ≡ true
    → is_of resource (cell c) ≡ true
    → observers resource (written cell c t) layer ≡ observers resource cell layer
unfolding observers
observers-written resource cell c t [] new old = refl
observers-written resource cell c t ((k, item) ∷ layer) new old =
    go item.transaction _ _ (observers-written resource cell c t layer new old)
  where
    same : (i : ℕ) → is_of resource (written cell c t i) ≡ is_of resource (cell i)
    same i = ground arith

    go :
        (o : Option ℕ) (rest rest' : List ℕ)
        → rest ≡ rest'
        → Path
            (List ℕ)
            (elim o [
              | none ↦ rest
              | some d ↦ if is_of resource (written cell c t d) then d ∷ rest else rest
            ])
            (elim o [
              | none ↦ rest'
              | some d ↦ if is_of resource (cell d) then d ∷ rest' else rest'
            ])
    go none rest rest' e = e
    go (some d) rest rest' e = rw (same d, e) refl

-- The cells of all observers are named, and the relations have the keys they had.
abbrev pub IsComplete :
    ℕ → (ℕ → Transaction) → ObserveLayer → ObserveLayer × (ℕ → Transaction) × List ℕ → Type 0
IsComplete resource cell layer (layer', cell', cs) =
    (cs ≡ observers resource cell layer) × (keys layer' ≡ keys layer)

module _ (resource k : ℕ) (item : ObserveItem) (layer : ObserveLayer) (cell : ℕ → Transaction)
    (c : ℕ) (found : item.transaction ≡ some c) where
  observers_in :
      is_of resource (cell c) ≡ true
      → observers resource cell ((k, item) ∷ layer) ≡ c ∷ observers resource cell layer
  unfolding observers
  observers_in e = rw (found, e) refl

  observers_out :
      is_of resource (cell c) ≡ false
      → observers resource cell ((k, item) ∷ layer) ≡ observers resource cell layer
  unfolding observers
  observers_out e = rw (found, e) refl

notify_first :
    (resource k : ℕ) (item : ObserveItem) (layer : ObserveLayer) (cell : ℕ → Transaction)
    → AreAnswered cell ((k, item) ∷ layer)
    → ((cell' : ℕ → Transaction)
        → AreAnswered cell' layer
        → Ends no_exception (IsComplete resource cell' layer) (notify resource layer cell'))
    → Ends no_exception
        (IsComplete resource cell ((k, item) ∷ layer))
        (notify resource ((k, item) ∷ layer) cell)
unfolding notify keys IsNotified
notify_first resource k item layer cell h rec =
    let Goal = IsComplete resource cell ((k, item) ∷ layer) in
    Ends-bind no_exception _ Goal (or_raise item.transaction attribute_error) _
      (present item.transaction attribute_error h.0.number h.0.transaction_set)
      (λ c found.
        let number : h.0.number ≡ c = cc in
        let answered : HasResponse (cell c) =
          subst (λ i. HasResponse (cell i)) number h.0.response_set in
        elim (Bool-cases (is_of resource (cell c))) [
          | inl e ↦ rw e (
              Ends-bind no_exception (IsNotified resource) Goal _ _
                (notify_one-IsNotified resource item (cell c) h.0.counter h.0.counter_set answered)
                (λ (item', t) (of, ready).
                  Ends-bind no_exception (IsComplete resource (written cell c t) layer) Goal _ _
                    (rec (written cell c t) (written-AreAnswered cell c t layer ready h.1))
                    (λ (layer', cell', cs) (named, kept). (
                      ap (λ xs. c ∷ xs) (named ∙ observers-written resource cell c t layer of e)
                          ∙ sym (observers_in resource k item layer cell c found e),
                      ap (λ xs. k ∷ xs) kept,
                    ))))
          | inr e ↦ rw e (
              Ends-bind no_exception (IsComplete resource cell layer) Goal _ _ (rec cell h.1)
                (λ (layer', cell', cs) (named, kept). (
                  named ∙ sym (observers_out resource k item layer cell c found e),
                  ap (λ xs. k ∷ xs) kept,
                )))
        ])

-- When every relation counts and has a transaction that has been answered: notify raises nothing, returns
-- exactly the cells of the relations whose transaction is of the resource, in the order of the relations,
-- and keeps every relation's key.
pub notify-IsComplete :
    (resource : ℕ) (layer : ObserveLayer) (cell : ℕ → Transaction)
    → AreAnswered cell layer
    → Ends no_exception (IsComplete resource cell layer) (notify resource layer cell)
unfolding notify observers keys
notify-IsComplete resource [] cell h = (refl, refl)
notify-IsComplete resource ((k, item) ∷ layer) cell h =
    notify_first resource k item layer cell h
      (λ cell' h'. notify-IsComplete resource layer cell' h')
