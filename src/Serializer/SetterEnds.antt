-- ===== src/Serializer/SetterEnds.antt =====
-- messages/message.py: how the setters that deserialize calls end.
use bubot_co_ap.Prelude.{
  ℕ, refl, Bool, true, false, Option, none, some, List, length, ltb, inl, inr, Bool-cases,
  if◌then◌else◌,
}
use bubot_co_ap.Outcome.{returns, raises, attribute_error}
use bubot_co_ap.Defines.{known_code}
use bubot_co_ap.Messages.Message.{Kind, Message, new_message, set_mid, set_token, set_code}
use bubot_co_ap.Serializer.Ends.{Ends, is_caused, Any}

pub guarded {ℓ} :
    {A : Type ℓ} (b : Bool) (a : A)
    → Ends is_caused Any (if b then returns a else raises attribute_error)
unfolding is_caused
guarded true a = tt
guarded false a = refl

pub set_token-Ends :
    (fresh : List ℕ) (m : Message) (t : Option (List ℕ)) → Ends is_caused Any (set_token fresh m t)
unfolding set_token is_caused
set_token-Ends fresh m none = tt
set_token-Ends fresh m (some t) = elim (Bool-cases (ltb 256 (length t))) [
  | inl h ↦ rw h refl
  | inr h ↦ rw h tt
]

pub set_mid-Ends : (m : Message) (v : ℕ) → Ends is_caused Any (set_mid m (some v))
unfolding set_mid is_caused
set_mid-Ends m v = elim (Bool-cases (ltb 65536 v)) [ inl h ↦ rw h refl | inr h ↦ rw h tt ]

pub set_code-Ends :
    (k : Kind) (code : ℕ) → Ends is_caused Any (set_code (new_message k) (some code))
unfolding set_code is_caused
set_code-Ends k code = elim (Bool-cases (known_code code)) [ inl h ↦ rw h tt | inr h ↦ rw h refl ]
