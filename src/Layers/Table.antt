-- ===== src/Layers/Table.antt =====
-- The dicts of the message and the callback layer, whose keys are hashes, message ids and tokens.
use bubot_co_ap.Prelude.{
  ℕ, ◌≡◌, refl, Bool, true, false, ◌&&◌, ◌↔◌, Option, none, some, List, [], ◌∷◌, arith, ◌==◌,
  if◌then◌else◌,
}

-- An int, a bytes object or None; a hash and a message id are both ints.
pub data Key : Type 0 where
  int : ℕ → Key
  octets : List ℕ → Key
  nothing : Key

same_bytes : List ℕ → List ℕ → Bool
same_bytes [] [] = true
same_bytes (a ∷ s) (b ∷ t) = a == b && same_bytes s t
same_bytes _ _ = false

same_bytes_iff : (s t : List ℕ) → (same_bytes s t ≡ true) ↔ (s ≡ t)
unfolding same_bytes
same_bytes_iff [] [] = ground arith
same_bytes_iff [] (b ∷ t) = ground arith
same_bytes_iff (a ∷ s) [] = ground arith
same_bytes_iff (a ∷ s) (b ∷ t) = ground (arith, same_bytes_iff s t)

unfoldable pub same_key : Key → Key → Bool
unfolding same_bytes
same_key (int a) (int b) = a == b
same_key (octets s) (octets t) = same_bytes s t
same_key nothing nothing = true
same_key _ _ = false

pub same_key_iff : (a b : Key) → (same_key a b ≡ true) ↔ (a ≡ b)
unfolding same_key
same_key_iff (int a) (int b) = ground arith
same_key_iff (octets s) (octets t) = ground (arith, same_bytes_iff s t)
same_key_iff nothing nothing = ground arith
same_key_iff (int a) (octets t) = ground arith
same_key_iff (int a) nothing = ground arith
same_key_iff (octets s) (int b) = ground arith
same_key_iff (octets s) nothing = ground arith
same_key_iff nothing (int b) = ground arith
same_key_iff nothing (octets t) = ground arith

pub same_key_self : (k : Key) → same_key k k ≡ true
same_key_self k = (same_key_iff k k).1 refl

abbrev pub Table {ℓ} : Type ℓ → Type ℓ
Table V = List (Key × V)

module _ {ℓ} {V : Type ℓ} where
  -- t.get(k)
  unfoldable pub get : Table V → Key → Option V
  get [] k = none
  get ((j, v) ∷ t) k = if same_key j k then some v else get t k

  -- t[k] = v
  unfoldable pub put : Table V → Key → V → Table V
  put [] k v = (k, v) ∷ []
  put ((j, w) ∷ t) k v = if same_key j k then (j, v) ∷ t else (j, w) ∷ put t k v

  -- t.pop(k, None)
  unfoldable pub remove : Table V → Key → Table V
  remove [] k = []
  remove ((j, w) ∷ t) k = let rest = remove t k in if same_key j k then rest else (j, w) ∷ rest

  pub get-put :
      (t : Table V) (k j : Key) (v : V)
      → get (put t k v) j ≡ (if same_key k j then some v else get t j)
  unfolding get put
  get-put [] k j v = refl
  get-put ((i, w) ∷ t) k j v =
      ground (arith, same_key_iff k j, same_key_iff i k, same_key_iff i j, get-put t k j v)

  pub get-put_self : (t : Table V) (k : Key) (v : V) → get (put t k v) k ≡ some v
  get-put_self t k v = rw (get-put t k k v, same_key_self k)

  pub get-remove :
      (t : Table V) (k j : Key) → get (remove t k) j ≡ (if same_key k j then none else get t j)
  unfolding get remove
  get-remove [] k j = ground arith
  get-remove ((i, w) ∷ t) k j =
      ground (arith, same_key_iff k j, same_key_iff i k, same_key_iff i j, get-remove t k j)
