-- ===== src/Dict.antt =====
-- Python's dict with number keys, in insertion order: the tables of defines.py, and the tables
-- that the layers key by a hash.
use bubot_co_ap.Prelude.{ℕ, ◌≡◌, refl, Bool, true, false, Option, none, some, List, [], ◌∷◌}
use bubot_co_ap.Prelude.{◌==◌, if◌then◌else◌, arith}

abbrev pub Dict {ℓ} : Type ℓ → Type ℓ
Dict V = List (ℕ × V)

module _ {ℓ} {V : Type ℓ} where
  -- d.get(k); d[k] raises KeyError where this is none.
  unfoldable pub get : Dict V → ℕ → Option V
  get [] k = none
  get ((j, v) ∷ d) k = if j == k then some v else get d k

  -- d[k] = v keeps the place of a key that is there.
  unfoldable pub put : Dict V → ℕ → V → Dict V
  put [] k v = (k, v) ∷ []
  put ((j, w) ∷ d) k v = if j == k then (j, v) ∷ d else (j, w) ∷ put d k v

  -- d.pop(k, None); `del d[k]` where the key is there.
  unfoldable pub remove : Dict V → ℕ → Dict V
  remove [] k = []
  remove ((j, w) ∷ d) k = let rest = remove d k in if j == k then rest else (j, w) ∷ rest

  unfoldable pub contains : Dict V → ℕ → Bool
  unfolding get
  contains d k = elim (get d k) [ none ↦ false | some v ↦ true ]

  pub get-put :
      (d : Dict V) (k j : ℕ) (v : V) → get (put d k v) j ≡ (if k == j then some v else get d j)
  unfolding get put
  get-put [] k j v = refl
  get-put ((i, w) ∷ d) k j v = ground (arith, get-put d k j v)

  pub get-remove : (d : Dict V) (k j : ℕ) → get (remove d k) j ≡ (if k == j then none else get d j)
  unfolding get remove
  get-remove [] k j = ground arith
  get-remove ((i, w) ∷ d) k j = ground (arith, get-remove d k j)

pub ruleset dict_laws = (get-put, get-remove)
