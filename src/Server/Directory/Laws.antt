-- ===== src/Server/Directory/Laws.antt =====
-- server.py: a resource that is added and removed.
use bubot_co_ap.Prelude.{
  ℕ, ◌≡◌, refl, ap, ◌∙◌, ◌⊎◌, true, none, some, List, [], ◌∷◌, ◌++◌, if◌then◌else◌, Bool-cases,
  Option-cases, inl, inr,
}
use bubot_co_ap.Text.{Text}
use bubot_co_ap.Text.Parts.{strip, split, split-cons}
use bubot_co_ap.Layers.Table
use bubot_co_ap.Layers.Table.{
  octets, same_key, same_key_iff, same_key_self, get-put, get-put_self, get-remove,
}
use bubot_co_ap.Server.Directory.{
  Directory, lookup, register, add_missing, add_all, add_resource, joined, actual_path,
  remove_resource,
}

lookup-register :
    (d : Directory) (p q : Text) (r : ℕ)
    → lookup (register d p r) q ≡ (if same_key (octets p) (octets q) then some r else lookup d q)
unfolding lookup register
lookup-register d p q r = get-put d.root (octets p) (octets q) r

same_lookup :
    (d : Directory) (p q : Text) → same_key (octets p) (octets q) ≡ true → lookup d p ≡ lookup d q
unfolding lookup
same_lookup d p q same = ap (λ k. Table.get d.root k) ((same_key_iff (octets p) (octets q)).0 same)

module _ (d : Directory) (p : Text) (r : ℕ) where
  add_missing_new : lookup d p ≡ none → add_missing d p r ≡ register d p r
  unfolding add_missing
  add_missing_new missing = rw (add_missing, missing) refl

  add_missing_old : (y : ℕ) → lookup d p ≡ some y → add_missing d p r ≡ d
  unfolding add_missing
  add_missing_old y found = rw (add_missing, found) refl

  -- What is in the tree stays.
  lookup-add_missing_kept :
      (q : Text) (x : ℕ) → lookup d q ≡ some x → lookup (add_missing d p r) q ≡ some x
  lookup-add_missing_kept q x e = elim (Option-cases (lookup d p)) [
    | inl missing ↦
        rw (add_missing_new missing, lookup-register d p q r)
          (elim (Bool-cases (same_key (octets p) (octets q))) [
            | inl same ↦ absurd (cc (same_lookup d p q same))
            | inr differ ↦ rw differ e
          ])
    | inr (y, found) ↦ rw (add_missing_old y found) e
  ]

  -- A path without a resource has none or this one afterwards.
  lookup-add_missing_fits :
      (q : Text)
      → (lookup d q ≡ none) ⊎ (lookup d q ≡ some r)
      → (lookup (add_missing d p r) q ≡ none) ⊎ (lookup (add_missing d p r) q ≡ some r)
  lookup-add_missing_fits q fits = elim (Option-cases (lookup d p)) [
    | inl missing ↦
        rw (add_missing_new missing, lookup-register d p q r)
          (elim (Bool-cases (same_key (octets p) (octets q))) [
            | inl same ↦ rw same (inr refl)
            | inr differ ↦ rw differ fits
          ])
    | inr (y, found) ↦ rw (add_missing_old y found) fits
  ]

  -- Its own path has this one.
  lookup-add_missing_self :
      (lookup d p ≡ none) ⊎ (lookup d p ≡ some r) → lookup (add_missing d p r) p ≡ some r
  lookup-add_missing_self (inl missing) =
      rw (add_missing_new missing, lookup-register d p p r, same_key_self (octets p)) refl
  lookup-add_missing_self (inr found) = rw (add_missing_old r found) found

lookup-add_all_kept :
    (d : Directory) (path : Text) (ps : List Text) (r : ℕ) (q : Text) (x : ℕ)
    → lookup d q ≡ some x
    → lookup (add_all d path ps r) q ≡ some x
unfolding add_all
lookup-add_all_kept d path [] r q x e = e
lookup-add_all_kept d path (p ∷ ps) r q x e =
    let next = path ++ (47 ∷ p) in
    lookup-add_all_kept (add_missing d next r) next ps r q x
      (lookup-add_missing_kept d next r q x e)

lookup-add_all :
    (d : Directory) (path p : Text) (ps : List Text) (r : ℕ)
    → (lookup d (joined path (p ∷ ps)) ≡ none) ⊎ (lookup d (joined path (p ∷ ps)) ≡ some r)
    → lookup (add_all d path (p ∷ ps) r) (joined path (p ∷ ps)) ≡ some r
unfolding add_all joined
lookup-add_all d path p [] r fits = lookup-add_missing_self d (path ++ (47 ∷ p)) r fits
lookup-add_all d path p (p' ∷ ps) r fits =
    let next = path ++ (47 ∷ p) in
    lookup-add_all (add_missing d next r) next p' ps r (lookup-add_missing_fits d next r _ fits)

lookup-add_resource :
    (d : Directory) (path : Text) (r : ℕ)
    → lookup d (actual_path path) ≡ none
    → lookup (add_resource d path r) (actual_path path) ≡ some r
unfolding add_resource actual_path
lookup-add_resource d path r missing =
    let (p, ps, e) = split-cons 47 (strip 47 path) in
    rw e (lookup-add_all d [] p ps r (inl (rw (← e) missing)))

add_resource_kept :
    (d : Directory) (path : Text) (r : ℕ) (q : Text) (x : ℕ)
    → lookup d q ≡ some x
    → lookup (add_resource d path r) q ≡ some x
unfolding add_resource
add_resource_kept d path r q x e = lookup-add_all_kept d [] (split 47 (strip 47 path)) r q x e

removed : Directory → Text → Directory
removed d path = record d { root = Table.remove d.root (octets path) }

lookup-removed :
    (d : Directory) (path q : Text)
    → lookup (removed d path) q ≡ (if same_key (octets path) (octets q) then none else lookup d q)
unfolding lookup removed
lookup-removed d path q = get-remove d.root (octets path) (octets q)

remove_resource_found :
    (d : Directory) (path : Text) (r : ℕ)
    → lookup d (actual_path path) ≡ some r
    → remove_resource d path ≡ (removed d (actual_path path), some r)
unfolding remove_resource removed
remove_resource_found d path r found = rw (remove_resource, found) refl

-- Of a path without a resource: remove_resource after add_resource returns the resource that was added,
-- and then the path has none again, and every path that had a resource before has the same one.
pub remove_resource-add_resource :
    (d : Directory) (path : Text) (r : ℕ)
    → lookup d (actual_path path) ≡ none
    → (d' : Directory) × (remove_resource (add_resource d path r) path ≡ (d', some r))
      × (lookup d' (actual_path path) ≡ none)
      × ((q : Text) (x : ℕ) → lookup d q ≡ some x → lookup d' q ≡ some x)
remove_resource-add_resource d path r missing =
    let target = actual_path path in
    let added = add_resource d path r in
    (
      removed added target,
      remove_resource_found added path r (lookup-add_resource d path r missing),
      lookup-removed added target target ∙ rw (same_key_self (octets target)) refl,
      λ q x e.
          lookup-removed added target q ∙ (elim (Bool-cases (same_key (octets target) (octets q))) [
            | inl same ↦ absurd (cc (same_lookup d target q same))
            | inr differ ↦ rw differ (add_resource_kept d path r q x e)
          ]),
    )
