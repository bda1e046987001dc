-- ===== src/Base/Dict.antt =====
-- Go maps with string keys as association lists, the order of the list being one order of `range`.
use mathlib.Core.Path.{◌≡◌, refl, subst}
use mathlib.Core.Logic.{inl, inr}
use mathlib.Core.Option.{Option, none, some}
use mathlib.Core.List.{List, [], ◌∷◌}
use native.Mathlib.Omega.{arith}
use kube_oidc_proxy.Base.Tests.{if◌then◌else◌, Bool-cases, some_inj}
use kube_oidc_proxy.Base.Lists.{All}
use kube_oidc_proxy.Base.Strings.{Text, ◌==◌, eq_iff}

module _ {ℓ} {V : Type ℓ} where
  unfoldable pub lookup : Text → List (Text × V) → Option V
  lookup k [] = none
  lookup k ((j, v) ∷ m) = if j == k then some v else lookup k m

  -- `m[k] = v`
  unfoldable pub insert : Text → V → List (Text × V) → List (Text × V)
  insert k v [] = (k, v) ∷ []
  insert k v ((j, w) ∷ m) = if j == k then (k, v) ∷ m else (j, w) ∷ insert k v m

  -- `delete(m, k)`
  unfoldable pub delete : Text → List (Text × V) → List (Text × V)
  delete k [] = []
  delete k ((j, w) ∷ m) = let rest = delete k m in if j == k then rest else (j, w) ∷ rest

  pub lookup-insert :
      (j k : Text) (v : V) (m : List (Text × V))
      → lookup j (insert k v m) ≡ (if k == j then some v else lookup j m)
  unfolding lookup insert
  lookup-insert j k v [] = refl
  lookup-insert j k v ((i, w) ∷ m) =
      ground (arith, eq_iff k j, eq_iff i k, eq_iff i j, lookup-insert j k v m)

  pub lookup-delete :
      (j k : Text) (m : List (Text × V))
      → lookup j (delete k m) ≡ (if k == j then none else lookup j m)
  unfolding lookup delete
  lookup-delete j k [] = ground arith
  lookup-delete j k ((i, w) ∷ m) =
      ground (arith, eq_iff k j, eq_iff i k, eq_iff i j, lookup-delete j k m)

module _ {V : Type 0} (P : Text → V → Type 0) where
  -- What holds of every entry holds of the one found, and is kept by a write for which it holds.
  abbrev pub Holds : List (Text × V) → Type 0
  Holds = All (λ e. P e.0 e.1)

  pub lookup-Holds :
      (k : Text) (v : V) (m : List (Text × V)) → Holds m → lookup k m ≡ some v → P k v
  unfolding lookup
  lookup-Holds k v [] h e = absurd (none_some e)
    where
      none_some : ◌≡◌ {A = Option V} none (some v) → ⊥
      none_some e = cc
  lookup-Holds k v ((j, w) ∷ m) (p, h) e = elim (Bool-cases (j == k)) [
    | inl same ↦
        let found : w ≡ v = some_inj (rw same at e) in
        subst (λ x. P k x) found (subst (λ x. P x w) ((eq_iff j k).0 same) p)
    | inr other ↦ lookup-Holds k v m h (rw other at e)
  ]

  pub insert-Holds :
      (k : Text) (v : V) (m : List (Text × V)) → P k v → Holds m → Holds (insert k v m)
  unfolding insert
  insert-Holds k v [] p h = (p, tt)
  insert-Holds k v ((j, w) ∷ m) p (q, h) = elim (Bool-cases (j == k)) [
    | inl same ↦ rw same (p, h)
    | inr other ↦ rw other (q, insert-Holds k v m p h)
  ]

-- `m[k]` where the values are slices: a missing key reads as the empty slice.
abbrev pub values_of {ℓ} : {V : Type ℓ} → Option (List V) → List V
values_of none = []
values_of (some vs) = vs
