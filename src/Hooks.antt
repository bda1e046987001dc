-- ===== src/Hooks.antt =====
-- The registry of shutdown hooks: pkg/proxy/hooks/hooks.go. A hook is a function on the state `S`
-- of whatever it touches; its error is `some` text. Each method holds the mutex throughout, except
-- that the run calls the hooks of a snapshot.
pub mod Registry
pub mod Running
use kube_oidc_proxy.Base.{
  ℕ, zero, suc, Text, ◌==◌, Option, none, some, List, [], ◌∷◌, ◌++◌, length, lookup, insert,
}

module _ {ℓ} (S : Type ℓ) where
  abbrev pub Hook : Type ℓ
  Hook = S → Option Text × S

module _ {ℓ} {S : Type ℓ} where
  -- Overwriting `entries[i].hook`; an index out of range panics in Go, and is left alone here.
  unfoldable pub set_hook : List (Text × Hook S) → ℕ → Hook S → List (Text × Hook S)
  set_hook [] i hook = []
  set_hook ((n, h) ∷ es) zero hook = (n, hook) ∷ es
  set_hook ((n, h) ∷ es) (suc i) hook = (n, h) ∷ set_hook es i hook

-- A failure is listed under the hook's name.
abbrev pub wrap : Text → Option Text → List (Text × Text) → List (Text × Text)
wrap name none errs = errs
wrap name (some e) errs = (name, e) ∷ errs

pub record Hooks {ℓ} (S : Type ℓ) : Type ℓ where
  pub entries : List (Text × Hook S)
  pub index_of : List (Text × ℕ)

module _ {ℓ} {S : Type ℓ} where
  abbrev pub new : Hooks S
  new = record { entries = []; index_of = [] }

  unfoldable pub add_pre_shutdown_hook : Hooks S → Text → Hook S → Hooks S
  add_pre_shutdown_hook h name hook = elim (lookup name h.index_of) [
    | some i ↦ record h { entries = set_hook h.entries i hook }
    | none ↦ record {
      entries = h.entries ++ (name, hook) ∷ [];
      index_of = insert name (length h.entries) h.index_of;
    }
  ]

  -- The loop over the snapshot: the failures, each with its hook's name, and the state after.
  unfoldable pub run_entries : List (Text × Hook S) → S → List (Text × Text) × S
  run_entries [] s = ([], s)
  run_entries ((name, hook) ∷ es) s =
      let (e, s') = hook s in let (errs, t) = run_entries es s' in (wrap name e errs, t)

  unfoldable pub run_pre_shutdown_hooks : Hooks S → S → List (Text × Text) × S
  run_pre_shutdown_hooks h s = run_entries h.entries s
