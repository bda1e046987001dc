-- ===== src/Hooks/Running.antt =====
-- The run of the hooks of pkg/proxy/hooks/hooks.go.
use kube_oidc_proxy.Base.{Text, Option, none, some, List, [], ◌∷◌, ◌≡◌, refl}
use kube_oidc_proxy.Hooks.{Hook, Hooks, wrap, run_entries, run_pre_shutdown_hooks}

-- The hooks, one after the other from a state, end in another state and report these failures.
pub data Ran {ℓ} {S : Type ℓ} : List (Text × Hook S) → S → List (Text × Text) → S → Type ℓ where
  finished : {s : S} → Ran [] s [] s
  passed :
      {name : Text} {hook : Hook S} {es : List (Text × Hook S)} {s s' t : S}
      {errs : List (Text × Text)}
      → hook s ≡ (none, s')
      → Ran es s' errs t
      → Ran ((name, hook) ∷ es) s errs t
  failed :
      {name : Text} {hook : Hook S} {es : List (Text × Hook S)} {s s' t : S} {e : Text}
      {errs : List (Text × Text)}
      → hook s ≡ (some e, s')
      → Ran es s' errs t
      → Ran ((name, hook) ∷ es) s ((name, e) ∷ errs) t

module _ {ℓ} {S : Type ℓ} where
  run_entries-Ran :
      (es : List (Text × Hook S)) (s : S) → Ran es s (run_entries es s).0 (run_entries es s).1
  unfolding run_entries
  run_entries-Ran [] s = finished
  run_entries-Ran ((name, hook) ∷ es) s = step (hook s).0 refl (run_entries-Ran es (hook s).1)
    where
      step :
          (o : Option Text)
          → (hook s).0 ≡ o
          → {errs : List (Text × Text)} {t : S} → Ran es (hook s).1 errs t
          → Ran ((name, hook) ∷ es) s (wrap name o errs) t
      step none e rest = passed (rw e refl) rest
      step (some m) e rest = failed (rw e refl) rest

  -- The run calls every hook once, in registration order, each in the state that the ones before it
  -- left, whether or not those failed; its aggregate lists the failures, in that order, each under
  -- its hook's name.
  pub run_pre_shutdown_hooks_lem :
      (h : Hooks S) (s : S)
      → Ran h.entries s (run_pre_shutdown_hooks h s).0 (run_pre_shutdown_hooks h s).1
  unfolding run_pre_shutdown_hooks
  run_pre_shutdown_hooks_lem h s = run_entries-Ran h.entries s
