-- ===== src/Examples/Texts.antt =====
-- Runs of the log sanitiser and of the shutdown hooks.
use kube_oidc_proxy.Base.{
  ℕ, ◌↔◌, ◌⊎◌, ◌+◌, Text, codes, none, some, List, [], ◌∷◌, ◌≡◌, ◌≤◌, ◌<◌, length,
}
use kube_oidc_proxy.Sanitize.{bound}
use kube_oidc_proxy.Sanitize.Laws.{IsClean, bound_lem}
use kube_oidc_proxy.Hooks.{Hook, Hooks, new, run_pre_shutdown_hooks}
use kube_oidc_proxy.Hooks.Registry.{IsIndexed, add_all, insert_all, add_all-insert_all}
use kube_oidc_proxy.Hooks.Running.{Ran, run_pre_shutdown_hooks_lem}

bound_lem_example :
    let s : Text = b'a' ∷ 10 ∷ 7 ∷ b'b' ∷ [] in
    let max : ℕ = 2 in
    IsClean (bound s 2)
    × (0 < 2 → length (bound s 2) ≤ 2)
    × (bound (bound s 2) 2 ≡ bound s 2)
    × ((bound s max ≡ s) ↔ (IsClean s × ((max ≡ 0) ⊎ (length s ≤ max))))
bound_lem_example = bound_lem (b'a' ∷ 10 ∷ 7 ∷ b'b' ∷ []) 2

-- Two hooks on a counter: one that fails, and one that does not.
abbrev failing : Hook ℕ
failing n = (some (codes "boom"), n + 1)

abbrev quiet : Hook ℕ
quiet n = (none, n + 2)

abbrev registrations : List (Text × Hook ℕ)
registrations = (codes "a", quiet) ∷ (codes "b", failing) ∷ (codes "a", failing) ∷ []

add_all-insert_all_example :
    IsIndexed (add_all new registrations)
    × ((add_all new registrations).entries ≡ insert_all [] registrations)
add_all-insert_all_example = add_all-insert_all registrations

abbrev registered : Hooks ℕ
registered = add_all new registrations

run_pre_shutdown_hooks_lem_example :
    Ran registered.entries 0
      (run_pre_shutdown_hooks registered 0).0
      (run_pre_shutdown_hooks registered 0).1
run_pre_shutdown_hooks_lem_example = run_pre_shutdown_hooks_lem registered 0
