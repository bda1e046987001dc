-- ===== src/Startup/Counts.antt =====
-- The acts of the start of cmd/app/run.go, counted and compared.
use kube_oidc_proxy.Base.{
  ℕ, suc, ◌+◌, Bool, true, false, not, ◌&&◌, Option, none, some, List, [], ◌∷◌, ◌++◌, any,
  if◌then◌else◌, ◌≡◌, refl, arith,
}
use kube_oidc_proxy.Startup.Sequence.{
  Act, probe_started, serving_set, metrics_stopped, startup_failed, context_cancelled, Exit,
  refused, failed, shut_down, Stage, is_started, deferred,
}

pub starts : false ≡ true → ⊥
starts e = cc

module _ {E : Type 0} where
  abbrev pub is_serving : Act E → Bool
  is_serving serving_set = true
  is_serving _ = false

  abbrev pub is_failure : Act E → Bool
  is_failure (startup_failed e) = true
  is_failure _ = false

  abbrev pub is_probe : Act E → Bool
  is_probe probe_started = true
  is_probe _ = false

  abbrev pub number_of : (Act E → Bool) → List (Act E) → ℕ
  number_of p [] = 0
  number_of p (a ∷ acts) = let rest = number_of p acts in if p a then suc rest else rest

  -- No act of the second kind comes before the first one of the first kind.
  abbrev pub guarded : (Act E → Bool) → (Act E → Bool) → List (Act E) → Bool
  guarded p q [] = true
  guarded p q (a ∷ acts) = let rest = guarded p q acts in if p a then true else not (q a) && rest

  abbrev pub first_of : List (Option E) → Option E
  first_of [] = none
  first_of (none ∷ es) = first_of es
  first_of (some e ∷ es) = some e

  -- The error with which the start itself ends.
  abbrev pub start_error : Exit E → Option E
  start_error (refused e) = some e
  start_error (failed e) = some e
  start_error (shut_down es) = none

  abbrev pub errors_of : List (Stage E) → List (Option E)
  errors_of [] = []
  errors_of (s ∷ ss) = s.error ∷ errors_of ss

  abbrev pub is_none : Option E → Bool
  is_none none = true
  is_none (some e) = false

  pub number_of-append :
      (p : Act E → Bool) (xs ys : List (Act E))
      → number_of p (xs ++ ys) ≡ number_of p xs + number_of p ys
  number_of-append p [] ys = omega arith
  number_of-append p (x ∷ xs) ys = ground (arith, number_of-append p xs ys)

  pub guarded_of_none :
      (p q : Act E → Bool) (acts : List (Act E)) → number_of q acts ≡ 0 → guarded p q acts ≡ true
  guarded_of_none p q [] h = refl
  guarded_of_none p q (a ∷ acts) h = ground (arith, h, guarded_of_none p q acts)

  pub guarded-append :
      (p q : Act E → Bool) (xs ys : List (Act E))
      → number_of q xs ≡ 0
      → any p xs ≡ true
      → guarded p q (xs ++ ys) ≡ true
  guarded-append p q [] ys h k = absurd (starts k)
  guarded-append p q (x ∷ xs) ys h k = ground (arith, h, k, guarded-append p q xs ys)

  pub deferred-number_of :
      (p : Act E → Bool) (acts : List (Act E))
      → p metrics_stopped ≡ false
      → p context_cancelled ≡ false
      → number_of p (deferred acts) ≡ 0
  unfolding deferred
  deferred-number_of p acts h k = either (any is_started acts)
    where
      either :
          (t : Bool)
          → number_of p
              (if t then metrics_stopped ∷ context_cancelled ∷ [] else context_cancelled ∷ [])
            ≡ 0
      either true = ground (arith, h, k)
      either false = ground (arith, k)
