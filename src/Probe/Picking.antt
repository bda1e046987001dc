-- ===== src/Probe/Picking.antt =====
-- The round that is recorded next, among those of pkg/probe/probe.go that are under way.
use kube_oidc_proxy.Base.{ℕ, zero, suc, Option, none, some, List, [], ◌∷◌, All}
use kube_oidc_proxy.Probe.{Round}
use kube_oidc_proxy.Probe.Rounds.{keep_round, take_round}

module _ (P : Round → Type 0) where
  unfoldable pub IsPicked : Option (Round × List Round) → Type 0
  IsPicked none = Unit
  IsPicked (some (r, rest)) = P r × All P rest

  keep_round-IsPicked :
      (r : Round) (o : Option (Round × List Round)) → P r → IsPicked o → IsPicked (keep_round r o)
  unfolding keep_round IsPicked
  keep_round-IsPicked r none a p = tt
  keep_round-IsPicked r (some (found, rest)) a (p, q) = (p, (a, q))

  pub take_round-IsPicked : (n : ℕ) (rs : List Round) → All P rs → IsPicked (take_round n rs)
  unfolding take_round IsPicked
  take_round-IsPicked n [] a = tt
  take_round-IsPicked zero (r ∷ rs) (a, b) = (a, b)
  take_round-IsPicked (suc n) (r ∷ rs) (a, b) =
      keep_round-IsPicked r (take_round n rs) a (take_round-IsPicked n rs b)
