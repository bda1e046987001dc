-- ===== src/Startup/Order.antt =====
-- What the start of cmd/app/run.go reaches, and what it reports.
use kube_oidc_proxy.Base.{
  ◌||◌, Bool, true, Option, none, some, List, [], ◌∷◌, ◌++◌, if◌then◌else◌, ◌≡◌,
}
use kube_oidc_proxy.Startup.Sequence.{Act, Exit, Outcomes}
use kube_oidc_proxy.Startup.Counts.{
  is_serving, is_failure, is_probe, number_of, guarded, start_error, is_none,
}

module _ {E : Type 0} where
  -- The calls of the start, in their order, each with the error that it gave.
  abbrev pub metrics_calls : Option (Option E × Option E) → List (Option E)
  metrics_calls none = []
  metrics_calls (some (new_metrics, listen)) = new_metrics ∷ listen ∷ []

  abbrev pub token_calls : Option (Option E) → List (Option E)
  token_calls none = []
  token_calls (some new_reviewer) = new_reviewer ∷ []

  abbrev pub calls : Outcomes E → List (Option E)
  calls o =
      o.validate
      ∷ o.logger
      ∷ (metrics_calls o.metrics
          ++ (o.prefixes
              ∷ o.rest_config
              ∷ (token_calls o.token_reviewer
                  ++ (o.secure_serving
                      ∷ o.kube_client
                      ∷ o.access_reviewer
                      ∷ o.token_auther
                      ∷ o.proxy
                      ∷ (o.fake_jwts ++ (o.probe ∷ o.run ∷ []))))))

  -- What holds of the command's end, given the first error of all its calls, and whether it came
  -- before the root logger was there.
  abbrev pub IsOrderly : Option E → Bool → Exit E × List (Act E) → Type 0
  IsOrderly err early (exit, acts) =
      (start_error exit ≡ err)
      × (number_of is_serving acts ≡ (if is_none err then 1 else 0))
      × (number_of is_failure acts ≡ (if is_none err || early then 0 else 1))
      × (guarded is_probe is_serving acts ≡ true)
