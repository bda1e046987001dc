-- ===== src/Examples/Starts.antt =====
-- A start whose port is taken once the metrics listener is up, and one that succeeds.
use kube_oidc_proxy.Base.{ℕ, Option, none, some, List, [], ◌∷◌, ◌≡◌, refl}
use kube_oidc_proxy.Startup.Sequence.{
  Act, Exit, failed, Outcomes, run_e, validated, with_logger, stages, metrics_stages, token_stages,
  continue, proceed, deferred, serve, end_of, klog_bridged, signals_trapped, metrics_started,
  startup_failed, metrics_stopped, context_cancelled,
}

abbrev outcomes : Option ℕ → Outcomes ℕ
outcomes port = record {
  validate = none;
  logger = none;
  metrics = some (none, none);
  prefixes = none;
  rest_config = none;
  token_reviewer = none;
  secure_serving = port;
  kube_client = none;
  access_reviewer = none;
  token_auther = none;
  proxy = none;
  fake_jwts = none ∷ none ∷ [];
  probe = none;
  run = none;
  drain_errors = 5 ∷ [];
}

port_taken : ◌≡◌ {A = Exit ℕ × List (Act ℕ)} (run_e (outcomes (some 7))) (
  failed 7,
  klog_bridged
      ∷ signals_trapped
      ∷ metrics_started
      ∷ startup_failed 7
      ∷ metrics_stopped
      ∷ context_cancelled
      ∷ [],
)
unfolding run_e validated with_logger end_of proceed continue stages metrics_stages token_stages
    deferred serve
port_taken = refl
