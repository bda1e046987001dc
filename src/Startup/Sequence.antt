-- ===== src/Startup/Sequence.antt =====
-- The order of the start and of the stop: RunE of cmd/app/run.go. Each call that may fail is a field
-- of `Outcomes`, none where it succeeds; the acts are the records and the changes that others see.
use kube_oidc_proxy.Base.{
  Bool, true, false, Option, none, some, List, [], ◌∷◌, ◌++◌, map, any, if◌then◌else◌,
}

pub data Act (E : Type 0) : Type 0 where
  klog_bridged : Act E
  signals_trapped : Act E
  metrics_started : Act E
  port_bound : Act E
  issuers_configured : Act E
  config_loaded : Act E
  probe_started : Act E
  proxy_running : Act E
  server_started : Act E
  serving_set : Act E
  server_stopped : Act E
  probe_stopped : Act E
  hooks_run : Act E
  metrics_stopped : Act E
  shutdown_completed : Act E
  startup_failed : E → Act E
  context_cancelled : Act E

-- How the command ends: an error that main prints, one that was reported, or a shutdown with the
-- errors of the drain.
pub data Exit (E : Type 0) : Type 0 where
  refused : E → Exit E
  failed : E → Exit E
  shut_down : List E → Exit E

pub record Outcomes (E : Type 0) : Type 0 where
  pub validate : Option E
  pub logger : Option E
  -- The two calls for the metrics listener, none where it is off; likewise for the token reviewer.
  pub metrics : Option (Option E × Option E)
  pub prefixes : Option E
  pub rest_config : Option E
  pub token_reviewer : Option (Option E)
  pub secure_serving : Option E
  pub kube_client : Option E
  pub access_reviewer : Option E
  pub token_auther : Option E
  pub proxy : Option E
  -- The tokens of the probes, one for each issuer.
  pub fake_jwts : List (Option E)
  pub probe : Option E
  pub run : Option E
  pub drain_errors : List E

-- A call that may fail, with the acts that follow where it does not.
pub record Stage (E : Type 0) : Type 0 where
  pub error : Option E
  pub acts : List (Act E)

module _ {E : Type 0} where
  abbrev pub silent : Option E → Stage E
  silent error = record { error = error; acts = [] }

  unfoldable pub metrics_stages : Option (Option E × Option E) → List (Stage E)
  metrics_stages none = []
  metrics_stages (some (made, started)) =
      silent made ∷ record { error = started; acts = metrics_started ∷ [] } ∷ []

  unfoldable pub token_stages : Option (Option E) → List (Stage E)
  token_stages none = []
  token_stages (some made) = silent made ∷ []

  -- The calls once the root logger exists, in their order.
  unfoldable pub stages : Outcomes E → List (Stage E)
  stages o =
      metrics_stages o.metrics
      ++ (silent o.prefixes
          ∷ silent o.rest_config
          ∷ (token_stages o.token_reviewer
              ++ (record { error = o.secure_serving; acts = port_bound ∷ [] }
                  ∷ silent o.kube_client
                  ∷ silent o.access_reviewer
                  ∷ record { error = o.token_auther; acts = issuers_configured ∷ [] }
                  ∷ record { error = o.proxy; acts = config_loaded ∷ [] }
                  ∷ (map silent o.fake_jwts
                      ++ (record { error = o.probe; acts = probe_started ∷ [] }
                          ∷ record { error = o.run; acts = proxy_running ∷ [] }
                          ∷ [])))))

  unfoldable pub continue :
      Option E → List (Act E) → Option E × List (Act E) → Option E × List (Act E)
  continue (some e) acts rest = (some e, [])
  continue none acts (failure, more) = (failure, acts ++ more)

  -- The calls up to the first that fails.
  unfoldable pub proceed : List (Stage E) → Option E × List (Act E)
  proceed [] = (none, [])
  proceed (s ∷ ss) = continue s.error s.acts (proceed ss)

  abbrev pub is_started : Act E → Bool
  is_started metrics_started = true
  is_started _ = false

  -- The deferred calls.
  unfoldable pub deferred : List (Act E) → List (Act E)
  deferred acts =
      if any is_started acts
      then metrics_stopped ∷ context_cancelled ∷ []
      else context_cancelled ∷ []

  -- What follows a successful start, until the process ends.
  unfoldable pub serve : Bool → List (Act E)
  serve has_metrics =
      server_started
      ∷ serving_set
      ∷ server_stopped
      ∷ probe_stopped
      ∷ hooks_run
      ∷ ((if has_metrics then metrics_stopped ∷ [] else []) ++ (shutdown_completed ∷ []))

  unfoldable pub end_of : Outcomes E → Option E × List (Act E) → Exit E × List (Act E)
  end_of o (some e, acts) = (failed e, acts ++ (startup_failed e ∷ deferred acts))
  end_of o (none, acts) =
      (shut_down o.drain_errors, acts ++ (serve (any is_started acts) ++ deferred acts))

  unfoldable pub with_logger : Outcomes E → Option E → Exit E × List (Act E)
  with_logger o (some e) = (refused e, [])
  with_logger o none =
      let (exit, acts) = end_of o (proceed (stages o)) in
      (exit, klog_bridged ∷ signals_trapped ∷ acts)

  unfoldable pub validated : Outcomes E → Option E → Exit E × List (Act E)
  validated o (some e) = (refused e, [])
  validated o none = with_logger o o.logger

  unfoldable pub run_e : Outcomes E → Exit E × List (Act E)
  run_e o = validated o o.validate
