-- ===== src/Examples/Flags.antt =====
-- Options with a metrics listener, and the same with its port taken by the readiness probe.
use kube_oidc_proxy.Base.{codes, ◌==◌, true, false, some, [], ◌∷◌, ◌≡◌, refl, ◌↔◌}
use kube_oidc_proxy.Options.{
  ℤ, pos, negsuc, Options, Env, validate, metrics_port_is_probe, deny_ttl_negative,
  validate_config_file, error_if, oidc_flags_changed, is_tls_flag, validate_oidc, validate_issuer,
  differ, foreign_errors, is_same, valid_format, validate_metrics, is_enabled, metrics_port,
  port_of, in_range, validate_metrics_port, validate_app, is_positive, is_negative,
}
use kube_oidc_proxy.Options.Accepted.{IsAccepted, validate_iff}

abbrev env : Env
env = record {
  exists = λ file. true;
  readable = λ file. true;
  loads = λ cert key. true;
  split_port = λ address. some address;
  atoi = λ text. some (pos 8080);
  serving_errors = [];
  audit_errors = [];
}

abbrev options : ℤ → ℤ → Options
options probe_port deny_ttl = record {
  config_file = codes "auth.yaml";
  oidc_flags = (codes "oidc-issuer-url", false) ∷ (codes "oidc-tls-client-key-file", true) ∷ [];
  oidc = record {
    ca_file = [];
    tls_client_cert_file = codes "tls.crt";
    tls_client_key_file = codes "tls.key";
    client_id = [];
    issuer_url = [];
    username_prefix = [];
    groups_prefix = [];
  };
  bind_port = pos 6443;
  logging_format = codes "json";
  metrics_bind_address = codes ":8080";
  app = record {
    disable_impersonation = false;
    readiness_probe_port = probe_port;
    sar_timeout = pos 10;
    sar_allow_cache_ttl = pos 0;
    sar_deny_cache_ttl = deny_ttl;
    max_impersonation_header_values = pos 64;
    client_ip_extra_user_header = true;
    extra_user_headers = [];
    token_passthrough = false;
    passthrough_timeout = pos 0;
    cache_success_ttl = pos 0;
    cache_failure_ttl = pos 0;
  };
}

validate_iff_example :
    (validate env (options (pos 8081) (pos 30)) ≡ []) ↔ IsAccepted env (options (pos 8081) (pos 30))
validate_iff_example = validate_iff env (options (pos 8081) (pos 30))

accepted : validate env (options (pos 8081) (pos 30)) ≡ []
unfolding validate validate_config_file error_if oidc_flags_changed is_tls_flag validate_oidc
    validate_issuer differ foreign_errors is_same valid_format validate_metrics is_enabled
    metrics_port port_of in_range validate_metrics_port validate_app is_positive is_negative codes
    ◌==◌
accepted = refl

refused :
    validate env (options (pos 8080) (negsuc 0)) ≡ metrics_port_is_probe ∷ deny_ttl_negative ∷ []
unfolding validate validate_config_file error_if oidc_flags_changed is_tls_flag validate_oidc
    validate_issuer differ foreign_errors is_same valid_format validate_metrics is_enabled
    metrics_port port_of in_range validate_metrics_port validate_app is_positive is_negative codes
    ◌==◌
refused = refl
