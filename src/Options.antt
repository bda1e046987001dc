-- ===== src/Options.antt =====
-- The validation of the options: cmd/app/options/options.go with oidc.go, authentication_config.go,
-- logging.go and metrics.go. A duration is its nanoseconds; a number of Go's is an integer. The file
-- system, the key pair loader, the parsers of net and strconv and the validations of
-- k8s.io/apiserver are fields of `Env`.
pub mod App
pub mod Accepted
use kube_oidc_proxy.Base.{
  ℕ, suc, Text, codes, Bool, true, false, not, ◌&&◌, ◌||◌, Option, none, some, List, [], ◌∷◌, ◌++◌,
  any, leb, ltb, eqb, length, is_empty, if◌then◌else◌, ◌==◌, is_some,
}

-- The integers, with the names of the library's.
pub data ℤ : Type 0 where
  pos : ℕ → ℤ
  negsuc : ℕ → ℤ

unfoldable pub is_positive : ℤ → Bool
is_positive (pos n) = ltb 0 n
is_positive (negsuc n) = false

unfoldable pub is_negative : ℤ → Bool
is_negative (pos n) = false
is_negative (negsuc n) = true

unfoldable pub is_same : ℤ → ℤ → Bool
is_same (pos n) (pos m) = eqb n m
is_same (negsuc n) (negsuc m) = eqb n m
is_same (pos n) (negsuc m) = false
is_same (negsuc n) (pos m) = false

pub record OidcOptions : Type 0 where
  pub ca_file : Text
  pub tls_client_cert_file : Text
  pub tls_client_key_file : Text
  pub client_id : Text
  pub issuer_url : Text
  pub username_prefix : Text
  pub groups_prefix : Text

pub record AppOptions : Type 0 where
  pub disable_impersonation : Bool
  pub readiness_probe_port : ℤ
  pub sar_timeout : ℤ
  pub sar_allow_cache_ttl : ℤ
  pub sar_deny_cache_ttl : ℤ
  pub max_impersonation_header_values : ℤ
  pub client_ip_extra_user_header : Bool
  pub extra_user_headers : List (Text × List Text)
  pub token_passthrough : Bool
  pub passthrough_timeout : ℤ
  pub cache_success_ttl : ℤ
  pub cache_failure_ttl : ℤ

-- The options that the validation reads. `oidc_flags` are the names of the OIDC flag set, each with
-- whether the command line changed it.
pub record Options : Type 0 where
  pub config_file : Text
  pub oidc_flags : List (Text × Bool)
  pub oidc : OidcOptions
  pub bind_port : ℤ
  pub logging_format : Text
  pub metrics_bind_address : Text
  pub app : AppOptions

pub data OptionError : Type 0 where
  no_config_file : OptionError
  exclusive_flags : OptionError
  half_key_pair : OptionError
  bad_key_pair : OptionError
  half_issuer : OptionError
  unreadable_ca : OptionError
  probe_port_taken : OptionError
  bad_format : OptionError
  no_host_port : OptionError
  bad_metrics_port : OptionError
  metrics_port_is_probe : OptionError
  metrics_port_is_secure : OptionError
  extra_without_impersonation : OptionError
  passthrough_timeout_not_positive : OptionError
  success_ttl_negative : OptionError
  failure_ttl_negative : OptionError
  sar_timeout_not_positive : OptionError
  allow_ttl_negative : OptionError
  deny_ttl_negative : OptionError
  max_values_not_positive : OptionError
  -- An error of the two validations of k8s.io/apiserver.
  foreign : Text → OptionError

pub record Env : Type 0 where
  -- os.Stat and os.ReadFile succeed.
  pub exists : Text → Bool
  pub readable : Text → Bool
  -- tls.LoadX509KeyPair succeeds.
  pub loads : Text → Text → Bool
  -- The port of net.SplitHostPort, and strconv.Atoi.
  pub split_port : Text → Option Text
  pub atoi : Text → Option ℤ
  pub serving_errors : List Text
  pub audit_errors : List Text

unfoldable pub error_if : Bool → OptionError → List OptionError
error_if true e = e ∷ []
error_if false e = []

unfoldable pub foreign_errors : List Text → List OptionError
foreign_errors [] = []
foreign_errors (e ∷ es) = foreign e ∷ foreign_errors es

unfoldable pub is_tls_flag : Text → Bool
is_tls_flag name =
    name == codes "oidc-tls-client-cert-file" || name == codes "oidc-tls-client-key-file"

-- The walk over the OIDC flags.
unfoldable pub oidc_flags_changed : List (Text × Bool) → Bool
oidc_flags_changed [] = false
oidc_flags_changed ((name, changed) ∷ flags) =
    let rest = oidc_flags_changed flags in if is_tls_flag name then rest else changed || rest

unfoldable pub is_enabled : Text → Bool
is_enabled address = not (is_empty address) && not (address == codes "0")

unfoldable pub differ : Bool → Bool → Bool
differ true b = not b
differ false b = b

unfoldable pub valid_format : Text → Bool
valid_format format = format == codes "json" || format == codes "text"

-- The test of Port on the number that was parsed.
unfoldable pub in_range : Option ℤ → Option ℕ
in_range none = none
in_range (some (negsuc n)) = none
in_range (some (pos n)) = if ltb n 1 || ltb 65535 n then none else some n

module _ (env : Env) where
  unfoldable pub validate_config_file : Text → List OptionError
  validate_config_file file =
      if is_empty file then [] else error_if (not (env.exists file)) no_config_file

  -- The second half of the OIDC validation, which a configuration file switches off.
  unfoldable pub validate_issuer : OidcOptions → List OptionError
  validate_issuer o =
      if differ (ltb 0 (length o.issuer_url)) (ltb 0 (length o.client_id))
      then half_issuer ∷ []
      else error_if (ltb 0 (length o.ca_file) && not (env.readable o.ca_file)) unreadable_ca

  unfoldable pub validate_oidc : Bool → OidcOptions → List OptionError
  validate_oidc config_set o =
      if differ (is_empty o.tls_client_cert_file) (is_empty o.tls_client_key_file)
      then half_key_pair ∷ []
      else (if not (is_empty o.tls_client_cert_file)
            && not (env.loads o.tls_client_cert_file o.tls_client_key_file)
          then bad_key_pair ∷ []
          else (if config_set then [] else validate_issuer o))

  unfoldable pub port_of : Option Text → Option ℕ
  port_of none = none
  port_of (some port_text) = in_range (env.atoi port_text)

  -- Port, where it succeeds.
  unfoldable pub metrics_port : Text → Option ℕ
  metrics_port address = port_of (env.split_port address)

  unfoldable pub port_error : Option Text → OptionError
  port_error none = no_host_port
  port_error (some port_text) = bad_metrics_port

  unfoldable pub validate_metrics_port : Text → ℤ → ℤ → Option ℕ → List OptionError
  validate_metrics_port address probe_port bind_port none = port_error (env.split_port address) ∷ []
  validate_metrics_port address probe_port bind_port (some port) =
      error_if (is_same (pos port) probe_port) metrics_port_is_probe
      ++ error_if (is_same (pos port) bind_port) metrics_port_is_secure

  unfoldable pub validate_metrics : Text → ℤ → ℤ → List OptionError
  validate_metrics address probe_port bind_port =
      if not (is_enabled address)
      then []
      else validate_metrics_port address probe_port bind_port (metrics_port address)

  unfoldable pub validate_app : AppOptions → List OptionError
  validate_app a =
      error_if
        (a.disable_impersonation
          && (a.client_ip_extra_user_header || ltb 0 (length a.extra_user_headers)))
        extra_without_impersonation
      ++ (error_if (a.token_passthrough && not (is_positive a.passthrough_timeout))
            passthrough_timeout_not_positive
          ++ (error_if (is_negative a.cache_success_ttl) success_ttl_negative
              ++ (error_if (is_negative a.cache_failure_ttl) failure_ttl_negative
                  ++ (error_if (not (is_positive a.sar_timeout)) sar_timeout_not_positive
                      ++ (error_if (is_negative a.sar_allow_cache_ttl) allow_ttl_negative
                          ++ (error_if (is_negative a.sar_deny_cache_ttl) deny_ttl_negative
                              ++ error_if (not (is_positive a.max_impersonation_header_values))
                                  max_values_not_positive))))))

  -- The errors of Validate in their order; it returns nil where there are none.
  unfoldable pub validate : Options → List OptionError
  validate o =
      let config_set = not (is_empty o.config_file) in
      validate_config_file o.config_file
      ++ (error_if (config_set && oidc_flags_changed o.oidc_flags) exclusive_flags
          ++ (validate_oidc config_set o.oidc
              ++ (foreign_errors env.serving_errors
                  ++ (error_if (is_same o.bind_port o.app.readiness_probe_port) probe_port_taken
                      ++ (foreign_errors env.audit_errors
                          ++ (error_if (not (valid_format o.logging_format)) bad_format
                              ++ (validate_metrics o.metrics_bind_address o.app.readiness_probe_port
                                    o.bind_port
                                  ++ validate_app o.app)))))))
