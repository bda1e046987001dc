-- ===== src/Options/Accepted.antt =====
-- Which options cmd/app/options/options.go accepts.
use kube_oidc_proxy.Base.{
  ℕ, Text, codes, Bool, true, false, not, ◌&&◌, Option, none, some, List, [], ◌∷◌, ◌++◌, ◌≡◌, refl,
  sym, subst, ◌⊎◌, ◌↔◌, ◌≢◌, ◌≤◌, arith, length, is_empty, ltb, if◌then◌else◌, eq_iff, some_inj,
}
use kube_oidc_proxy.Options.{
  ℤ, pos, negsuc, is_same, OidcOptions, Options, OptionError, half_issuer, metrics_port_is_probe,
  metrics_port_is_secure, unreadable_ca, half_key_pair, bad_key_pair, Env, error_if,
  oidc_flags_changed, is_enabled, differ, valid_format, validate_config_file, validate_issuer,
  validate_oidc, in_range, port_of, metrics_port, validate_metrics_port, validate_metrics, validate,
}
use kube_oidc_proxy.Options.App.{
  IsAppAccepted, not_nil, ends, starts, append_iff, error_if_iff, foreign_errors_iff, is_same_iff,
  validate_app_iff,
}

-- What the OIDC options must be; a configuration file stands in for the issuer's flags.
abbrev pub IsOidcAccepted : Env → Bool → OidcOptions → Type 0
IsOidcAccepted env config_set o =
    ((o.tls_client_cert_file ≡ []) ↔ (o.tls_client_key_file ≡ []))
    × (o.tls_client_cert_file ≢ [] → env.loads o.tls_client_cert_file o.tls_client_key_file ≡ true)
    × (config_set ≡ false
        → ((o.issuer_url ≡ []) ↔ (o.client_id ≡ []))
          × (o.ca_file ≢ [] → env.readable o.ca_file ≡ true))

issuer_iff :
    (env : Env) (o : OidcOptions)
    → (validate_issuer env o ≡ []) ↔ (
        ((o.issuer_url ≡ []) ↔ (o.client_id ≡ []))
        × (o.ca_file ≢ [] → env.readable o.ca_file ≡ true))
unfolding validate_issuer differ error_if
issuer_iff env o = cases o.issuer_url o.client_id o.ca_file (env.readable o.ca_file)
  where
    cases :
        (url id ca : Text) (readable : Bool)
        → ((if differ (ltb 0 (length url)) (ltb 0 (length id))
              then half_issuer ∷ []
              else error_if (ltb 0 (length ca) && not readable) unreadable_ca)
            ≡ [])
          ↔ (((url ≡ []) ↔ (id ≡ [])) × (ca ≢ [] → readable ≡ true))
    cases [] [] [] readable = ground arith
    cases [] [] (c ∷ ca) readable = ground arith
    cases [] (d ∷ id) ca readable = ground arith
    cases (u ∷ url) [] ca readable = ground arith
    cases (u ∷ url) (d ∷ id) [] readable = ground arith
    cases (u ∷ url) (d ∷ id) (c ∷ ca) readable = ground arith

-- Where the listener of the metrics is on, its port is one of its own.
abbrev pub IsMetricsAccepted : Env → Options → Type 0
IsMetricsAccepted env o =
    is_enabled o.metrics_bind_address ≡ true
    → (port : ℕ) × (metrics_port env o.metrics_bind_address ≡ some port)
      × (pos port ≢ o.app.readiness_probe_port)
      × (pos port ≢ o.bind_port)

in_range-bounds : (z : Option ℤ) (n : ℕ) → in_range z ≡ some n → (1 ≤ n) × (n ≤ 65535)
unfolding in_range
in_range-bounds none n e = ground (arith, e)
in_range-bounds (some (negsuc m)) n e = ground (arith, e)
in_range-bounds (some (pos m)) n e = ground (arith, e)

port_of-bounds :
    (env : Env) (o : Option Text) (n : ℕ) → port_of env o ≡ some n → (1 ≤ n) × (n ≤ 65535)
unfolding port_of
port_of-bounds env none n e = ground (arith, e)
port_of-bounds env (some t) n e = in_range-bounds (env.atoi t) n e

metrics_port-bounds :
    (env : Env) (address : Text) (n : ℕ) → metrics_port env address ≡ some n → (1 ≤ n) × (n ≤ 65535)
unfolding metrics_port
metrics_port-bounds env address n e = port_of-bounds env (env.split_port address) n e

module _ (env : Env) (address : Text) (probe_port bind_port : ℤ) where
  abbrev IsPort : Option ℕ → Type 0
  IsPort p = (port : ℕ) × (p ≡ some port) × (pos port ≢ probe_port) × (pos port ≢ bind_port)

  validate_metrics_port_iff :
      (p : Option ℕ) → (validate_metrics_port env address probe_port bind_port p ≡ []) ↔ IsPort p
  unfolding validate_metrics_port
  validate_metrics_port_iff none = (λ h. absurd (not_nil h), λ (port, e, a, b). absurd (no_port e))
    where
      no_port : {port : ℕ} → ◌≡◌ {A = Option ℕ} none (some port) → ⊥
      no_port e = cc
  validate_metrics_port_iff (some n) =
      let both : (error_if (is_same (pos n) probe_port) metrics_port_is_probe
              ++ error_if (is_same (pos n) bind_port) metrics_port_is_secure
            ≡ [])
          ↔ ((pos n ≢ probe_port) × (pos n ≢ bind_port)) =
        append_iff _ _ (error_if_iff _ _ (is_same_iff (pos n) probe_port))
          (error_if_iff _ _ (is_same_iff (pos n) bind_port)) in
      (
        λ h. (n, refl, (both.0 h).0, (both.0 h).1),
        λ (port, e, a, b).
            let same : port ≡ n = sym (some_inj e) in
            both.1 (subst (λ k. pos k ≢ probe_port) same a, subst (λ k. pos k ≢ bind_port) same b),
      )

  metrics_iff :
      (t : Bool) (p : Option ℕ)
      → ((if not t then [] else validate_metrics_port env address probe_port bind_port p) ≡ [])
        ↔ (t ≡ true → IsPort p)
  metrics_iff false p = (λ h e. absurd (starts e), λ h. refl)
  metrics_iff true p =
      (λ h e. (validate_metrics_port_iff p).0 h, λ h. (validate_metrics_port_iff p).1 (h refl))

validate_metrics_iff :
    (env : Env) (o : Options)
    → (validate_metrics env o.metrics_bind_address o.app.readiness_probe_port o.bind_port ≡ [])
      ↔ IsMetricsAccepted env o
unfolding validate_metrics
validate_metrics_iff env o =
    metrics_iff env o.metrics_bind_address o.app.readiness_probe_port o.bind_port
      (is_enabled o.metrics_bind_address) (metrics_port env o.metrics_bind_address)

key_pair_iff :
    (cert key : Text) (loads config_set : Bool) (rest : List OptionError) (Q : Type 0)
    → (rest ≡ []) ↔ Q
    → ((if differ (is_empty cert) (is_empty key)
          then half_key_pair ∷ []
          else (if not (is_empty cert) && not loads
              then bad_key_pair ∷ []
              else (if config_set then [] else rest)))
        ≡ [])
      ↔ (((cert ≡ []) ↔ (key ≡ [])) × (cert ≢ [] → loads ≡ true) × (config_set ≡ false → Q))
unfolding differ
key_pair_iff [] [] loads true rest Q f =
    (λ h. ((λ e. refl, λ e. refl), (λ n. absurd (n refl)), λ e. absurd (ends e)), λ h. refl)
key_pair_iff [] [] loads false rest Q f =
    (λ h. ((λ e. refl, λ e. refl), (λ n. absurd (n refl)), λ e. f.0 h), λ h. f.1 (h.2 refl))
key_pair_iff [] (k ∷ key) loads config_set rest Q f =
    (λ h. absurd (not_nil h), λ h. absurd (not_nil (h.0.0 refl)))
key_pair_iff (c ∷ cert) [] loads config_set rest Q f =
    (λ h. absurd (not_nil h), λ h. absurd (not_nil (h.0.1 refl)))
key_pair_iff (c ∷ cert) (k ∷ key) false config_set rest Q f =
    (λ h. absurd (not_nil h), λ h. absurd (starts (h.1 (λ n. not_nil n))))
key_pair_iff (c ∷ cert) (k ∷ key) true true rest Q f = (
  λ h. ((λ n. absurd (not_nil n), λ n. absurd (not_nil n)), (λ n. refl), λ e. absurd (ends e)),
  λ h. refl,
)
key_pair_iff (c ∷ cert) (k ∷ key) true false rest Q f = (
  λ h. ((λ n. absurd (not_nil n), λ n. absurd (not_nil n)), (λ n. refl), λ e. f.0 h),
  λ h. f.1 (h.2 refl),
)

oidc_iff :
    (env : Env) (config_set : Bool) (o : OidcOptions)
    → (validate_oidc env config_set o ≡ []) ↔ IsOidcAccepted env config_set o
unfolding validate_oidc
oidc_iff env config_set o =
    key_pair_iff o.tls_client_cert_file o.tls_client_key_file
      (env.loads o.tls_client_cert_file o.tls_client_key_file) config_set (validate_issuer env o) _
      (issuer_iff env o)

format_iff :
    (format : Text)
    → (not (valid_format format) ≡ false) ↔ ((format ≡ codes "json") ⊎ (format ≡ codes "text"))
unfolding valid_format
format_iff format = ground (arith, eq_iff format (codes "json"), eq_iff format (codes "text"))

config_iff :
    (env : Env) (file : Text)
    → (validate_config_file env file ≡ []) ↔ (file ≢ [] → env.exists file ≡ true)
unfolding validate_config_file error_if
config_iff env [] = ground arith
config_iff env (c ∷ file) = ground arith

exclusive_iff :
    (file : Text) (changed : Bool)
    → ((not (is_empty file) && changed) ≡ false) ↔ (file ≢ [] → changed ≡ false)
exclusive_iff [] changed = ground arith
exclusive_iff (c ∷ file) changed = ground arith

-- What the options must be.
abbrev pub IsAccepted : Env → Options → Type 0
IsAccepted env o =
    (o.config_file ≢ [] → env.exists o.config_file ≡ true)
    × ((o.config_file ≢ [] → oidc_flags_changed o.oidc_flags ≡ false)
        × (IsOidcAccepted env (not (is_empty o.config_file)) o.oidc
            × ((env.serving_errors ≡ [])
                × ((o.bind_port ≢ o.app.readiness_probe_port)
                    × ((env.audit_errors ≡ [])
                        × (((o.logging_format ≡ codes "json") ⊎ (o.logging_format ≡ codes "text"))
                            × (IsMetricsAccepted env o × IsAppAccepted o.app)))))))

-- The validation returns no error for exactly the options that are acceptable: the files exist, the
-- flags of one issuer are not mixed with a configuration file, the key pair and the issuer are
-- given whole, the ports differ, no header is added where impersonation is off, the timeouts and
-- the limit are positive and no time to live is negative.
pub validate_iff : (env : Env) (o : Options) → (validate env o ≡ []) ↔ IsAccepted env o
unfolding validate
validate_iff env o = append_iff _ _ (config_iff env o.config_file) (
    append_iff _ _
      (error_if_iff _ _ (exclusive_iff o.config_file (oidc_flags_changed o.oidc_flags)))
      (append_iff _ _ (oidc_iff env (not (is_empty o.config_file)) o.oidc) (
        append_iff _ _ (foreign_errors_iff env.serving_errors) (
          append_iff _ _ (error_if_iff _ _ (is_same_iff o.bind_port o.app.readiness_probe_port)) (
            append_iff _ _ (foreign_errors_iff env.audit_errors) (
              append_iff _ _ (error_if_iff _ _ (format_iff o.logging_format))
                (append_iff _ _ (validate_metrics_iff env o) (validate_app_iff env o.app))))))))
