-- ===== src/Chain/Errors.antt =====
-- newErrorHandler of pkg/proxy/handlers.go. The audit filters that wrap two of its answers are left
-- out: they record the answer, or put a 500 in its place where they cannot.
use kube_oidc_proxy.Base.{
  ℕ, Text, codes, Bool, false, ◌||◌, ◌&&◌, none, some, List, [], ◌∷◌, ◌++◌, reverse, eqb,
  if◌then◌else◌,
}
use kube_oidc_proxy.Request.{Request}
use kube_oidc_proxy.Sar.{
  canceled, Kind, too_many_values, no_impersonation_user, create_review, not_allowed,
}
use kube_oidc_proxy.Chain.{
  TransportError, ProxyError, unauthorized, reserved_identity, no_name, no_impersonation_config,
  review, marshal_failed, transport, anomaly, handler_failed, upstream_canceled, upstream_failed,
  Run, Proxy, record_event, respond, with_world, record_decision, auth_method_from,
}

abbrev quote : ℕ
quote = 39

-- impersonationTargetKind of the kind's name
unfoldable pub target_kind_name : Kind → Text
target_kind_name Kind.user = codes "user"
target_kind_name Kind.group = codes "group"
target_kind_name Kind.uid = codes "uid"
target_kind_name Kind.extra_info = codes "extra"

-- The target as the denial names it: each name in quotes, joined by `=`.
unfoldable pub quoted : List Text → Text
quoted [] = []
quoted (t ∷ []) = quote ∷ t ++ quote ∷ []
quoted (t ∷ u ∷ ts) = quote ∷ t ++ quote ∷ b'=' ∷ quoted (u ∷ ts)

unfoldable pub trim_quotes_left : Text → Text
trim_quotes_left [] = []
trim_quotes_left (c ∷ s) = if eqb c quote then trim_quotes_left s else c ∷ s

-- strings.Trim(target, "'")
unfoldable pub trim_quotes : Text → Text
trim_quotes s = reverse (trim_quotes_left (reverse (trim_quotes_left s)))

-- The target that an ImpersonationAuthError names.
unfoldable pub denied_target : ProxyError → Text × Text
denied_target (review (not_allowed requester kind targets)) =
    (target_kind_name kind, trim_quotes (quoted targets))
denied_target _ = ([], [])

unfoldable pub is_upstream_transport_error : TransportError → Bool
is_upstream_transport_error e =
    e.is_net_error || (e.is_op_url_or_certificate || (e.is_eof || e.is_errno))

unfoldable pub upstream_termination : TransportError → Text
upstream_termination e =
    if e.is_net_error && e.is_timeout
    then codes "upstream_timeout"
    else (if e.is_eof || e.is_reset then codes "upstream_reset" else codes "proxy_error")

module _ {World : Type 0} (p : Proxy World) where
  -- logAnomaly, token-bucketed
  unfoldable pub log_anomaly : Text → Run World → Run World
  log_anomaly reason r =
      let (allowed, w) = p.allow_warning reason r.reviews.world in
      if allowed then record_event (anomaly reason) (with_world w r) else with_world w r

  unfoldable pub log_denied : Request → Text → ProxyError → Run World → Run World
  log_denied req reason e r =
      let (kind, name) = denied_target e in
      if r.recorded
      then r
      else record_decision
          (record {
            allowed = false;
            reason = reason;
            auth_method = auth_method_from req;
            inbound = req.ctx.user;
            outbound = none;
            target_kind = kind;
            target_name = name;
          })
          r

  -- The cases that report an internal error.
  unfoldable pub internal_error : Request → ProxyError → Run World → Run World
  internal_error req e r =
      respond 500 (log_denied req (codes "internal_error") e (record_event handler_failed r))

  unfoldable pub client_canceled : Request → ProxyError → Run World → Run World
  client_canceled req e r =
      log_denied req (codes "client_canceled") e (record_event upstream_canceled r)

  unfoldable pub upstream_error : TransportError → Run World → Run World
  upstream_error t r = respond 502 (
      record_event (upstream_failed (upstream_termination t))
        (record r { termination = some (upstream_termination t, codes "upstream_error") }))

  unfoldable pub handle_error : Request → ProxyError → Run World → Run World
  handle_error req unauthorized r =
      respond 401 (log_denied req (codes "unauthorized") unauthorized r)
  handle_error req (reserved_identity refusal) r = respond 403 (
      log_denied req (codes "reserved_identity") (reserved_identity refusal)
        (log_anomaly (codes "reserved_identity") r))
  handle_error req no_name r = respond 403 (log_denied req (codes "no_username_claim") no_name r)
  handle_error req no_impersonation_config r = internal_error req no_impersonation_config r
  handle_error req (review no_impersonation_user) r =
      respond 500 (log_denied req (codes "internal_error") (review no_impersonation_user) r)
  handle_error req (review (too_many_values count limit)) r = respond 431 (
      log_denied req (codes "too_many_impersonation_values") (review (too_many_values count limit))
        (log_anomaly (codes "too_many_impersonation_values") r))
  handle_error req (review (not_allowed requester kind targets)) r = respond 403 (
      log_denied req (codes "impersonation_denied") (review (not_allowed requester kind targets)) r)
  handle_error req (review (create_review canceled)) r =
      client_canceled req (review (create_review canceled)) r
  handle_error req (review e) r = internal_error req (review e) r
  handle_error req marshal_failed r = internal_error req marshal_failed r
  handle_error req (transport t) r =
      if t.is_canceled
      then client_canceled req (transport t) r
      else (if is_upstream_transport_error t
          then upstream_error t r
          else internal_error req (transport t) r)
