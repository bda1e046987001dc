-- ===== src/Probe/Server.antt =====
-- The endpoints of the readiness listener in pkg/probe/probe.go.
use kube_oidc_proxy.Base.{
  ℕ, Text, codes, Option, none, some, ◌≡◌, ap, ◌==◌, not, true, if◌then◌else◌,
}
use kube_oidc_proxy.Probe.{Answer, HealthCheck, CheckError, check}
use kube_oidc_proxy.Probe.Progress.{IsEnough, check-none}

-- What the ServeMux makes of a path.
pub data Endpoint : Type 0 where
  live : Endpoint
  readiness : Endpoint
  unrouted : Endpoint

-- The status of a verdict of Check.
unfoldable pub status_of : Option CheckError → ℕ
status_of none = 200
status_of (some e) = 503

unfoldable pub get_only : Text → ℕ × HealthCheck → HealthCheck → ℕ × HealthCheck
get_only method next h = if not (method == codes "GET") then (405, h) else next

module _ (parse_host : Text → Option Text) (authenticate : Text → Answer) where
  unfoldable pub handler : Endpoint → Text → HealthCheck → ℕ × HealthCheck
  handler live method h = get_only method (200, h) h
  handler readiness method h =
      let (verdict, after) = check parse_host authenticate h in
      get_only method (status_of verdict, after) h
  handler unrouted method h = (404, h)

  -- A GET of the readiness endpoint of a proxy that serves answers 200, and the proxy is ready from
  -- then on, once every issuer was found initialized before or answers now, or some issuer where
  -- one is enough.
  pub handler-readiness :
      (h : HealthCheck)
      → h.serving ≡ true
      → IsEnough parse_host authenticate h h.require_all
      → ((handler readiness (codes "GET") h).0 ≡ 200)
        × ((handler readiness (codes "GET") h).1.ready ≡ true)
  unfolding handler get_only status_of codes ◌==◌
  handler-readiness h serving enough =
      let (verdict, ready) = check-none parse_host authenticate h serving enough in
      (ap status_of verdict, ready)
