-- ===== src/Examples/Records.antt =====
-- The access record of a denied impersonation, with a claim among the extras.
use kube_oidc_proxy.Base.{
  ℕ, Text, codes, ◌==◌, false, none, some, List, [], ◌∷◌, ◌≡◌, refl, All, Holds, if◌then◌else◌,
  lookup, insert,
}
use kube_oidc_proxy.Header.{Header}
use kube_oidc_proxy.Request.{UserInfo}
use kube_oidc_proxy.Sanitize.{sanitize, sanitize_list, bound, is_line_space, is_control}
use kube_oidc_proxy.Sanitize.Laws.{IsClean}
use kube_oidc_proxy.ClientIp.{sanitize_forward_headers, forwarded_for}
use kube_oidc_proxy.ClientIp
use kube_oidc_proxy.Chain.{Decision}
use kube_oidc_proxy.AccessLog.{
  Seen, is_loggable, loggable_extra_keys, loggable_extras, log_decision, source_ip,
}
use kube_oidc_proxy.AccessLog.Address.{source_ip-sanitize}
use kube_oidc_proxy.AccessLog.Clean.{is_claim, number_of, map_values, loggable_extras_lem}
use kube_oidc_proxy.AccessLog.Fit.{IsFit, log_decision-IsFit}
use kube_oidc_proxy.Examples.Addresses.{net, trusted, request}

abbrev headers : Header
headers = (codes "X-Forwarded-For", codes "9.9.9.9,10.0.0.7" ∷ []) ∷ []

abbrev peer : Text
peer = codes "10.0.0.1:443"

abbrev extra : List (Text × List Text)
extra =
    (codes "scopes", codes "admin" ∷ []) ∷ (codes "Remote-Client-IP", (b'9' ∷ 10 ∷ []) ∷ []) ∷ []

abbrev user : UserInfo
user = record { name = codes "alice"; uid = []; groups = codes "ops" ∷ []; extra = extra }

abbrev denied : Decision
denied = record {
  allowed = false;
  reason = codes "impersonation_denied";
  auth_method = codes "oidc";
  inbound = some user;
  outbound = none;
  target_kind = codes "user";
  target_name = b'b' ∷ 27 ∷ [];
}

abbrev seen : Seen
seen = record { path = some (codes "/api"); method = codes "GET"; info = none }

source_ip-sanitize_example :
    let ip =
      ClientIp.resolve_client_ip net
        (request headers peer).remote_addr
        (forwarded_for (request headers peer).header)
        trusted in
    (source_ip net trusted (request headers peer) ≡ ip)
    × (source_ip net trusted (sanitize_forward_headers net trusted (request headers peer)) ≡ ip)
source_ip-sanitize_example = source_ip-sanitize net trusted (request headers peer)

log_decision-IsFit_example : All IsFit (log_decision net trusted (request headers peer) seen denied)
log_decision-IsFit_example = log_decision-IsFit net trusted (request headers peer) seen denied

loggable_extras_lem_example :
    let (safe, omitted) = loggable_extras extra in
    ((k : Text) → lookup k safe ≡ (if is_loggable k then map_values (lookup k extra) else none))
    × (omitted ≡ number_of is_claim extra)
    × Holds (λ k vs. IsClean k × All IsClean vs) safe
loggable_extras_lem_example = loggable_extras_lem extra

logged :
    ◌≡◌ {A = List (Text × List Text) × ℕ}
      (loggable_extras extra)
      ((codes "Remote-Client-IP", (b'9' ∷ b' ' ∷ []) ∷ []) ∷ [], 1)
unfolding loggable_extras is_loggable loggable_extra_keys codes ◌==◌ insert sanitize sanitize_list
    bound is_line_space is_control
logged = refl
