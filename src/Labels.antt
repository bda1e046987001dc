-- ===== src/Labels.antt =====
-- The projections onto closed label sets: pkg/metrics/labels.go. RequestInfo is k8s.io/apiserver's.
pub mod Projected
pub mod Closed
use kube_oidc_proxy.Base.{
  ℕ, eqb, Text, codes, ◌==◌, Bool, true, false, not, ◌||◌, ◌&&◌, Option, none, some, List, [], ◌∷◌,
  any, is_empty, if◌then◌else◌,
}

pub record RequestInfo : Type 0 where
  pub is_resource_request : Bool
  pub verb : Text
  pub subresource : Text
  pub name : Text
  pub namespace : Text

unfoldable pub project_verb : Text → Text
project_verb v =
    if codes "get" == v
      || (codes "list" == v
          || (codes "watch" == v
              || (codes "create" == v
                  || (codes "update" == v
                      || (codes "patch" == v
                          || (codes "delete" == v
                              || (codes "deletecollection" == v
                                  || (codes "proxy" == v || codes "connect" == v))))))))
    then v
    else codes "other"

unfoldable pub project_termination : Text → Text
project_termination v =
    if codes "normal" == v
      || (codes "hijacked" == v
          || (codes "client_cancel" == v
              || (codes "panic" == v
                  || (codes "upstream_timeout" == v
                      || (codes "upstream_reset" == v || codes "proxy_error" == v)))))
    then v
    else codes "other"

unfoldable pub project_scope : Text → Text
project_scope v =
    if codes "cluster" == v
      || (codes "namespace" == v || (codes "resource" == v || codes "none" == v))
    then v
    else codes "none"

unfoldable pub project_auth_method : Text → Text
project_auth_method v =
    if codes "oidc" == v || (codes "tokenreview" == v || codes "none" == v)
    then v
    else codes "other"

unfoldable pub project_reason : Text → Text
project_reason v =
    if [] == v
      || (codes "unauthorized" == v
          || (codes "reserved_identity" == v
              || (codes "no_username_claim" == v
                  || (codes "impersonation_denied" == v
                      || (codes "too_many_impersonation_values" == v
                          || (codes "client_canceled" == v
                              || (codes "internal_error" == v
                                  || (codes "upstream_error" == v
                                      || codes "authentication_dependency_error" == v))))))))
    then v
    else codes "other"

unfoldable pub project_auth_outcome : Text → Text
project_auth_outcome v =
    if codes "accepted" == v || (codes "rejected" == v || codes "error" == v)
    then v
    else codes "other"

unfoldable pub project_review : Text → Text
project_review v = if codes "tokenreview" == v || codes "sar" == v then v else codes "other"

unfoldable pub project_review_outcome : Text → Text
project_review_outcome v =
    if codes "allow" == v
      || (codes "deny" == v
          || (codes "timeout" == v || (codes "canceled" == v || codes "error" == v)))
    then v
    else codes "other"

unfoldable pub project_cache_result : Text → Text
project_cache_result v =
    if codes "hit" == v || (codes "miss" == v || codes "bypass" == v) then v else codes "other"

unfoldable pub project_audit_operation : Text → Text
project_audit_operation v = if codes "run" == v || codes "shutdown" == v then v else codes "other"

-- http.StatusText and strconv.Itoa are the first two arguments.
unfoldable pub code_for : (ℕ → Text) → (ℕ → Text) → ℕ → Text
code_for status_text itoa status =
    if eqb status 0
    then codes "none"
    else (if is_empty (status_text status) then codes "other" else itoa status)

-- What errors.Is, errors.As and apierrors.IsTimeout find in the error of a review.
pub record ReviewError : Type 0 where
  pub is_deadline : Bool
  pub is_net_timeout : Bool
  pub is_api_timeout : Bool
  pub is_canceled : Bool

unfoldable pub review_outcome_for : Option ReviewError → Bool → Text
review_outcome_for none allowed = if allowed then codes "allow" else codes "deny"
review_outcome_for (some e) allowed =
    if e.is_deadline || (e.is_net_timeout || e.is_api_timeout)
    then codes "timeout"
    else (if e.is_canceled then codes "canceled" else codes "error")

unfoldable pub is_connect_subresource : Text → Bool
is_connect_subresource sub =
    codes "exec" == sub
    || (codes "attach" == sub
        || (codes "portforward" == sub || (codes "log" == sub || codes "proxy" == sub)))

unfoldable pub verb_for : Option RequestInfo → Text
verb_for none = codes "other"
verb_for (some info) =
    if not info.is_resource_request
    then (if info.verb == codes "get" then codes "get" else codes "other")
    else (if is_connect_subresource info.subresource
        then codes "connect"
        else project_verb info.verb)

unfoldable pub scope_for : Option RequestInfo → Text
scope_for none = codes "none"
scope_for (some info) =
    if not info.is_resource_request
    then codes "none"
    else (if not (is_empty info.name) || info.verb == codes "create"
        then codes "resource"
        else (if not (is_empty info.namespace) then codes "namespace" else codes "cluster"))
