-- ===== src/Examples/Metrics.antt =====
-- The labels of a watch, and of a request whose upstream timed out.
use kube_oidc_proxy.Base.{
  ℕ, eqb, Text, codes, true, false, none, some, [], ◌≡◌, ◌⊎◌, is_empty, if◌then◌else◌,
}
use kube_oidc_proxy.Chain.{TransportError}
use kube_oidc_proxy.Chain.Errors.{upstream_termination}
use kube_oidc_proxy.Lifecycle.{returned, termination_of}
use kube_oidc_proxy.Labels.{
  RequestInfo, project_verb, project_termination, project_scope, project_auth_method,
  project_reason, project_auth_outcome, project_review, project_review_outcome,
  project_cache_result, project_audit_operation, verb_for, scope_for, code_for, review_outcome_for,
}
use kube_oidc_proxy.Labels.Projected.{
  IsLabel, IsProjected, contains_text, verbs, terminations, scopes, auth_methods, reasons,
  auth_outcomes, reviews, review_outcomes, cache_results, audit_operations,
}
use kube_oidc_proxy.Labels.Closed.{Settles, labels-IsClosed, project-termination_of}

abbrev info : RequestInfo
info = record {
  is_resource_request = true;
  verb = codes "watch";
  subresource = [];
  name = [];
  namespace = codes "dev";
}

abbrev status_text : ℕ → Text
status_text status = if eqb status 200 then codes "OK" else []

abbrev itoa : ℕ → Text
itoa status = codes "200"

labels-IsClosed_example :
    IsLabel verbs (verb_for (some info))
    × (contains_text scopes (scope_for (some info)) ≡ true)
    × (((code_for status_text itoa 299 ≡ codes "none")
          ⊎ (code_for status_text itoa 299 ≡ codes "other"))
        ⊎ ((code_for status_text itoa 299 ≡ itoa 299) × (is_empty (status_text 299) ≡ false)))
    × Settles (review_outcome_for none false)
    × IsProjected verbs (codes "other") (codes "GET") (project_verb (codes "GET"))
    × IsProjected terminations (codes "other") (codes "GET") (project_termination (codes "GET"))
    × IsProjected scopes (codes "none") (codes "GET") (project_scope (codes "GET"))
    × IsProjected auth_methods (codes "other") (codes "GET") (project_auth_method (codes "GET"))
    × IsProjected reasons (codes "other") (codes "GET") (project_reason (codes "GET"))
    × IsProjected auth_outcomes (codes "other") (codes "GET") (project_auth_outcome (codes "GET"))
    × IsProjected reviews (codes "other") (codes "GET") (project_review (codes "GET"))
    × IsProjected review_outcomes
        (codes "other")
        (codes "GET")
        (project_review_outcome (codes "GET"))
    × IsProjected cache_results (codes "other") (codes "GET") (project_cache_result (codes "GET"))
    × IsProjected audit_operations
        (codes "other")
        (codes "GET")
        (project_audit_operation (codes "GET"))
labels-IsClosed_example = labels-IsClosed (some info) status_text itoa 299 none false (codes "GET")

abbrev timed_out : TransportError
timed_out = record {
  is_canceled = false;
  is_net_error = true;
  is_timeout = true;
  is_op_url_or_certificate = false;
  is_eof = false;
  is_errno = false;
  is_reset = false;
}

project-termination_of_example :
    project_termination (termination_of returned false false (upstream_termination timed_out))
    ≡ termination_of returned false false (upstream_termination timed_out)
project-termination_of_example = project-termination_of returned false false timed_out
