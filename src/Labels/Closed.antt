-- ===== src/Labels/Closed.antt =====
-- The values that the projections of pkg/metrics/labels.go can give.
use kube_oidc_proxy.Base.{
  ℕ, eqb, is_empty, ◌||◌, ◌⊎◌, Text, codes, ◌==◌, eq_refl, Bool, true, false, not, Option, none,
  some, ◌≡◌, refl, arith, if◌then◌else◌, inl, inr,
}
use kube_oidc_proxy.Chain.{TransportError}
use kube_oidc_proxy.Chain.Errors.{upstream_termination}
use kube_oidc_proxy.Lifecycle.{End, returned, aborted, panicked, termination_of}
use kube_oidc_proxy.Labels.{
  RequestInfo, ReviewError, is_connect_subresource, project_verb, project_termination,
  project_scope, project_auth_method, project_reason, project_auth_outcome, project_review,
  project_review_outcome, project_cache_result, project_audit_operation, verb_for, scope_for,
  code_for, review_outcome_for,
}
use kube_oidc_proxy.Labels.Projected.{
  verbs, terminations, scopes, auth_methods, reasons, auth_outcomes, reviews, review_outcomes,
  cache_results, audit_operations, contains_text, IsLabel, IsProjected, project_verb-IsProjected,
  project_termination-IsProjected, project_scope-IsProjected, project_auth_method-IsProjected,
  project_reason-IsProjected, project_auth_outcome-IsProjected, project_review-IsProjected,
  project_review_outcome-IsProjected, project_cache_result-IsProjected,
  project_audit_operation-IsProjected,
}

abbrev either_way : (P : Text → Type 0) (t : Bool) (x y : Text) → P x → P y → P (if t then x else y)
either_way P true x y h k = h
either_way P false x y h k = k

verb-IsLabel : {v out : Text} → IsProjected verbs (codes "other") v out → IsLabel verbs out
verb-IsLabel (inl (listed, e)) = rw e (ground (arith, listed))
verb-IsLabel (inr (_, e)) = rw e (ground (arith, eq_refl (codes "other")))

known_verbs :
    IsLabel verbs (codes "get") × IsLabel verbs (codes "other") × IsLabel verbs (codes "connect")
unfolding codes ◌==◌
known_verbs = (refl, refl, refl)

verb_for-IsLabel : (info : Option RequestInfo) → IsLabel verbs (verb_for info)
unfolding verb_for
verb_for-IsLabel none = known_verbs.1
verb_for-IsLabel (some info) =
    either_way (IsLabel verbs) (not info.is_resource_request) _ _
      (either_way (IsLabel verbs) (info.verb == codes "get") _ _ known_verbs.0 known_verbs.1)
      (either_way (IsLabel verbs) (is_connect_subresource info.subresource) _ _ known_verbs.2
        (verb-IsLabel (project_verb-IsProjected info.verb)))

known_scopes :
    (contains_text scopes (codes "none") ≡ true)
    × (contains_text scopes (codes "resource") ≡ true)
    × (contains_text scopes (codes "namespace") ≡ true)
    × (contains_text scopes (codes "cluster") ≡ true)
unfolding codes ◌==◌
known_scopes = (refl, refl, refl, refl)

scope_for-listed : (info : Option RequestInfo) → contains_text scopes (scope_for info) ≡ true
unfolding scope_for
scope_for-listed none = known_scopes.0
scope_for-listed (some info) =
    let P : Text → Type 0 = λ v. contains_text scopes v ≡ true in
    either_way P (not info.is_resource_request) _ _ known_scopes.0 (
      either_way P (not (is_empty info.name) || info.verb == codes "create") _ _ known_scopes.1
        (either_way P (not (is_empty info.namespace)) _ _ known_scopes.2 known_scopes.3))

abbrev pub Settles : Text → Type 0
Settles v = (contains_text review_outcomes v ≡ true) × (project_review_outcome v ≡ v)

known_outcomes :
    Settles (codes "allow")
    × Settles (codes "deny")
    × Settles (codes "timeout")
    × Settles (codes "canceled")
    × Settles (codes "error")
unfolding project_review_outcome codes ◌==◌
known_outcomes = ((refl, refl), (refl, refl), (refl, refl), (refl, refl), (refl, refl))

review_outcome_for-Settles :
    (e : Option ReviewError) (allowed : Bool) → Settles (review_outcome_for e allowed)
unfolding review_outcome_for
review_outcome_for-Settles none allowed =
    either_way Settles allowed _ _ known_outcomes.0 known_outcomes.1
review_outcome_for-Settles (some e) allowed =
    either_way Settles (e.is_deadline || (e.is_net_timeout || e.is_api_timeout)) _ _
      known_outcomes.2 (either_way Settles e.is_canceled _ _ known_outcomes.3 known_outcomes.4)

code_for-bounded :
    (status_text itoa : ℕ → Text) (status : ℕ)
    → ((code_for status_text itoa status ≡ codes "none")
        ⊎ (code_for status_text itoa status ≡ codes "other"))
      ⊎ ((code_for status_text itoa status ≡ itoa status) × (is_empty (status_text status) ≡ false))
unfolding code_for
code_for-bounded status_text itoa status = cases (eqb status 0) (is_empty (status_text status))
  where
    cases :
        (t u : Bool)
        → let code = if t then codes "none" else (if u then codes "other" else itoa status) in
          ((code ≡ codes "none") ⊎ (code ≡ codes "other")) ⊎ ((code ≡ itoa status) × (u ≡ false))
    cases true u = inl (inl refl)
    cases false true = inl (inr refl)
    cases false false = inr (refl, refl)

-- Whatever a client sends, the labels that this package computes come from fixed sets: the verb and
-- the scope of any request, the code of any status (one that net/http names, if not one of two
-- words), and the outcome of a review, which its projection keeps. Each of the ten projections keeps
-- the words of its set and makes one fixed word of any other.
pub labels-IsClosed :
    (info : Option RequestInfo) (status_text itoa : ℕ → Text) (status : ℕ) (e : Option ReviewError)
    (allowed : Bool) (v : Text)
    → IsLabel verbs (verb_for info)
      × (contains_text scopes (scope_for info) ≡ true)
      × (((code_for status_text itoa status ≡ codes "none")
            ⊎ (code_for status_text itoa status ≡ codes "other"))
          ⊎ ((code_for status_text itoa status ≡ itoa status)
              × (is_empty (status_text status) ≡ false)))
      × Settles (review_outcome_for e allowed)
      × IsProjected verbs (codes "other") v (project_verb v)
      × IsProjected terminations (codes "other") v (project_termination v)
      × IsProjected scopes (codes "none") v (project_scope v)
      × IsProjected auth_methods (codes "other") v (project_auth_method v)
      × IsProjected reasons (codes "other") v (project_reason v)
      × IsProjected auth_outcomes (codes "other") v (project_auth_outcome v)
      × IsProjected reviews (codes "other") v (project_review v)
      × IsProjected review_outcomes (codes "other") v (project_review_outcome v)
      × IsProjected cache_results (codes "other") v (project_cache_result v)
      × IsProjected audit_operations (codes "other") v (project_audit_operation v)
labels-IsClosed info status_text itoa status e allowed v = (
  verb_for-IsLabel info,
  scope_for-listed info,
  code_for-bounded status_text itoa status,
  review_outcome_for-Settles e allowed,
  project_verb-IsProjected v,
  project_termination-IsProjected v,
  project_scope-IsProjected v,
  project_auth_method-IsProjected v,
  project_reason-IsProjected v,
  project_auth_outcome-IsProjected v,
  project_review-IsProjected v,
  project_review_outcome-IsProjected v,
  project_cache_result-IsProjected v,
  project_audit_operation-IsProjected v,
)

abbrev Passes : Text → Type 0
Passes v = project_termination v ≡ v

hijacked-Passes : Passes (codes "hijacked")
unfolding project_termination codes ◌==◌
hijacked-Passes = refl

client_cancel-Passes : Passes (codes "client_cancel")
unfolding project_termination codes ◌==◌
client_cancel-Passes = refl

panic-Passes : Passes (codes "panic")
unfolding project_termination codes ◌==◌
panic-Passes = refl

normal-Passes : Passes (codes "normal")
unfolding project_termination codes ◌==◌
normal-Passes = refl

reset-Passes : Passes (codes "upstream_reset")
unfolding project_termination codes ◌==◌
reset-Passes = refl

timeout-Passes : Passes (codes "upstream_timeout")
unfolding project_termination codes ◌==◌
timeout-Passes = refl

proxy_error-Passes : Passes (codes "proxy_error")
unfolding project_termination codes ◌==◌
proxy_error-Passes = refl

upstream_termination-Passes : (t : TransportError) → Passes (upstream_termination t)
unfolding upstream_termination
upstream_termination-Passes t =
    either_way Passes _ _ _ timeout-Passes (either_way Passes _ _ _ reset-Passes proxy_error-Passes)

-- The termination of a request whose upstream failure the error handler classified is a value of
-- the metric's label, so the label and the terminal record say the same.
pub project-termination_of :
    (end : End) (hijacked gone : Bool) (t : TransportError)
    → let term = termination_of end hijacked gone (upstream_termination t) in
      project_termination term ≡ term
unfolding termination_of
project-termination_of panicked hijacked gone t = panic-Passes
project-termination_of aborted hijacked gone t =
    either_way Passes hijacked _ _ hijacked-Passes
      (either_way Passes gone _ _ client_cancel-Passes reset-Passes)
project-termination_of returned hijacked gone t = either_way Passes hijacked _ _ hijacked-Passes (
    either_way Passes gone _ _ client_cancel-Passes
      (either_way Passes _ _ _ normal-Passes (upstream_termination-Passes t)))
