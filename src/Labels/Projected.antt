-- ===== src/Labels/Projected.antt =====
-- What the projections of pkg/metrics/labels.go make of a word.
use kube_oidc_proxy.Base.{
  any, [], ◌⊎◌, Text, codes, ◌==◌, Bool, true, false, List, ◌∷◌, ◌≡◌, refl, arith, if◌then◌else◌,
  inl, inr,
}
use kube_oidc_proxy.Labels.{
  project_verb, project_termination, project_scope, project_auth_method, project_reason,
  project_auth_outcome, project_review, project_review_outcome, project_cache_result,
  project_audit_operation,
}

-- The sets of the labels.
abbrev pub verbs : List Text
verbs =
    codes "get"
    ∷ codes "list"
    ∷ codes "watch"
    ∷ codes "create"
    ∷ codes "update"
    ∷ codes "patch"
    ∷ codes "delete"
    ∷ codes "deletecollection"
    ∷ codes "proxy"
    ∷ codes "connect"
    ∷ []

abbrev pub terminations : List Text
terminations =
    codes "normal"
    ∷ codes "hijacked"
    ∷ codes "client_cancel"
    ∷ codes "panic"
    ∷ codes "upstream_timeout"
    ∷ codes "upstream_reset"
    ∷ codes "proxy_error"
    ∷ []

abbrev pub scopes : List Text
scopes = codes "cluster" ∷ codes "namespace" ∷ codes "resource" ∷ codes "none" ∷ []

abbrev pub auth_methods : List Text
auth_methods = codes "oidc" ∷ codes "tokenreview" ∷ codes "none" ∷ []

abbrev pub reasons : List Text
reasons =
    []
    ∷ codes "unauthorized"
    ∷ codes "reserved_identity"
    ∷ codes "no_username_claim"
    ∷ codes "impersonation_denied"
    ∷ codes "too_many_impersonation_values"
    ∷ codes "client_canceled"
    ∷ codes "internal_error"
    ∷ codes "upstream_error"
    ∷ codes "authentication_dependency_error"
    ∷ []

abbrev pub auth_outcomes : List Text
auth_outcomes = codes "accepted" ∷ codes "rejected" ∷ codes "error" ∷ []

abbrev pub reviews : List Text
reviews = codes "tokenreview" ∷ codes "sar" ∷ []

abbrev pub review_outcomes : List Text
review_outcomes =
    codes "allow" ∷ codes "deny" ∷ codes "timeout" ∷ codes "canceled" ∷ codes "error" ∷ []

abbrev pub cache_results : List Text
cache_results = codes "hit" ∷ codes "miss" ∷ codes "bypass" ∷ []

abbrev pub audit_operations : List Text
audit_operations = codes "run" ∷ codes "shutdown" ∷ []

abbrev pub contains_text : List Text → Text → Bool
contains_text known v = any (λ k. k == v) known

-- One of a list, or `other`.
abbrev pub IsLabel : List Text → Text → Type 0
IsLabel known v = contains_text (codes "other" ∷ known) v ≡ true

-- What a projection onto a list makes of a word: a listed word as it is, and another value for any
-- other word.
abbrev pub IsProjected : List Text → Text → Text → Text → Type 0
IsProjected known rest v out =
    ((contains_text known v ≡ true) × (out ≡ v)) ⊎ ((contains_text known v ≡ false) × (out ≡ rest))

switch-IsProjected :
    (known : List Text) (rest v : Text) (t : Bool)
    → contains_text known v ≡ t
    → IsProjected known rest v (if t then v else rest)
switch-IsProjected known rest v true e = inl (e, refl)
switch-IsProjected known rest v false e = inr (e, refl)

pub project_verb-IsProjected : (v : Text) → IsProjected verbs (codes "other") v (project_verb v)
unfolding project_verb
project_verb-IsProjected v = switch-IsProjected verbs (codes "other") v _ (ground arith)

pub project_termination-IsProjected :
    (v : Text) → IsProjected terminations (codes "other") v (project_termination v)
unfolding project_termination
project_termination-IsProjected v =
    switch-IsProjected terminations (codes "other") v _ (ground arith)

pub project_scope-IsProjected : (v : Text) → IsProjected scopes (codes "none") v (project_scope v)
unfolding project_scope
project_scope-IsProjected v = switch-IsProjected scopes (codes "none") v _ (ground arith)

pub project_auth_method-IsProjected :
    (v : Text) → IsProjected auth_methods (codes "other") v (project_auth_method v)
unfolding project_auth_method
project_auth_method-IsProjected v =
    switch-IsProjected auth_methods (codes "other") v _ (ground arith)

pub project_reason-IsProjected :
    (v : Text) → IsProjected reasons (codes "other") v (project_reason v)
unfolding project_reason
project_reason-IsProjected v = switch-IsProjected reasons (codes "other") v _ (ground arith)

pub project_auth_outcome-IsProjected :
    (v : Text) → IsProjected auth_outcomes (codes "other") v (project_auth_outcome v)
unfolding project_auth_outcome
project_auth_outcome-IsProjected v =
    switch-IsProjected auth_outcomes (codes "other") v _ (ground arith)

pub project_review-IsProjected :
    (v : Text) → IsProjected reviews (codes "other") v (project_review v)
unfolding project_review
project_review-IsProjected v = switch-IsProjected reviews (codes "other") v _ (ground arith)

pub project_review_outcome-IsProjected :
    (v : Text) → IsProjected review_outcomes (codes "other") v (project_review_outcome v)
unfolding project_review_outcome
project_review_outcome-IsProjected v =
    switch-IsProjected review_outcomes (codes "other") v _ (ground arith)

pub project_cache_result-IsProjected :
    (v : Text) → IsProjected cache_results (codes "other") v (project_cache_result v)
unfolding project_cache_result
project_cache_result-IsProjected v =
    switch-IsProjected cache_results (codes "other") v _ (ground arith)

pub project_audit_operation-IsProjected :
    (v : Text) → IsProjected audit_operations (codes "other") v (project_audit_operation v)
unfolding project_audit_operation
project_audit_operation-IsProjected v =
    switch-IsProjected audit_operations (codes "other") v _ (ground arith)
