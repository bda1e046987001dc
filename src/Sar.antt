-- ===== src/Sar.antt =====
-- SubjectAccessReviews for impersonation: pkg/proxy/subjectaccessreview. This module has the
-- review's spec, the errors and the settings; Sar/Live the cache and the live checks, Sar/Check the
-- walk over the request's headers.
pub mod Live
pub mod Check
pub mod Trust
pub mod Settling
pub mod Granted
pub mod Soundness
pub mod Forwarding
pub mod Calls
pub mod Cost
use kube_oidc_proxy.Base.{
  ℕ, Text, codes, ◌==◌, Bool, true, false, Option, none, some, List, [], ◌∷◌, eqb, leb, is_empty,
  split_on, has_prefix, if◌then◌else◌, ◌&&◌,
}
use kube_oidc_proxy.Base.Result.{Result, ok, err}
use kube_oidc_proxy.Request.{UserInfo}

-- SubjectAccessReviewSpec with its ResourceAttributes.
pub record Spec : Type 0 where
  pub user : Text
  pub uid : Text
  pub groups : List Text
  pub extra : List (Text × List Text)
  pub verb : Text
  pub group : Text
  pub resource : Text
  pub subresource : Text
  pub name : Text

-- What the client of the API server reports: a context error, or any other failure.
pub data ApiError : Type 0 where
  canceled : ApiError
  deadline_exceeded : ApiError
  failed : Text → ApiError

-- The kinds that an ImpersonationAuthError names.
pub data Kind : Type 0 where
  user : Kind
  group : Kind
  uid : Kind
  extra_info : Kind

pub data SarError : Type 0 where
  too_many_values : (count limit : ℕ) → SarError
  no_impersonation_user : SarError
  create_review : ApiError → SarError
  not_allowed : (requester : Text) → Kind → (targets : List Text) → SarError
  unknown_header : Text → SarError
  -- The panic of `values[0]` on a header without values.
  index_out_of_range : SarError

-- Durations that are not positive are 0. `cached` is false where the cache is nil.
pub record Reviewer : Type 0 where
  pub sar_timeout : ℕ
  pub max_header_values : ℕ
  pub cached : Bool
  pub allow_ttl : ℕ
  pub deny_ttl : ℕ

-- newDecisionCache: no cache at all where neither TTL is positive.
abbrev pub has_cache : ℕ → ℕ → Bool
has_cache allow_ttl deny_ttl = if leb allow_ttl 0 && leb deny_ttl 0 then false else true

unfoldable pub new : ℕ → ℕ → ℕ → ℕ → Option Reviewer
new sar_timeout allow_ttl deny_ttl max_header_values =
    if leb max_header_values 0
    then none
    else some (record {
      sar_timeout = sar_timeout;
      max_header_values = max_header_values;
      cached = has_cache allow_ttl deny_ttl;
      allow_ttl = allow_ttl;
      deny_ttl = deny_ttl;
    })

abbrev pub authentication_group : Text
authentication_group = codes "authentication.k8s.io"

-- The resource, the subresource and the group: `users/x` is split at its slashes if the first is
-- not the first byte.
unfoldable pub resource_parts : Text → List Text → Text × Text × Text
resource_parts resource ((c ∷ first) ∷ second ∷ rest) = (c ∷ first, second, authentication_group)
resource_parts resource pieces = (resource, [], [])

unfoldable pub impersonation_review_spec : Text → Text → UserInfo → Spec
impersonation_review_spec resource name requester =
    let (kind, sub, api_group) = resource_parts resource (split_on b'/' resource) in
    record {
      user = requester.name;
      uid = requester.uid;
      groups = requester.groups;
      extra = requester.extra;
      verb = codes "impersonate";
      group = if kind == codes "uids" then authentication_group else api_group;
      resource = kind;
      subresource = sub;
      name = name;
    }

unfoldable pub target_kind : Text → Text
target_kind resource =
    if resource == codes "users"
    then codes "user"
    else (if resource == codes "groups"
        then codes "group"
        else (if resource == codes "uids"
            then codes "uid"
            else (if has_prefix resource (codes "userextras/")
                then codes "extra"
                else codes "unknown")))
