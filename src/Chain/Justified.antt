-- ===== src/Chain/Justified.antt =====
-- What justifies sending a request to the API server, for an identity of the filters of
-- pkg/proxy/handlers.go, and lemmas on the error handler.
use kube_oidc_proxy.Base.{
  Text, ◌==◌, eq_refl, Bool, true, false, Option, none, some, List, [], ◌∷◌, ◌++◌, ◌≡◌, refl, ◌⊎◌,
  inl, inr, arith, is_empty, any, if◌then◌else◌, Bool-cases, some_inj, subst,
}
use kube_oidc_proxy.Base.Result.{ok}
use kube_oidc_proxy.Header.{Header}
use kube_oidc_proxy.Request.{UserInfo, ImpersonationConfig, ImpersonationRequest, Request}
use kube_oidc_proxy.Reserved.{all_authenticated, check_reserved_identity}
use kube_oidc_proxy.Sar.{
  canceled, deadline_exceeded, failed, SarError, too_many_values, no_impersonation_user,
  create_review, not_allowed, unknown_header, index_out_of_range,
}
use kube_oidc_proxy.Sar.Live.{State}
use kube_oidc_proxy.Sar.Check.{check_authorized_for_impersonation}
use kube_oidc_proxy.Chain.{
  ProxyError, unauthorized, reserved_identity, no_name, no_impersonation_config, review,
  marshal_failed, transport, Outgoing, plain, impersonated, Run, accepted, Proxy, record_decision,
}
use kube_oidc_proxy.Chain.Errors.{
  log_anomaly, log_denied, internal_error, client_canceled, upstream_error,
  is_upstream_transport_error, handle_error,
}
use kube_oidc_proxy.Chain.Impersonation.{ensure_authenticated, configured, impersonation_request}

module _ {World : Type 0} (p : Proxy World) where
  -- The OIDC authenticator accepted this identity, and the reserved-identity guard let it through.
  pub record IsAuthenticated (user : UserInfo) : Type 0 where
    pub request : Request
    pub world : World
    pub issuer : Text
    pub header : Header
    pub answered : (p.authenticate request world).0 ≡ accepted user issuer header
    pub guarded : check_reserved_identity user p.allowed_reserved_groups ≡ none

  -- The token reviewer accepted a token.
  abbrev pub TokenAccepted : Type 0
  TokenAccepted = (token : Text) × (w : World) × ((p.review_token token w).0 ≡ ok true)

  -- The reviews cleared the target for this requester.
  pub record IsCleared (requester target : UserInfo) : Type 0 where
    pub header : Header
    pub state : State World
    pub rest : Header
    pub answered :
        (check_authorized_for_impersonation p.env p.reviewer requester header state).0
        ≡ ok (some target, rest)

  -- The configuration stands for the identity, or for a target that was cleared for it, with
  -- system:authenticated among its groups.
  pub record IsFor (conf : ImpersonationConfig) : Type 0 where
    pub requester : UserInfo
    pub user : UserInfo
    pub authenticated : IsAuthenticated requester
    pub named : is_empty requester.name ≡ false
    pub cleared : (user ≡ requester) ⊎ IsCleared requester user
    pub user_name : conf.user_name ≡ user.name
    pub uid : conf.uid ≡ user.uid
    pub groups : conf.groups ≡ ensure_authenticated user.groups
    pub grouped : any (λ g. g == all_authenticated) conf.groups ≡ true

  -- A request may go without impersonation if a token was accepted, or if impersonation is
  -- disabled and the identity authenticated.
  abbrev pub IsPlain : Type 0
  IsPlain = TokenAccepted ⊎ ((p.disable_impersonation ≡ true) × (u : UserInfo) × IsAuthenticated u)

  abbrev pub IsJustified : Outgoing → Type 0
  IsJustified (plain req) = IsPlain
  IsJustified (impersonated conf req) = IsFor conf

  any-append :
      (gs : List Text) → any (λ g. g == all_authenticated) (gs ++ all_authenticated ∷ []) ≡ true
  any-append [] = rw (eq_refl all_authenticated) refl
  any-append (g ∷ gs) = ground (arith, any-append gs)

  any-ensure_authenticated :
      (gs : List Text) → any (λ g. g == all_authenticated) (ensure_authenticated gs) ≡ true
  unfolding ensure_authenticated
  any-ensure_authenticated gs = elim (Bool-cases (any (λ g. g == all_authenticated) gs)) [
    | inl there ↦ rw (there, there) refl
    | inr missing ↦ rw missing (any-append gs)
  ]

  configured-IsFor :
      (requester user : UserInfo) (target : Option UserInfo)
      (extra : Option (List (Text × List Text))) (conf : ImpersonationRequest)
      → IsAuthenticated requester
      → is_empty requester.name ≡ false
      → (user ≡ requester) ⊎ IsCleared requester user
      → configured requester target user extra ≡ some conf
      → IsFor conf.config
  unfolding configured
  configured-IsFor requester user target none conf auth named cleared e = absurd (none_some e)
    where
      none_some : ◌≡◌ {A = Option ImpersonationRequest} none (some conf) → ⊥
      none_some z = cc
  configured-IsFor requester user target (some extra) conf auth named cleared e =
      subst (λ c. IsFor c.config) (some_inj e)
        (record {
          requester = requester;
          user = user;
          authenticated = auth;
          named = named;
          cleared = cleared;
          user_name = refl;
          uid = refl;
          groups = refl;
          grouped = any-ensure_authenticated user.groups;
        })

  -- The configuration that is made of an authenticated identity and of its cleared target is for it.
  pub impersonation_request-IsFor :
      (address : Text) (requester : UserInfo) (target : Option UserInfo)
      (conf : ImpersonationRequest)
      → IsAuthenticated requester
      → is_empty requester.name ≡ false
      → ((t : UserInfo) → target ≡ some t → IsCleared requester t)
      → impersonation_request p address requester target ≡ some conf
      → IsFor conf.config
  unfolding impersonation_request
  impersonation_request-IsFor address requester none conf auth named cleared e =
      configured-IsFor requester requester none _ conf auth named (inl refl) e
  impersonation_request-IsFor address requester (some t) conf auth named cleared e =
      configured-IsFor requester t (some t) _ conf auth named (inr (cleared t refl)) e

  -- A run that has sent just these.
  abbrev Sent : List Outgoing → Run World → Type 0
  Sent outs r = r.forwarded ≡ outs

  Sent-either_way :
      (outs : List Outgoing) (t : Bool) (x y : Run World)
      → Sent outs x
      → Sent outs y
      → Sent outs (if t then x else y)
  Sent-either_way outs true x y h k = h
  Sent-either_way outs false x y h k = k

  log_denied-Sent :
      (outs : List Outgoing) (req : Request) (reason : Text) (e : ProxyError) (r : Run World)
      → Sent outs r
      → Sent outs (log_denied p req reason e r)
  unfolding log_denied record_decision
  log_denied-Sent outs req reason e r h = Sent-either_way outs r.recorded _ _ h h

  log_anomaly-Sent :
      (outs : List Outgoing) (reason : Text) (r : Run World)
      → Sent outs r
      → Sent outs (log_anomaly p reason r)
  unfolding log_anomaly
  log_anomaly-Sent outs reason r h = Sent-either_way outs _ _ _ h h

  review-Sent :
      (outs : List Outgoing) (req : Request) (e : SarError) (r : Run World)
      → Sent outs r
      → Sent outs (handle_error p req (review e) r)
  unfolding handle_error internal_error client_canceled
  review-Sent outs req (too_many_values c l) r h =
      log_denied-Sent outs req _ _ _ (log_anomaly-Sent outs _ r h)
  review-Sent outs req no_impersonation_user r h = log_denied-Sent outs req _ _ r h
  review-Sent outs req (create_review canceled) r h = log_denied-Sent outs req _ _ _ h
  review-Sent outs req (create_review deadline_exceeded) r h = log_denied-Sent outs req _ _ _ h
  review-Sent outs req (create_review (failed m)) r h = log_denied-Sent outs req _ _ _ h
  review-Sent outs req (not_allowed n k ts) r h = log_denied-Sent outs req _ _ r h
  review-Sent outs req (unknown_header k) r h = log_denied-Sent outs req _ _ _ h
  review-Sent outs req index_out_of_range r h = log_denied-Sent outs req _ _ _ h

  -- The error handler sends nothing to the API server.
  pub handle_error-Sent :
      (outs : List Outgoing) (req : Request) (e : ProxyError) (r : Run World)
      → Sent outs r
      → Sent outs (handle_error p req e r)
  unfolding handle_error internal_error client_canceled upstream_error
  handle_error-Sent outs req unauthorized r h = log_denied-Sent outs req _ _ r h
  handle_error-Sent outs req (reserved_identity x) r h =
      log_denied-Sent outs req _ _ _ (log_anomaly-Sent outs _ r h)
  handle_error-Sent outs req no_name r h = log_denied-Sent outs req _ _ r h
  handle_error-Sent outs req no_impersonation_config r h = log_denied-Sent outs req _ _ _ h
  handle_error-Sent outs req (review e) r h = review-Sent outs req e r h
  handle_error-Sent outs req marshal_failed r h = log_denied-Sent outs req _ _ _ h
  handle_error-Sent outs req (transport t) r h =
      Sent-either_way outs t.is_canceled _ _ (log_denied-Sent outs req _ _ _ h) (
        Sent-either_way outs (is_upstream_transport_error t) _ _ h
          (log_denied-Sent outs req _ _ _ h))
