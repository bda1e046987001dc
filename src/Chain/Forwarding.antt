-- ===== src/Chain/Forwarding.antt =====
-- What the chain sends to the API server, from authentication to RoundTrip of pkg/proxy/proxy.go.
use mathlib.Core.Bool.{false≢true}
use kube_oidc_proxy.Base.{
  ℕ, Text, Bool, true, false, not, Option, none, some, List, ◌≡◌, refl, sym, ap, ◌∙◌, subst, inl,
  inr, All, arith, is_empty, if◌then◌else◌,
}
use kube_oidc_proxy.Base.Result.{Result, ok, err}
use kube_oidc_proxy.Header.{Header}
use kube_oidc_proxy.Request.{UserInfo, Context, ImpersonationRequest, Request}
use kube_oidc_proxy.ClientIp.{
  Net, Network, remote_addr, resolve_client_ip, forwarded_for, collapse, sanitize_forward_headers,
}
use kube_oidc_proxy.RequestId.{choose_id, with_request_id}
use kube_oidc_proxy.Reserved.{Refusal}
use kube_oidc_proxy.Sar.{
  ApiError, SarError, too_many_values, no_impersonation_user, create_review, not_allowed,
  unknown_header, index_out_of_range,
}
use kube_oidc_proxy.Chain.{
  TransportError, ProxyError, unauthorized, reserved_identity, no_name, review, Outgoing, Run,
  Authentication, invalid, absent, accepted, Proxy, record_decision,
}
use kube_oidc_proxy.Chain.Errors.{handle_error}
use kube_oidc_proxy.Chain.Filters.{
  with_auth_method, with_no_impersonation, with_user, with_impersonation_config, answer_client,
  send, admit, send_impersonated, round_trip, audited, reverse_proxy, with_request_info,
  apply_impersonation, after_review, impersonate_user, impersonate, with_impersonate_request,
  reviewed, review_bearer, with_token_review, guarded, authenticated, with_authenticate_request,
  with_handlers,
}
use kube_oidc_proxy.Chain.Justified.{
  IsAuthenticated, TokenAccepted, IsCleared, IsFor, IsPlain, IsJustified,
  impersonation_request-IsFor, handle_error-Sent,
}

-- The address that is kept on the context leaves the rest of the context as it is.
remote_addr-ctx :
    (net : Net) (trusted : List (Option Network)) (req : Request)
    → let req' = (remote_addr net trusted req).0 in
      (req'.ctx.no_impersonation ≡ req.ctx.no_impersonation) × (req'.ctx.user ≡ req.ctx.user)
unfolding remote_addr
remote_addr-ctx net trusted req = kept req.ctx.client_address
  where
    kept :
        (o : Option Text)
        → let req' =
            (elim o as (λ _. Request × Text) [
              | some address ↦ (req, address)
              | none ↦
                  let address =
                    resolve_client_ip net req.remote_addr (forwarded_for req.header) trusted in
                  (record req { ctx = record req.ctx { client_address = some address } }, address)
            ]).0 in
          (req'.ctx.no_impersonation ≡ req.ctx.no_impersonation) × (req'.ctx.user ≡ req.ctx.user)
    kept none = (refl, refl)
    kept (some address) = (refl, refl)

sanitize-no_impersonation :
    (net : Net) (trusted : List (Option Network)) (req : Request)
    → (sanitize_forward_headers net trusted req).ctx.no_impersonation ≡ req.ctx.no_impersonation
unfolding sanitize_forward_headers collapse
sanitize-no_impersonation net trusted req = ground arith

with_request_id-no_impersonation :
    (net : Net) (trusted : List (Option Network)) (fresh : Text) (response : Header) (req : Request)
    → (with_request_id net trusted fresh response req).0.ctx.no_impersonation
      ≡ req.ctx.no_impersonation
unfolding with_request_id choose_id
with_request_id-no_impersonation net trusted fresh response req = ground arith

module _ {World : Type 0} (p : Proxy World) where
  -- Every request that the run has sent is justified.
  abbrev IsSafe : Run World → Type 0
  IsSafe r = All (IsJustified p) r.forwarded

  either_way : (t : Bool) (x y : Run World) → IsSafe x → IsSafe y → IsSafe (if t then x else y)
  either_way true x y h k = h
  either_way false x y h k = k

  handle_error-IsSafe :
      (req : Request) (e : ProxyError) (r : Run World) → IsSafe r → IsSafe (handle_error p req e r)
  handle_error-IsSafe req e r h =
      subst (All (IsJustified p)) (sym (handle_error-Sent p r.forwarded req e r refl)) h

  answer_client-IsSafe :
      (req : Request) (a : Result TransportError ℕ) (r : Run World)
      → IsSafe r
      → IsSafe (answer_client p req a r)
  unfolding answer_client
  answer_client-IsSafe req (ok status) r h = h
  answer_client-IsSafe req (err e) r h = handle_error-IsSafe req _ r h

  send-IsSafe :
      (req : Request) (out : Outgoing) (r : Run World)
      → IsJustified p out
      → IsSafe r
      → IsSafe (send p req out r)
  unfolding send
  send-IsSafe req out r j h = answer_client-IsSafe req _ _ (j, h)

  admit-IsSafe :
      (req : Request) (i o : Option UserInfo) (r : Run World)
      → IsSafe r
      → IsSafe (admit p req i o r)
  unfolding admit record_decision
  admit-IsSafe req i o r h = h

  by_test :
      (t : Bool) (x y : Run World)
      → (t ≡ true → IsSafe x)
      → (t ≡ false → IsSafe y)
      → IsSafe (if t then x else y)
  by_test true x y h k = h refl
  by_test false x y h k = k refl

  -- What a request's context must carry when it reaches the reverse proxy.
  record IsSendable (ctx : Context) : Type 0 where
    pub plainly : ctx.no_impersonation ≡ true → IsPlain p
    pub configured :
        (conf : ImpersonationRequest)
        → ctx.no_impersonation ≡ false
        → ctx.impersonation_config ≡ some conf
        → IsFor p conf.config

  send_impersonated-IsSafe :
      (req : Request) (c : Option ImpersonationRequest) (r : Run World)
      → ((conf : ImpersonationRequest) → c ≡ some conf → IsFor p conf.config)
      → IsSafe r
      → IsSafe (send_impersonated p req c r)
  unfolding send_impersonated
  send_impersonated-IsSafe req none r j h = handle_error-IsSafe req _ r h
  send_impersonated-IsSafe req (some conf) r j h =
      send-IsSafe req _ _ (j conf refl) (admit-IsSafe req _ _ r h)

  round_trip-IsSafe :
      (req : Request) (r : Run World) → IsSendable req.ctx → IsSafe r → IsSafe (round_trip p req r)
  unfolding round_trip
  round_trip-IsSafe req r s h =
      by_test req.ctx.no_impersonation _ _
        (λ t. send-IsSafe req _ _ (s.plainly t) (admit-IsSafe req _ _ r h))
        (λ t. send_impersonated-IsSafe req _ r (λ conf. s.configured conf t) h)

  -- The authenticators' verdict, as the request carries it to the impersonation filter.
  record IsVetted (ctx : Context) : Type 0 where
    pub passed : ctx.no_impersonation ≡ true → TokenAccepted p
    pub known :
        ctx.no_impersonation ≡ false
        → (user : UserInfo) × (ctx.user ≡ some user) × IsAuthenticated p user

  module _ (outbound_ctx : (q : Request) → (p.outbound q).ctx ≡ q.ctx) where
    reverse_proxy-IsSafe :
        (req : Request) (r : Run World)
        → IsSendable req.ctx
        → IsSafe r
        → IsSafe (reverse_proxy p req r)
    unfolding reverse_proxy audited
    reverse_proxy-IsSafe req r s h = step (p.audits req r.reviews.world).0 _ h
      where
        step : (t : Bool) (x : Run World) → IsSafe x → IsSafe (audited p t req x)
        step true x h = round_trip-IsSafe _ x (subst IsSendable (sym (outbound_ctx req)) s) h
        step false x h = h

    apply_impersonation-IsSafe :
        (req : Request) (c : Option ImpersonationRequest) (r : Run World)
        → req.ctx.no_impersonation ≡ false
        → ((conf : ImpersonationRequest) → c ≡ some conf → IsFor p conf.config)
        → IsSafe r
        → IsSafe (apply_impersonation p req c r)
    unfolding apply_impersonation with_impersonation_config
    apply_impersonation-IsSafe req none r own j h = handle_error-IsSafe req _ r h
    apply_impersonation-IsSafe req (some conf) r own j h =
        reverse_proxy-IsSafe _ _
          (record { plainly = λ t. absurd (false≢true (sym own ∙ t)); configured = λ c _ e. j c e })
          h

    after_review-IsSafe :
        (req : Request) (address : Text) (user : UserInfo)
        (a : Result SarError (Option UserInfo × Header)) (r : Run World)
        → req.ctx.no_impersonation ≡ false
        → IsAuthenticated p user
        → is_empty user.name ≡ false
        → ((t : UserInfo) (rest : Header) → a ≡ ok (some t, rest) → IsCleared p user t)
        → IsSafe r
        → IsSafe (after_review p req address user a r)
    unfolding after_review
    after_review-IsSafe req address user (ok (target, header)) r own auth named cleared h =
        apply_impersonation-IsSafe _ _ r own
          (λ conf.
            impersonation_request-IsFor p address user target conf auth named
              (λ t e. cleared t header (ap (λ o. ok (o, header)) e)))
          h
    after_review-IsSafe req address user (err index_out_of_range) r own auth named cleared h = h
    after_review-IsSafe req address user (err (too_many_values c l)) r own auth named cleared h =
        handle_error-IsSafe req (review (too_many_values c l)) r h
    after_review-IsSafe req address user (err no_impersonation_user) r own auth named cleared h =
        handle_error-IsSafe req (review no_impersonation_user) r h
    after_review-IsSafe req address user (err (create_review e)) r own auth named cleared h =
        handle_error-IsSafe req (review (create_review e)) r h
    after_review-IsSafe req address user (err (not_allowed n k ts)) r own auth named cleared h =
        handle_error-IsSafe req (review (not_allowed n k ts)) r h
    after_review-IsSafe req address user (err (unknown_header k)) r own auth named cleared h =
        handle_error-IsSafe req (review (unknown_header k)) r h

    impersonate-IsSafe :
        (req : Request) (address : Text) (user : UserInfo) (r : Run World)
        → req.ctx.no_impersonation ≡ false
        → IsAuthenticated p user
        → IsSafe r
        → IsSafe (impersonate p req address (some user) r)
    unfolding impersonate impersonate_user
    impersonate-IsSafe req address user r own auth h =
        by_test (is_empty user.name) _ _ (λ _. handle_error-IsSafe req no_name r h)
          (λ named.
            either_way _ _ _
              (after_review-IsSafe req address user _ _ own auth named
                (λ t rest e. record { header = _; state = _; rest = rest; answered = e }) h)
              (apply_impersonation-IsSafe req _ r own
                (λ conf.
                  impersonation_request-IsFor p address user none conf auth named
                    (λ t e. absurd (none_some t e)))
                h))
      where
        none_some : (t : UserInfo) → ◌≡◌ {A = Option UserInfo} none (some t) → ⊥
        none_some t z = cc

    with_impersonate_request-IsSafe :
        (req : Request) (r : Run World)
        → IsVetted req.ctx
        → IsSafe r
        → IsSafe (with_impersonate_request p req r)
    unfolding with_impersonate_request with_no_impersonation
    with_impersonate_request-IsSafe req r v h =
        by_test req.ctx.no_impersonation _ _
          (λ t.
            reverse_proxy-IsSafe req _
              (record {
                plainly = λ _. inl (v.passed t);
                configured = λ conf f _. absurd (false≢true (sym f ∙ t));
              })
              h)
          (λ own.
            let (user, e, auth) = v.known own in
            by_test p.disable_impersonation _ _
              (λ off.
                reverse_proxy-IsSafe _ _
                  (record {
                    plainly = λ _. inr (off, user, auth);
                    configured = λ conf f _. absurd (false≢true (sym f));
                  })
                  h)
              (λ _.
                subst (λ u. IsSafe (impersonate p req' address u r)) (sym (same.1 ∙ e))
                  (impersonate-IsSafe req' address user r (same.0 ∙ own) auth h)))
      where
        req' : Request
        req' = (remote_addr p.net p.trusted req).0

        address : Text
        address = (remote_addr p.net p.trusted req).1

        same :
            (req'.ctx.no_impersonation ≡ req.ctx.no_impersonation) × (req'.ctx.user ≡ req.ctx.user)
        same = remote_addr-ctx p.net p.trusted req

    review_bearer-IsSafe :
        (req : Request) (token : Option Text) (r : Run World)
        → IsSafe r
        → IsSafe (review_bearer p req token r)
    unfolding review_bearer reviewed with_no_impersonation
    review_bearer-IsSafe req none r h = handle_error-IsSafe req unauthorized _ h
    review_bearer-IsSafe req (some token) r h =
        verdict (p.review_token token r.reviews.world).0 refl _ h
      where
        verdict :
            (a : Result ApiError Bool)
            → (p.review_token token r.reviews.world).0 ≡ a
            → (s : Run World) → IsSafe s
            → IsSafe (reviewed p req a s)
        verdict (err e) z s h = handle_error-IsSafe req unauthorized _ h
        verdict (ok false) z s h = handle_error-IsSafe req unauthorized _ h
        verdict (ok true) z s h =
            with_impersonate_request-IsSafe _ _
              (record {
                passed = λ _. (token, r.reviews.world, z);
                known = λ f. absurd (false≢true (sym f));
              })
              h

    with_token_review-IsSafe :
        (req : Request) (r : Run World) → IsSafe r → IsSafe (with_token_review p req r)
    unfolding with_token_review
    with_token_review-IsSafe req r h =
        either_way (not p.token_review) _ _ (handle_error-IsSafe req unauthorized r h)
          (review_bearer-IsSafe req _ r h)

    guarded-IsSafe :
        (req : Request) (user : UserInfo) (refusal : Option Refusal) (r : Run World)
        → req.ctx.no_impersonation ≡ false
        → req.ctx.user ≡ some user
        → (refusal ≡ none → IsAuthenticated p user)
        → IsSafe r
        → IsSafe (guarded p req refusal r)
    unfolding guarded
    guarded-IsSafe req user (some x) r own e auth h =
        handle_error-IsSafe req (reserved_identity x) r h
    guarded-IsSafe req user none r own e auth h =
        with_impersonate_request-IsSafe req r
          (record {
            passed = λ t. absurd (false≢true (sym own ∙ t));
            known = λ _. (user, e, auth refl);
          })
          h

    authenticated-IsSafe :
        (req req0 : Request) (w : World) (a : Authentication) (r : Run World)
        → req.ctx.no_impersonation ≡ false
        → (p.authenticate req0 w).0 ≡ a
        → IsSafe r
        → IsSafe (authenticated p req a r)
    unfolding authenticated with_user with_auth_method
    authenticated-IsSafe req req0 w invalid r own e h = with_token_review-IsSafe _ _ h
    authenticated-IsSafe req req0 w absent r own e h = handle_error-IsSafe req unauthorized _ h
    authenticated-IsSafe req req0 w (accepted user issuer header) r own e h =
        guarded-IsSafe _ user _ _ own refl
          (λ clear. record {
            request = req0;
            world = w;
            issuer = issuer;
            header = header;
            answered = e;
            guarded = clear;
          })
          h

    -- If the reverse proxy keeps the request's context, and the request does not come marked to go
    -- without impersonation, all that the chain sends to the API server is justified, where all that
    -- was sent before is: it goes without impersonation only if a token review accepted a token, or
    -- impersonation is disabled and an identity authenticated; under impersonation it goes as an
    -- identity with a name that the OIDC authenticator accepted and the reserved-identity guard let
    -- through, or as a target that the reviews cleared for that identity, with
    -- system:authenticated among the groups.
    pub with_handlers-IsJustified :
        (fresh : Text) (response : Header) (req : Request) (r : Run World)
        → req.ctx.no_impersonation ≡ false
        → All (IsJustified p) r.forwarded
        → All (IsJustified p) (with_handlers p fresh response req r).1.forwarded
    unfolding with_handlers with_request_info with_authenticate_request
    with_handlers-IsJustified fresh response req r own h =
        either_way _ _ _
          (authenticated-IsSafe _ _ _ _ _
            (sanitize-no_impersonation p.net p.trusted _
              ∙ with_request_id-no_impersonation p.net p.trusted fresh response req
              ∙ own)
            refl h)
          h
