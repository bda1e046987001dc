-- ===== src/Chain/Filters.antt =====
-- The filters of pkg/proxy/handlers.go as withHandlers composes them, and RoundTrip of
-- pkg/proxy/proxy.go.
use kube_oidc_proxy.Base.{
  ℕ, Text, codes, Bool, true, false, not, Option, none, some, [], ◌∷◌, is_empty, any, if◌then◌else◌,
}
use kube_oidc_proxy.Base.Result.{Result, ok, err}
use kube_oidc_proxy.Header.{Header, add}
use kube_oidc_proxy.Request.{UserInfo, ImpersonationRequest, Request}
use kube_oidc_proxy.ClientIp.{remote_addr, sanitize_forward_headers}
use kube_oidc_proxy.RequestId.{with_request_id}
use kube_oidc_proxy.Token.{parse_from_request}
use kube_oidc_proxy.Reserved.{Refusal, check_reserved_identity}
use kube_oidc_proxy.Sar.{ApiError, SarError, index_out_of_range}
use kube_oidc_proxy.Sar.Check.{is_impersonation, check_authorized_for_impersonation}
use kube_oidc_proxy.Chain.{
  TransportError, unauthorized, reserved_identity, no_name, no_impersonation_config, review,
  marshal_failed, transport, authentication_attempt, impersonation_skipped, impersonation_applied,
  Outgoing, plain, impersonated, Run, Authentication, invalid, absent, accepted, Proxy,
  record_event, respond, stop, with_world, record_decision, auth_method_from,
}
use kube_oidc_proxy.Chain.Errors.{handle_error}
use kube_oidc_proxy.Chain.Impersonation.{impersonation_request}

unfoldable pub with_auth_method : Text → Request → Request
with_auth_method method req = record req { ctx = record req.ctx { auth_method = some method } }

unfoldable pub with_no_impersonation : Request → Request
with_no_impersonation req = record req { ctx = record req.ctx { no_impersonation = true } }

unfoldable pub with_user : UserInfo → Request → Request
with_user user req = record req { ctx = record req.ctx { user = some user } }

abbrev or_user : Option UserInfo → Option UserInfo → Option UserInfo
or_user none user = user
or_user (some target) user = some target

-- WithImpersonationConfig
unfoldable pub with_impersonation_config : ImpersonationRequest → Request → Request
with_impersonation_config conf req = record req {
  ctx = record req.ctx {
    impersonation_config = some conf;
    user = or_user conf.impersonated_user req.ctx.user;
  };
}

abbrev or_nothing : Option Text → Text
or_nothing none = []
or_nothing (some token) = token

-- The request that goes on without impersonation.
abbrev pub with_token : Request → Request
with_token req = record req {
  header = add req.header (codes "Authorization") (or_nothing req.ctx.bearer_token);
}

module _ {World : Type 0} (p : Proxy World) where
  -- What the reverse proxy does with a transport's answer.
  unfoldable pub answer_client : Request → Result TransportError ℕ → Run World → Run World
  answer_client req (ok status) r = respond status r
  answer_client req (err e) r = handle_error p req (transport e) r

  unfoldable pub send : Request → Outgoing → Run World → Run World
  send req out r =
      let (answer, w) = p.upstream out r.reviews.world in
      answer_client req answer (with_world w (record r { forwarded = out ∷ r.forwarded }))

  unfoldable pub admit : Request → Option UserInfo → Option UserInfo → Run World → Run World
  admit req inbound outbound r =
      record_decision
        (record {
          allowed = true;
          reason = [];
          auth_method = auth_method_from req;
          inbound = inbound;
          outbound = outbound;
          target_kind = [];
          target_name = [];
        })
        r

  unfoldable pub send_impersonated : Request → Option ImpersonationRequest → Run World → Run World
  send_impersonated req none r = handle_error p req no_impersonation_config r
  send_impersonated req (some conf) r =
      send req (impersonated conf.config req) (admit req conf.inbound_user conf.impersonated_user r)

  -- RoundTrip, and the reverse proxy's answer to its result.
  unfoldable pub round_trip : Request → Run World → Run World
  round_trip req r =
      if req.ctx.no_impersonation
      then send req (plain (with_token req)) (admit req req.ctx.user none r)
      else send_impersonated req req.ctx.impersonation_config r

  -- The reverse proxy, within the audit filters of auditor.WithRequest.
  unfoldable pub audited : Bool → Request → Run World → Run World
  audited true req r = round_trip (p.outbound req) r
  audited false req r = stop r

  unfoldable pub reverse_proxy : Request → Run World → Run World
  reverse_proxy req r =
      let (let_on, w) = p.audits req r.reviews.world in audited let_on req (with_world w r)

  unfoldable pub apply_impersonation : Request → Option ImpersonationRequest → Run World → Run World
  apply_impersonation req none r = handle_error p req marshal_failed r
  apply_impersonation req (some conf) r =
      reverse_proxy (with_impersonation_config conf req)
        (record_event (impersonation_applied conf.config.user_name) r)

  -- What follows the reviews of the impersonation headers.
  unfoldable pub after_review :
      Request → Text → UserInfo → Result SarError (Option UserInfo × Header) → Run World → Run World
  after_review req address user (err index_out_of_range) r = record r { panicked = true }
  after_review req address user (err e) r = handle_error p req (review e) r
  after_review req address user (ok (target, header)) r =
      apply_impersonation (record req { header = header })
        (impersonation_request p address user target) r

  unfoldable pub impersonate_user : Request → Text → UserInfo → Run World → Run World
  impersonate_user req address user r =
      if any (λ entry. is_impersonation entry.0) req.header
      then (let (answer, s) =
            check_authorized_for_impersonation p.env p.reviewer user req.header r.reviews in
          after_review req address user answer (record r { reviews = s }))
      else apply_impersonation req (impersonation_request p address user none) r

  unfoldable pub impersonate : Request → Text → Option UserInfo → Run World → Run World
  impersonate req address none r = handle_error p req no_name r
  impersonate req address (some user) r =
      if is_empty user.name
      then handle_error p req no_name r
      else impersonate_user req address user r

  unfoldable pub with_impersonate_request : Request → Run World → Run World
  with_impersonate_request req r =
      if req.ctx.no_impersonation
      then reverse_proxy req (record_event (impersonation_skipped (codes "passthrough")) r)
      else (let (req', address) = remote_addr p.net p.trusted req in
          if p.disable_impersonation
          then reverse_proxy (with_no_impersonation req')
              (record_event (impersonation_skipped (codes "disabled")) r)
          else impersonate req' address req'.ctx.user r)

  abbrev attempt : Text → Text → Run World → Run World
  attempt method outcome r = record_event (authentication_attempt method outcome) r

  -- reviewToken's verdict, and withTokenReview after it.
  unfoldable pub reviewed : Request → Result ApiError Bool → Run World → Run World
  reviewed req (err e) r =
      handle_error p req unauthorized (attempt (codes "tokenreview") (codes "error") r)
  reviewed req (ok false) r =
      handle_error p req unauthorized (attempt (codes "tokenreview") (codes "rejected") r)
  reviewed req (ok true) r =
      with_impersonate_request (with_no_impersonation (with_auth_method (codes "tokenreview") req))
        (attempt (codes "tokenreview") (codes "accepted") r)

  unfoldable pub review_bearer : Request → Option Text → Run World → Run World
  review_bearer req none r =
      handle_error p req unauthorized (attempt (codes "tokenreview") (codes "rejected") r)
  review_bearer req (some token) r =
      let (answer, w) = p.review_token token r.reviews.world in reviewed req answer (with_world w r)

  unfoldable pub with_token_review : Request → Run World → Run World
  with_token_review req r =
      if not p.token_review
      then handle_error p req unauthorized r
      else review_bearer req (parse_from_request (some req.header)) r

  unfoldable pub guarded : Request → Option Refusal → Run World → Run World
  guarded req (some refusal) r = handle_error p req (reserved_identity refusal) r
  guarded req none r = with_impersonate_request req r

  -- What follows the OIDC authenticator's answer.
  unfoldable pub authenticated : Request → Authentication → Run World → Run World
  authenticated req invalid r =
      with_token_review (remote_addr p.net p.trusted req).0
        (attempt (codes "oidc") (codes "rejected") r)
  authenticated req absent r =
      handle_error p req unauthorized (attempt (codes "none") (codes "rejected") r)
  authenticated req (accepted user issuer header) r =
      let req' = record req {
        header = header;
        ctx = record req.ctx { issuer_name = some issuer };
      } in
      guarded (with_user user (with_auth_method (codes "oidc") req'))
        (check_reserved_identity user p.allowed_reserved_groups)
        (attempt (codes "oidc") (codes "accepted") r)

  unfoldable pub with_authenticate_request : Request → Run World → Run World
  with_authenticate_request req r =
      let (answer, w) = p.authenticate req r.reviews.world in
      authenticated req answer (with_world w r)

  -- auditor.WithRequestInfo around the filters below it.
  unfoldable pub with_request_info : Request → Run World → Run World
  with_request_info req r =
      if p.resolves req
      then with_authenticate_request (sanitize_forward_headers p.net p.trusted req) r
      else stop r

  -- withHandlers, without the lifecycle's records: the headers of the response, and the run.
  unfoldable pub with_handlers : Text → Header → Request → Run World → Header × Run World
  with_handlers fresh response req r =
      let (req', response') = with_request_id p.net p.trusted fresh response req in
      (response', with_request_info req' r)
