-- ===== src/Chain/Answers.antt =====
-- The responses of the error handler of pkg/proxy/handlers.go.
use kube_oidc_proxy.Base.{
  ℕ, Text, Bool, true, false, List, ◌∷◌, ◌≡◌, refl, ap, ◌∙◌, ◌⊎◌, inl, inr, ◌≤◌, arith,
  if◌then◌else◌,
}
use kube_oidc_proxy.Request.{Request}
use kube_oidc_proxy.Sar.{
  canceled, deadline_exceeded, failed, SarError, too_many_values, no_impersonation_user,
  create_review, not_allowed, unknown_header, index_out_of_range,
}
use kube_oidc_proxy.Chain.{
  ProxyError, unauthorized, reserved_identity, no_name, no_impersonation_config, review,
  marshal_failed, transport, Run, Proxy, record_decision,
}
use kube_oidc_proxy.Chain.Errors.{
  log_anomaly, log_denied, internal_error, client_canceled, upstream_error,
  is_upstream_transport_error, handle_error,
}

-- The client went away, or a context it stands for was canceled.
abbrev pub is_cancellation : ProxyError → Bool
is_cancellation (review (create_review canceled)) = true
is_cancellation (transport t) = t.is_canceled
is_cancellation _ = false

module _ {World : Type 0} (p : Proxy World) where
  -- The response of an error: none for a cancellation, otherwise one with an error status.
  abbrev pub IsAnswer : Bool → List ℕ → List ℕ → Type 0
  IsAnswer quiet before after =
      ((quiet ≡ true) × (after ≡ before))
      ⊎ ((quiet ≡ false)
          × ((status : ℕ) × (after ≡ status ∷ before) × (400 ≤ status) × (status ≤ 599)))

  same_either_way :
      (t : Bool) (x y : Run World) (ss : List ℕ)
      → x.statuses ≡ ss
      → y.statuses ≡ ss
      → (if t then x else y).statuses ≡ ss
  same_either_way true x y ss h k = h
  same_either_way false x y ss h k = k

  log_denied-statuses :
      (req : Request) (reason : Text) (e : ProxyError) (r : Run World)
      → (log_denied p req reason e r).statuses ≡ r.statuses
  unfolding log_denied record_decision
  log_denied-statuses req reason e r = same_either_way r.recorded _ _ _ refl refl

  log_anomaly-statuses :
      (reason : Text) (r : Run World) → (log_anomaly p reason r).statuses ≡ r.statuses
  unfolding log_anomaly
  log_anomaly-statuses reason r = same_either_way _ _ _ _ refl refl

  answer :
      (status : ℕ) (before after : List ℕ)
      → after ≡ before
      → 400 ≤ status
      → status ≤ 599
      → IsAnswer false before (status ∷ after)
  answer status before after same least most =
      inr (refl, (status, ap (λ ss. status ∷ ss) same, least, most))

  denied :
      (status : ℕ) (req : Request) (reason : Text) (e : ProxyError) (r : Run World)
      → 400 ≤ status
      → status ≤ 599
      → IsAnswer false r.statuses (status ∷ (log_denied p req reason e r).statuses)
  denied status req reason e r =
      answer status r.statuses (log_denied p req reason e r).statuses
        (log_denied-statuses req reason e r)

  suspicious :
      (status : ℕ) (req : Request) (reason : Text) (e : ProxyError) (r : Run World)
      → 400 ≤ status
      → status ≤ 599
      → IsAnswer false r.statuses
          (status ∷ (log_denied p req reason e (log_anomaly p reason r)).statuses)
  suspicious status req reason e r =
      answer status r.statuses (log_denied p req reason e (log_anomaly p reason r)).statuses
        (log_denied-statuses req reason e _ ∙ log_anomaly-statuses reason r)

  internal :
      (req : Request) (e : ProxyError) (r : Run World)
      → IsAnswer false r.statuses (internal_error p req e r).statuses
  unfolding internal_error
  internal req e r =
      answer 500 r.statuses _ (log_denied-statuses req _ e _) (omega arith) (omega arith)

  cancellation :
      (req : Request) (e : ProxyError) (r : Run World)
      → IsAnswer true r.statuses (client_canceled p req e r).statuses
  unfolding client_canceled
  cancellation req e r = inl (refl, log_denied-statuses req _ e _)

  review-IsAnswer :
      (req : Request) (e : SarError) (r : Run World)
      → IsAnswer (is_cancellation (review e)) r.statuses (handle_error p req (review e) r).statuses
  unfolding handle_error
  review-IsAnswer req (too_many_values c l) r = suspicious 431 req _ _ r (omega arith) (omega arith)
  review-IsAnswer req no_impersonation_user r = denied 500 req _ _ r (omega arith) (omega arith)
  review-IsAnswer req (create_review canceled) r = cancellation req _ r
  review-IsAnswer req (create_review deadline_exceeded) r = internal req _ r
  review-IsAnswer req (create_review (failed m)) r = internal req _ r
  review-IsAnswer req (not_allowed n k ts) r = denied 403 req _ _ r (omega arith) (omega arith)
  review-IsAnswer req (unknown_header k) r = internal req _ r
  review-IsAnswer req index_out_of_range r = internal req _ r

  -- The error handler begins one response, with a status from 400 to 599, for every error but a
  -- cancellation, and none for a cancellation; so no error is answered as a success.
  pub handle_error-IsAnswer :
      (req : Request) (e : ProxyError) (r : Run World)
      → IsAnswer (is_cancellation e) r.statuses (handle_error p req e r).statuses
  unfolding handle_error upstream_error
  handle_error-IsAnswer req unauthorized r = denied 401 req _ _ r (omega arith) (omega arith)
  handle_error-IsAnswer req (reserved_identity x) r =
      suspicious 403 req _ _ r (omega arith) (omega arith)
  handle_error-IsAnswer req no_name r = denied 403 req _ _ r (omega arith) (omega arith)
  handle_error-IsAnswer req no_impersonation_config r = internal req _ r
  handle_error-IsAnswer req (review e) r = review-IsAnswer req e r
  handle_error-IsAnswer req marshal_failed r = internal req _ r
  handle_error-IsAnswer req (transport t) r =
      of_transport t.is_canceled (is_upstream_transport_error t)
    where
      of_transport :
          (gone far : Bool)
          → IsAnswer gone r.statuses
              (if gone
                then client_canceled p req (transport t) r
                else (if far
                    then upstream_error p t r
                    else internal_error p req (transport t) r)).statuses
      of_transport true far = cancellation req _ r
      of_transport false true = answer 502 r.statuses r.statuses refl (omega arith) (omega arith)
      of_transport false false = internal req _ r
