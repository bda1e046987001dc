-- ===== src/Chain.antt =====
-- The chain of filters of pkg/proxy/handlers.go and RoundTrip of pkg/proxy/proxy.go. This module has
-- the errors, the records and the state of one request's run; Chain/Errors the error handler,
-- Chain/Impersonation and Chain/Filters the filters and the last step.
pub mod Errors
pub mod Impersonation
pub mod Filters
pub mod Deciding
pub mod Justified
pub mod Forwarding
pub mod Answers
use kube_oidc_proxy.Base.{
  ℕ, Text, codes, ◌==◌, Bool, Option, none, some, List, [], ◌∷◌, if◌then◌else◌, ◌||◌, ◌&&◌,
}
use kube_oidc_proxy.Base.Result.{Result, ok, err}
use kube_oidc_proxy.Header.{Header}
use kube_oidc_proxy.Request.{UserInfo, ImpersonationConfig, Request}
use kube_oidc_proxy.ClientIp.{Net, Network}
use kube_oidc_proxy.Reserved.{Refusal}
use kube_oidc_proxy.Sar.{ApiError, SarError, Reviewer}
use kube_oidc_proxy.Sar.Live.{Env, State}

-- What errors.Is and errors.As find in an error of the transport.
pub record TransportError : Type 0 where
  pub is_canceled : Bool
  pub is_net_error : Bool
  pub is_timeout : Bool
  pub is_op_url_or_certificate : Bool
  pub is_eof : Bool
  pub is_errno : Bool
  -- ECONNRESET or EPIPE
  pub is_reset : Bool

-- The errors that reach the error handler.
pub data ProxyError : Type 0 where
  unauthorized : ProxyError
  reserved_identity : Refusal → ProxyError
  no_name : ProxyError
  no_impersonation_config : ProxyError
  review : SarError → ProxyError
  marshal_failed : ProxyError
  transport : TransportError → ProxyError

-- accesslogging.Decision
pub record Decision : Type 0 where
  pub allowed : Bool
  pub reason : Text
  pub auth_method : Text
  pub inbound : Option UserInfo
  pub outbound : Option UserInfo
  pub target_kind : Text
  pub target_name : Text

-- The records and metrics of a request.
pub data Record : Type 0 where
  decided : Decision → Record
  authentication_attempt : (method outcome : Text) → Record
  impersonation_skipped : Text → Record
  impersonation_applied : Text → Record
  anomaly : Text → Record
  handler_failed : Record
  upstream_canceled : Record
  upstream_failed : Text → Record

-- What goes to the API server: through the transport without credentials, or through the
-- impersonating round tripper, which sends the headers of its configuration.
pub data Outgoing : Type 0 where
  plain : Request → Outgoing
  impersonated : ImpersonationConfig → Request → Outgoing

-- One request's run. `recorded` and `termination` are the two holders that the request's context
-- shares by pointer; `statuses` are the responses begun, the last one first. `panicked` is the panic of
-- an index out of range, and `stopped` says that an audit filter answered the request itself.
pub record Run (World : Type 0) : Type 0 where
  pub reviews : State World
  pub recorded : Bool
  pub termination : Option (Text × Text)
  pub records : List Record
  pub statuses : List ℕ
  pub forwarded : List Outgoing
  pub panicked : Bool
  pub stopped : Bool

-- bearertoken's answer: an error, no token, or the identity with the issuer's name and the headers
-- that it leaves.
pub data Authentication : Type 0 where
  invalid : Authentication
  absent : Authentication
  accepted : (user : UserInfo) (issuer : Text) (header : Header) → Authentication

-- The configuration, and the third-party parts that the chain calls.
pub record Proxy (World : Type 0) : Type 0 where
  pub env : Env World
  pub net : Net
  pub reviewer : Reviewer
  pub trusted : List (Option Network)
  pub token_review : Bool
  pub disable_impersonation : Bool
  pub client_ip_enabled : Bool
  pub extra_user_headers : List (Text × List Text)
  pub allowed_reserved_groups : List Text
  -- oidcRequestAuther.AuthenticateRequest
  pub authenticate : Request → World → Authentication × World
  -- tokenReviewer.AuthenticateToken
  pub review_token : Text → World → Result ApiError Bool × World
  -- warnLimiter.Allow
  pub allow_warning : Text → World → Bool × World
  -- json.Marshal of the extras
  pub marshal_extra : List (Text × List Text) → Option Text
  -- Whether the RequestInfoResolver, which WithRequestInfo of k8s.io/apiserver calls, resolves it.
  pub resolves : Request → Bool
  -- Whether WithAudit of k8s.io/apiserver, which auditor.WithRequest puts around the reverse proxy,
  -- lets the request on.
  pub audits : Request → World → Bool × World
  -- httputil.ReverseProxy's request to the transport
  pub outbound : Request → Request
  -- The transports: an error, or the status of the response.
  pub upstream : Outgoing → World → Result TransportError ℕ × World

module _ {World : Type 0} where
  abbrev pub record_event : Record → Run World → Run World
  record_event e r = record r { records = e ∷ r.records }

  -- http.Error's status
  abbrev pub respond : ℕ → Run World → Run World
  respond status r = record r { statuses = status ∷ r.statuses }

  -- The answer of a filter of k8s.io/apiserver that does not let a request on.
  abbrev pub stop : Run World → Run World
  stop r = record r { statuses = 500 ∷ r.statuses; stopped = Bool.true }

  abbrev pub with_world : World → Run World → Run World
  with_world w r = record r { reviews = record r.reviews { world = w } }

  -- LogDecision, which marks the holder, and the metric of recordDecision.
  unfoldable pub record_decision : Decision → Run World → Run World
  record_decision d r = record r { recorded = Bool.true; records = decided d ∷ r.records }

unfoldable pub method_of : Option Text → Text
method_of none = codes "none"
method_of (some []) = codes "none"
method_of (some (c ∷ s)) = c ∷ s

unfoldable pub auth_method_from : Request → Text
unfolding method_of
auth_method_from req = method_of req.ctx.auth_method
