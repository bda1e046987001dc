-- ===== src/Examples/Chains.antt =====
-- A run of the whole chain: an identity that the authenticator accepts, and an upstream that answers.
use kube_oidc_proxy.Base.{ℕ, codes, true, false, none, some, [], ◌∷◌, ◌≡◌, refl, All}
use kube_oidc_proxy.Base.Result.{ok}
use kube_oidc_proxy.Request.{UserInfo, Request}
use kube_oidc_proxy.Sar.Live.{Env, lead}
use kube_oidc_proxy.Chain.{Proxy, Run, accepted, unauthorized}
use kube_oidc_proxy.Chain.Errors.{handle_error}
use kube_oidc_proxy.Chain.Filters.{with_handlers}
use kube_oidc_proxy.Chain.Justified.{IsJustified}
use kube_oidc_proxy.Chain.Forwarding.{with_handlers-IsJustified}
use kube_oidc_proxy.Chain.Answers.{is_cancellation, IsAnswer, handle_error-IsAnswer}
use kube_oidc_proxy.Examples.Addresses.{net, trusted, request}

-- A world that counts the calls.
abbrev env : Env ℕ
env = record {
  marshal = λ spec. none;
  cache_get = λ k w. (none, w);
  cache_add = λ k b ttl w. w;
  create = λ spec w. (ok false, w);
  flight = λ k w. (lead false, w);
  ctx_done = λ w. false;
  requester_done = λ w. false;
}

abbrev alice : UserInfo
alice = record { name = codes "alice"; uid = codes "17"; groups = codes "devs" ∷ []; extra = [] }

abbrev proxy : Proxy ℕ
proxy = record {
  env = env;
  net = net;
  reviewer = record {
    sar_timeout = 5;
    max_header_values = 64;
    cached = false;
    allow_ttl = 0;
    deny_ttl = 0;
  };
  trusted = trusted;
  token_review = true;
  disable_impersonation = false;
  client_ip_enabled = true;
  extra_user_headers = (codes "team", codes "a" ∷ []) ∷ [];
  allowed_reserved_groups = [];
  authenticate = λ req w. (accepted alice (codes "idp") req.header, w);
  review_token = λ token w. (ok true, w);
  allow_warning = λ reason w. (true, w);
  marshal_extra = λ extra. some [];
  resolves = λ req. true;
  audits = λ req w. (true, w);
  outbound = λ req. req;
  upstream = λ out w. (ok 200, w);
}

abbrev start : Run ℕ
start = record {
  reviews = record { world = 0; calls = 0; events = [] };
  recorded = false;
  termination = none;
  records = [];
  statuses = [];
  forwarded = [];
  panicked = false;
  stopped = false;
}

abbrev incoming : Request
incoming = request ((codes "Authorization", codes "Bearer abc" ∷ []) ∷ []) (codes "8.8.8.8:80")

kept_context : (q : Request) → (proxy.outbound q).ctx ≡ q.ctx
kept_context q = refl

with_handlers-IsJustified_example :
    All (IsJustified proxy) (with_handlers proxy (codes "fresh") [] incoming start).1.forwarded
with_handlers-IsJustified_example =
    with_handlers-IsJustified proxy kept_context (codes "fresh") [] incoming start refl tt

handle_error-IsAnswer_example :
    IsAnswer proxy
      (is_cancellation unauthorized)
      []
      (handle_error proxy incoming unauthorized start).statuses
handle_error-IsAnswer_example = handle_error-IsAnswer proxy incoming unauthorized start
