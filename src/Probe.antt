-- ===== src/Probe.antt =====
-- The readiness probe: pkg/probe/probe.go. A check is in the three parts between which the source
-- gives up its lock: the snapshot of the issuers, the calls of the authenticator, and the recording
-- of what they answered. url.Parse and the authenticator are parameters.
pub mod Names
pub mod Recording
pub mod Server
pub mod Gauges
pub mod Picking
pub mod Answered
pub mod Progress
pub mod Repeating
pub mod Rounds
pub mod Ready
pub mod Evaluating
use kube_oidc_proxy.Base.{
  ℕ, Text, codes, Bool, true, false, not, ◌&&◌, ◌||◌, Option, none, some, List, [], ◌∷◌, ◌++◌, map,
  length, any, is_empty, if◌then◌else◌, ◌==◌, has_substring, insert, eqb, ltb, is_some,
}
use kube_oidc_proxy.Probe.Names.{issuer_name}

-- IssuerReadiness
pub record Issuer : Type 0 where
  pub issuer_url : Text
  pub fake_jwt : Text

pub record PendingIssuer : Type 0 where
  pub issuer_url : Text
  pub reason : Text

-- What the source asks of an error of the authenticator: its message, whether it is an error of the
-- context, and whether it is a net.Error that timed out.
pub record ProbeError : Type 0 where
  pub message : Text
  pub is_context_error : Bool
  pub timed_out : Bool

-- What AuthenticateToken returns, of which a check reads the error.
pub record Answer : Type 0 where
  pub accepted : Bool
  pub error : Option ProbeError

pub data Event : Type 0 where
  -- The name, the issuers initialized and the issuers in all.
  issuer_initialized : Text → ℕ → ℕ → Event
  -- The name, the reason and the two counts.
  issuer_pending : Text → Text → ℕ → ℕ → Event
  -- The two counts and the readiness mode.
  proxy_ready : ℕ → ℕ → Text → Event

-- A map whose values are all true is the list of its keys; the records are the last one first.
pub record HealthCheck : Type 0 where
  pub issuers : List Issuer
  pub require_all : Bool
  pub serving : Bool
  pub ready : Bool
  pub initialized : List Text
  pub last_pending : Text
  pub ready_gauge : Bool
  pub issuer_gauges : List (Text × Bool)
  pub records : List Event

pub data CheckError : Type 0 where
  not_serving : CheckError
  all_required : CheckError
  one_required : CheckError

-- The issuers that a round of calls found initialized, and those it found pending.
pub record Round : Type 0 where
  pub newly : List Text
  pub pending : List PendingIssuer

unfoldable pub transient_markers : List Text
transient_markers =
    codes "context deadline exceeded"
    ∷ codes "connection refused"
    ∷ codes "no such host"
    ∷ codes "i/o timeout"
    ∷ []

unfoldable pub is_not_initialized : ProbeError → Bool
is_not_initialized e = has_substring e.message (codes "not initialized")

unfoldable pub is_transient : ProbeError → Bool
is_transient e =
    e.is_context_error
    || (e.timed_out || any (λ marker. has_substring e.message marker) transient_markers)

unfoldable pub pending_reason : ProbeError → Text
pending_reason e =
    if is_not_initialized e
    then codes "not_initialized"
    else (if is_transient e then codes "transient" else codes "error")

-- The reason for which an answer leaves its issuer pending.
unfoldable pub holds_back : Option ProbeError → Option Text
holds_back none = none
holds_back (some e) =
    let reason = pending_reason e in if not (reason == codes "error") then some reason else none

unfoldable pub is_initialized : List Text → Text → Bool
is_initialized urls url = any (λ u. u == url) urls

-- The snapshot of the issuers that still need a call.
unfoldable pub to_probe : List Text → List Issuer → List Issuer
to_probe urls [] = []
to_probe urls (i ∷ is) =
    let rest = to_probe urls is in if not (is_initialized urls i.issuer_url) then i ∷ rest else rest

unfoldable pub add_result : Issuer → Option Text → Round → Round
add_result i (some reason) r = record r {
  pending = record { issuer_url = i.issuer_url; reason = reason } ∷ r.pending;
}
add_result i none r = record r { newly = i.issuer_url ∷ r.newly }

-- The calls of AuthenticateToken, without the lock.
unfoldable pub probe : (Text → Answer) → List Issuer → Round
probe authenticate [] = record { newly = []; pending = [] }
probe authenticate (i ∷ is) =
    add_result i (holds_back (authenticate i.fake_jwt).error) (probe authenticate is)

-- slices.DeleteFunc
unfoldable pub drop_stale : List Text → List PendingIssuer → List PendingIssuer
drop_stale urls [] = []
drop_stale urls (p ∷ ps) =
    let rest = drop_stale urls ps in if is_initialized urls p.issuer_url then rest else p ∷ rest

-- strings.Join
unfoldable pub join : Text → List Text → Text
join sep [] = []
join sep (s ∷ []) = s
join sep (s ∷ t ∷ ss) = s ++ sep ++ join sep (t ∷ ss)

unfoldable pub pending_key : List PendingIssuer → Text
pending_key ps = join (codes ",") (map (λ p. p.issuer_url ++ codes "=" ++ p.reason) ps)

unfoldable pub readiness_mode : Bool → Text
readiness_mode true = codes "all"
readiness_mode false = codes "any"

module _ (parse_host : Text → Option Text) where
  unfoldable pub mark : Text → HealthCheck → HealthCheck
  mark url h =
      let urls = url ∷ h.initialized in
      if is_initialized h.initialized url then h else record h {
        initialized = urls;
        issuer_gauges = insert (issuer_name parse_host url) true h.issuer_gauges;
        records =
            issuer_initialized (issuer_name parse_host url) (length urls) (length h.issuers)
            ∷ h.records;
      }

  unfoldable pub mark_all : List Text → HealthCheck → HealthCheck
  mark_all [] h = h
  mark_all (url ∷ urls) h = mark_all urls (mark url h)

  unfoldable pub report : List PendingIssuer → ℕ → ℕ → List Event → List Event
  report [] ready total records = records
  report (p ∷ ps) ready total records =
      report ps ready total
        (issuer_pending (issuer_name parse_host p.issuer_url) p.reason ready total ∷ records)

  unfoldable pub report_change : List PendingIssuer → HealthCheck → HealthCheck
  report_change ps h =
      let key = pending_key ps in
      if not (key == h.last_pending)
      then record h {
        last_pending = key;
        records = report ps (length h.initialized) (length h.issuers) h.records;
      }
      else h

  unfoldable pub record_probe_results : Round → HealthCheck → List PendingIssuer × HealthCheck
  record_probe_results r h =
      let marked = mark_all r.newly h in
      let current = drop_stale marked.initialized r.pending in
      (current, report_change current marked)

  unfoldable pub become_ready : HealthCheck → HealthCheck
  become_ready h = record h {
    ready = true;
    ready_gauge = true;
    records =
        proxy_ready (length h.initialized) (length h.issuers) (readiness_mode h.require_all)
        ∷ h.records;
  }

  unfoldable pub evaluate : List PendingIssuer × HealthCheck → Option CheckError × HealthCheck
  evaluate (current, h) =
      if h.ready
      then (none, h)
      else (if h.require_all && ltb 0 (length current)
          then (some all_required, h)
          else (if not h.require_all && eqb (length h.initialized) 0
              then (some one_required, h)
              else (none, become_ready h)))

  -- The last part of Check, under the lock.
  unfoldable pub conclude : Round → HealthCheck → Option CheckError × HealthCheck
  conclude r h = evaluate (record_probe_results r h)

  unfoldable pub check : (Text → Answer) → HealthCheck → Option CheckError × HealthCheck
  check authenticate h =
      if not h.serving
      then (some not_serving, h)
      else conclude (probe authenticate (to_probe h.initialized h.issuers)) h

  -- The seeds of WithMetrics.
  unfoldable pub seed_gauges : List Issuer → List (Text × Bool) → List (Text × Bool)
  seed_gauges [] gauges = gauges
  seed_gauges (i ∷ is) gauges =
      seed_gauges is (insert (issuer_name parse_host i.issuer_url) false gauges)

  unfoldable pub with_metrics : HealthCheck → HealthCheck
  with_metrics h = record h {
    ready_gauge = false;
    issuer_gauges = seed_gauges h.issuers h.issuer_gauges;
  }

unfoldable pub set_serving : HealthCheck → HealthCheck
set_serving h = record h { serving = true }

-- NewServer
unfoldable pub new_server : List Issuer → Bool → HealthCheck
new_server issuers require_all = record {
  issuers = issuers;
  require_all = require_all;
  serving = false;
  ready = false;
  initialized = [];
  last_pending = [];
  ready_gauge = false;
  issuer_gauges = [];
  records = [];
}
