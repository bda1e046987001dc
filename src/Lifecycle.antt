-- ===== src/Lifecycle.antt =====
-- The lifecycle filter of pkg/proxy/lifecycle.go with the gauges of pkg/metrics/request.go. The
-- handler that it wraps is the list of calls that it makes on the recorder, and how it ends; the
-- labels of the metrics and the clock are left out.
pub mod Wire
pub mod Gauge
use kube_oidc_proxy.Base.{
  ℕ, suc, ◌+◌, ◌-◌, Text, codes, Bool, true, false, not, ◌&&◌, ◌||◌, Option, none, some, List, [],
  ◌∷◌, leb, ltb, eqb, is_empty, if◌then◌else◌, ◌==◌,
}

-- responseRecorder; `wire` is what the ResponseWriter underneath was given, the first code last.
pub record Recorder : Type 0 where
  pub status : ℕ
  pub bytes : ℕ
  pub wrote : Bool
  pub hijacked : Bool
  pub wire : List ℕ

-- The gauges and counters of the requests.
pub record Metrics : Type 0 where
  pub in_flight : ℕ
  pub long_running : ℕ
  pub total : ℕ
  pub latencies : ℕ

-- The filter's state while the handler runs. `started` are the statuses of the started records.
pub record Exchange : Type 0 where
  pub recorder : Recorder
  pub metrics : Metrics
  pub established : Bool
  pub started : List ℕ

-- A call on the recorder. `write` has the number of bytes that the writer took.
pub data Call : Type 0 where
  write_header : ℕ → Call
  write : ℕ → Call
  flush : Call
  -- The flag says whether the connection was handed over.
  hijack : Bool → Call

-- How the handler ends.
pub data End : Type 0 where
  returned : End
  aborted : End
  panicked : End

pub record Classified : Type 0 where
  pub termination : Text
  pub reason : Text

-- RequestObservation and the terminal record.
pub record Outcome : Type 0 where
  pub status : ℕ
  pub termination : Text
  pub bytes : Option ℕ
  pub reason : Option Text

unfoldable pub is_informational : ℕ → Bool
is_informational code = leb 100 code && (leb code 199 && not (eqb code 101))

unfoldable pub opens_stream : ℕ → Bool
opens_stream code = eqb code 101 || (leb 200 code && ltb code 300)

unfoldable pub establish : Exchange → Exchange
establish x = if x.established then x else record x {
  established = true;
  metrics = record x.metrics { long_running = suc x.metrics.long_running };
}

-- The part of onStart after its record.
unfoldable pub establish_if : Bool → Exchange → Exchange
establish_if true x = establish x
establish_if false x = x

module _ (long_running flusher : Bool) where
  -- onStart, which only a long-running request has.
  unfoldable pub on_start : ℕ → Exchange → Exchange
  on_start code x =
      if long_running
      then establish_if (opens_stream code) (record x { started = code ∷ x.started })
      else x

  unfoldable pub on_hijack : Exchange → Exchange
  on_hijack x = establish_if long_running x

  -- WriteHeader
  unfoldable pub do_write_header : ℕ → Exchange → Exchange
  do_write_header code x =
      if is_informational code
      then record x { recorder = record x.recorder { wire = code ∷ x.recorder.wire } }
      else (if x.recorder.wrote
          then x
          else on_start code (record x {
            recorder = record x.recorder {
              wrote = true;
              status = code;
              wire = code ∷ x.recorder.wire;
            };
          }))

  -- The implicit 200 of a handler that wrote no header.
  unfoldable pub ensure_header : Exchange → Exchange
  ensure_header x = if x.recorder.wrote then x else do_write_header 200 x

  unfoldable pub count_bytes : ℕ → Exchange → Exchange
  count_bytes n x = record x { recorder = record x.recorder { bytes = x.recorder.bytes + n } }

  unfoldable pub do_call : Call → Exchange → Exchange
  do_call (write_header code) x = do_write_header code x
  do_call (write n) x = count_bytes n (ensure_header x)
  do_call flush x = if not flusher then x else ensure_header x
  do_call (hijack false) x = x
  do_call (hijack true) x =
      on_hijack (record x { recorder = record x.recorder { hijacked = true } })

  unfoldable pub do_calls : List Call → Exchange → Exchange
  do_calls [] x = x
  do_calls (c ∷ cs) x = do_calls cs (do_call c x)

-- The switch of the deferred function; `gone` says that the request's context is done.
unfoldable pub termination_of : End → Bool → Bool → Text → Text
termination_of panicked hijacked gone classified = codes "panic"
termination_of aborted hijacked gone classified =
    if hijacked
    then codes "hijacked"
    else (if gone then codes "client_cancel" else codes "upstream_reset")
termination_of returned hijacked gone classified =
    if hijacked
    then codes "hijacked"
    else (if gone
        then codes "client_cancel"
        else (if is_empty classified then codes "normal" else classified))

unfoldable pub has_returned : End → Bool
has_returned returned = true
has_returned aborted = false
has_returned panicked = false

unfoldable pub final_status : End → Recorder → ℕ
final_status end rec =
    if not rec.wrote && (not rec.hijacked && has_returned end) then 200 else rec.status

-- RequestStarted
unfoldable pub request_started : Metrics → Metrics
request_started m = record m { in_flight = suc m.in_flight }

-- RequestFinished. A gauge that is 0 stays 0 here, where the source would go below.
unfoldable pub request_finished : Bool → Bool → Bool → Metrics → Metrics
request_finished long_running established hijacked m = record {
  in_flight = m.in_flight - 1;
  long_running = if established then m.long_running - 1 else m.long_running;
  total = suc m.total;
  latencies = if not long_running && not hijacked then suc m.latencies else m.latencies;
}

abbrev pub fresh : Recorder
fresh = record { status = 0; bytes = 0; wrote = false; hijacked = false; wire = [] }

unfoldable pub during : Bool → Bool → List Call → Metrics → Exchange
during long_running flusher calls m =
    do_calls long_running flusher calls
      (record { recorder = fresh; metrics = request_started m; established = false; started = [] })

-- withRequestLifecycle: the metrics after the request, and what its terminal record says.
unfoldable pub with_request_lifecycle :
    Bool → Bool → List Call → End → Bool → Classified → Metrics → Metrics × Outcome
with_request_lifecycle long_running flusher calls end gone classified m =
    let x = during long_running flusher calls m in
    let term = termination_of end x.recorder.hijacked gone classified.termination in
    (
      request_finished long_running x.established x.recorder.hijacked x.metrics,
      record {
        status = final_status end x.recorder;
        termination = term;
        bytes = if x.recorder.hijacked then none else some x.recorder.bytes;
        reason =
            if (term == classified.termination) && not (is_empty classified.reason)
            then some classified.reason
            else none;
      },
    )
