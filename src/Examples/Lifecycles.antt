-- ===== src/Examples/Lifecycles.antt =====
-- A watch that sends an early hint, then its headers, flushes and streams.
use kube_oidc_proxy.Base.{◌+◌, true, false, not, ◌&&◌, List, [], ◌∷◌, ◌≡◌, ◌⊎◌, if◌then◌else◌}
use kube_oidc_proxy.Lifecycle.{
  Metrics, Call, write_header, write, flush, returned, has_returned, Classified, during,
  with_request_lifecycle,
}
use kube_oidc_proxy.Lifecycle.Wire.{finals, with_request_lifecycle-status}
use kube_oidc_proxy.Lifecycle.Gauge.{with_request_lifecycle-gauges}

abbrev calls : List Call
calls = write_header 103 ∷ flush ∷ write_header 500 ∷ write 12 ∷ []

abbrev metrics : Metrics
metrics = record { in_flight = 3; long_running = 1; total = 7; latencies = 4 }

abbrev unclassified : Classified
unclassified = record { termination = []; reason = [] }

with_request_lifecycle-status_example :
    let wire = (during true true calls metrics).recorder.wire in
    let hijacked = (during true true calls metrics).recorder.hijacked in
    let status =
      (with_request_lifecycle true true calls returned false unclassified metrics).1.status in
    (finals wire ≡ status ∷ [])
    ⊎ ((finals wire ≡ []) × (status ≡ (if not hijacked && has_returned returned then 200 else 0)))
with_request_lifecycle-status_example =
    with_request_lifecycle-status true true calls returned false unclassified metrics

with_request_lifecycle-gauges_example :
    let k = (with_request_lifecycle true true calls returned false unclassified metrics).0 in
    let hijacked = (during true true calls metrics).recorder.hijacked in
    (k.in_flight ≡ 3)
    × (k.long_running ≡ 1)
    × (k.total ≡ 8)
    × (k.latencies ≡ 4 + (if not true && not hijacked then 1 else 0))
with_request_lifecycle-gauges_example =
    with_request_lifecycle-gauges metrics true true calls returned false unclassified
