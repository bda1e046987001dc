-- ===== src/Lifecycle/Gauge.antt =====
-- The gauges and counters of pkg/metrics/request.go over a request of pkg/proxy/lifecycle.go.
use kube_oidc_proxy.Base.{
  ℕ, suc, ◌+◌, Bool, true, false, not, ◌&&◌, List, [], ◌∷◌, ◌≡◌, refl, ap, arith, if◌then◌else◌,
}
use kube_oidc_proxy.Lifecycle.{
  Metrics, Exchange, Call, write_header, write, flush, hijack, End, Classified, is_informational,
  opens_stream, establish, establish_if, on_start, on_hijack, do_write_header, ensure_header,
  count_bytes, do_call, do_calls, request_started, request_finished, during, with_request_lifecycle,
}

module _ (m : Metrics) where
  -- The request is in flight, and its stream is counted if and only if it is established.
  abbrev IsCounted : Bool → Metrics → Type 0
  IsCounted established k =
      (k.in_flight ≡ suc m.in_flight)
      × (k.long_running ≡ m.long_running + (if established then 1 else 0))
      × (k.total ≡ m.total)
      × (k.latencies ≡ m.latencies)

  abbrev IsOpen : Exchange → Type 0
  IsOpen x = IsCounted x.established x.metrics

  either_way : (t : Bool) (x y : Exchange) → IsOpen x → IsOpen y → IsOpen (if t then x else y)
  either_way true x y h k = h
  either_way false x y h k = k

  establish-IsOpen : (x : Exchange) → IsOpen x → IsOpen (establish x)
  unfolding establish
  establish-IsOpen x h = raised x.established refl
    where
      raised :
          (t : Bool)
          → x.established ≡ t
          → IsOpen (
              if t then x else record x {
                established = true;
                metrics = record x.metrics { long_running = suc x.metrics.long_running };
              })
      raised true e = h
      raised false e =
          let (flying, streams, total, latencies) = h in
          let closed : ◌≡◌ {A = ℕ} (if x.established then 1 else 0) 0 =
            ap (λ b. if b then 1 else 0) e in
          (flying, omega (arith, streams, closed), total, latencies)

  establish_if-IsOpen : (t : Bool) (x : Exchange) → IsOpen x → IsOpen (establish_if t x)
  unfolding establish_if
  establish_if-IsOpen true x h = establish-IsOpen x h
  establish_if-IsOpen false x h = h

  module _ (long_running flusher : Bool) where
    do_write_header-IsOpen :
        (code : ℕ) (x : Exchange) → IsOpen x → IsOpen (do_write_header long_running flusher code x)
    unfolding do_write_header on_start
    do_write_header-IsOpen code x h = either_way (is_informational code) _ _ h (
        either_way x.recorder.wrote _ _ h
          (either_way long_running _ _ (establish_if-IsOpen (opens_stream code) _ h) h))

    ensure_header-IsOpen : (x : Exchange) → IsOpen x → IsOpen (ensure_header long_running flusher x)
    unfolding ensure_header
    ensure_header-IsOpen x h = either_way x.recorder.wrote _ _ h (do_write_header-IsOpen 200 x h)

    do_call-IsOpen :
        (c : Call) (x : Exchange) → IsOpen x → IsOpen (do_call long_running flusher c x)
    unfolding do_call count_bytes on_hijack
    do_call-IsOpen (write_header code) x h = do_write_header-IsOpen code x h
    do_call-IsOpen (write n) x h = ensure_header-IsOpen x h
    do_call-IsOpen flush x h = either_way (not flusher) _ _ h (ensure_header-IsOpen x h)
    do_call-IsOpen (hijack false) x h = h
    do_call-IsOpen (hijack true) x h = establish_if-IsOpen long_running _ h

    do_calls-IsOpen :
        (cs : List Call) (x : Exchange) → IsOpen x → IsOpen (do_calls long_running flusher cs x)
    unfolding do_calls
    do_calls-IsOpen [] x h = h
    do_calls-IsOpen (c ∷ cs) x h = do_calls-IsOpen cs _ (do_call-IsOpen c x h)

    during-IsOpen : (cs : List Call) → IsOpen (during long_running flusher cs m)
    unfolding during request_started
    during-IsOpen cs = do_calls-IsOpen cs _ (refl, omega arith, refl, refl)

    finished :
        (established hijacked : Bool) (k : Metrics)
        → IsCounted established k
        → let k' = request_finished long_running established hijacked k in
          (k'.in_flight ≡ m.in_flight)
          × (k'.long_running ≡ m.long_running)
          × (k'.total ≡ suc m.total)
          × (k'.latencies ≡ m.latencies + (if not long_running && not hijacked then 1 else 0))
    unfolding request_finished
    finished true hijacked k (flying, streams, total, latencies) =
        (omega (arith, flying), omega (arith, streams), ap suc total, ground arith)
    finished false hijacked k (flying, streams, total, latencies) =
        (omega (arith, flying), omega (arith, streams), ap suc total, ground arith)

    -- Whatever the handler calls and however it ends, the filter leaves the gauge of requests in
    -- flight and the gauge of streams where they were, counts the request once, and observes a
    -- latency exactly where the request is short and its connection was not taken over.
    pub with_request_lifecycle-gauges :
        (calls : List Call) (end : End) (gone : Bool) (classified : Classified)
        → let k = (with_request_lifecycle long_running flusher calls end gone classified m).0 in
          let hijacked = (during long_running flusher calls m).recorder.hijacked in
          (k.in_flight ≡ m.in_flight)
          × (k.long_running ≡ m.long_running)
          × (k.total ≡ suc m.total)
          × (k.latencies ≡ m.latencies + (if not long_running && not hijacked then 1 else 0))
    unfolding with_request_lifecycle
    with_request_lifecycle-gauges calls end gone classified = finished _ _ _ (during-IsOpen calls)
