-- ===== src/Lifecycle/Wire.antt =====
-- The response recorder of pkg/proxy/lifecycle.go and the codes on the wire.
use mathlib.Core.Bool.{false≢true}
use kube_oidc_proxy.Base.{
  subst, ◌⊎◌, ℕ, suc, Bool, true, false, not, ◌&&◌, List, [], ◌∷◌, ◌≡◌, refl, sym, ap, ◌∙◌,
  if◌then◌else◌, inl, inr,
}
use kube_oidc_proxy.Lifecycle.{
  Recorder, Metrics, Exchange, Call, write_header, write, flush, hijack, End, Classified,
  is_informational, opens_stream, establish, establish_if, on_start, on_hijack, do_write_header,
  ensure_header, count_bytes, do_call, do_calls, final_status, has_returned, during,
  with_request_lifecycle,
}

-- The final statuses among the codes that went out.
unfoldable pub finals : List ℕ → List ℕ
finals [] = []
finals (c ∷ cs) = let rest = finals cs in if is_informational c then rest else c ∷ rest

-- A recorder whose status is the one final code on the wire, if any.
abbrev IsLatched : Recorder → Type 0
IsLatched r =
    (finals r.wire ≡ (if r.wrote then r.status ∷ [] else [])) × (r.wrote ≡ false → r.status ≡ 0)

establish-recorder : (x : Exchange) → (establish x).recorder ≡ x.recorder
unfolding establish
establish-recorder x = kept x.established
  where
    kept :
        (t : Bool)
        → (if t then x else record x {
          established = true;
          metrics = record x.metrics { long_running = suc x.metrics.long_running };
        }).recorder
          ≡ x.recorder
    kept true = refl
    kept false = refl

establish_if-recorder : (t : Bool) (x : Exchange) → (establish_if t x).recorder ≡ x.recorder
unfolding establish_if
establish_if-recorder true x = establish-recorder x
establish_if-recorder false x = refl

establish_if-IsLatched :
    (t : Bool) (x : Exchange) → IsLatched x.recorder → IsLatched (establish_if t x).recorder
establish_if-IsLatched t x h = subst IsLatched (sym (establish_if-recorder t x)) h

by_test :
    (t : Bool) (x y : Exchange)
    → (t ≡ true → IsLatched x.recorder)
    → (t ≡ false → IsLatched y.recorder)
    → IsLatched (if t then x else y).recorder
by_test true x y h k = h refl
by_test false x y h k = k refl

finals-informational :
    (code : ℕ) (cs : List ℕ) → is_informational code ≡ true → finals (code ∷ cs) ≡ finals cs
unfolding finals
finals-informational code cs e = rw e refl

finals-final :
    (code : ℕ) (cs : List ℕ) → is_informational code ≡ false → finals (code ∷ cs) ≡ code ∷ finals cs
unfolding finals
finals-final code cs e = rw e refl

module _ (long_running flusher : Bool) where
  do_write_header-IsLatched :
      (code : ℕ) (x : Exchange)
      → IsLatched x.recorder
      → IsLatched (do_write_header long_running flusher code x).recorder
  unfolding do_write_header on_start
  do_write_header-IsLatched code x (one, none_yet) =
      by_test (is_informational code) _ _
        (λ e. (finals-informational code x.recorder.wire e ∙ one, none_yet))
        (λ e.
          by_test x.recorder.wrote _ _ (λ _. (one, none_yet))
            (λ f.
              let latched : IsLatched (record x.recorder {
                wrote = true;
                status = code;
                wire = code ∷ x.recorder.wire;
              }) =
                (
                  finals-final code x.recorder.wire e
                      ∙ ap (λ cs. code ∷ cs)
                          (one ∙ ap (λ b. if b then x.recorder.status ∷ [] else []) f),
                  λ z. absurd (false≢true (sym z)),
                ) in
              by_test long_running _ _ (λ _. establish_if-IsLatched (opens_stream code) _ latched)
                (λ _. latched)))

  ensure_header-IsLatched :
      (x : Exchange)
      → IsLatched x.recorder
      → IsLatched (ensure_header long_running flusher x).recorder
  unfolding ensure_header
  ensure_header-IsLatched x h =
      by_test x.recorder.wrote _ _ (λ _. h) (λ _. do_write_header-IsLatched 200 x h)

  do_call-IsLatched :
      (c : Call) (x : Exchange)
      → IsLatched x.recorder
      → IsLatched (do_call long_running flusher c x).recorder
  unfolding do_call count_bytes on_hijack
  do_call-IsLatched (write_header code) x h = do_write_header-IsLatched code x h
  do_call-IsLatched (write n) x h = ensure_header-IsLatched x h
  do_call-IsLatched flush x h =
      by_test (not flusher) _ _ (λ _. h) (λ _. ensure_header-IsLatched x h)
  do_call-IsLatched (hijack false) x h = h
  do_call-IsLatched (hijack true) x h = establish_if-IsLatched long_running _ h

  do_calls-IsLatched :
      (cs : List Call) (x : Exchange)
      → IsLatched x.recorder
      → IsLatched (do_calls long_running flusher cs x).recorder
  unfolding do_calls
  do_calls-IsLatched [] x h = h
  do_calls-IsLatched (c ∷ cs) x h = do_calls-IsLatched cs _ (do_call-IsLatched c x h)

  during-IsLatched :
      (cs : List Call) (m : Metrics) → IsLatched (during long_running flusher cs m).recorder
  unfolding during finals
  during-IsLatched cs m = do_calls-IsLatched cs _ (refl, λ _. refl)

  reported :
      (end : End) (r : Recorder)
      → IsLatched r
      → (finals r.wire ≡ final_status end r ∷ [])
        ⊎ ((finals r.wire ≡ [])
            × (final_status end r ≡ (if not r.hijacked && has_returned end then 200 else 0)))
  unfolding final_status
  reported end r (one, none_yet) = split r.wrote refl
    where
      split :
          (t : Bool)
          → r.wrote ≡ t
          → let status = if not t && (not r.hijacked && has_returned end) then 200 else r.status in
            (finals r.wire ≡ status ∷ [])
            ⊎ ((finals r.wire ≡ [])
                × (status ≡ (if not r.hijacked && has_returned end then 200 else 0)))
      split true e = inl (one ∙ ap (λ b. if b then r.status ∷ [] else []) e)
      split false e = inr (
        one ∙ ap (λ b. if b then r.status ∷ [] else []) e,
        ap (λ s. if not r.hijacked && has_returned end then 200 else s) (none_yet e),
      )

  -- Of the codes that the handler's calls put on the wire at most one is final, and where there is
  -- one it is the status of the terminal record. Where there is none, the record says 200 if the
  -- handler returned without taking the connection over, and 0 otherwise.
  pub with_request_lifecycle-status :
      (calls : List Call) (end : End) (gone : Bool) (classified : Classified) (m : Metrics)
      → let wire = (during long_running flusher calls m).recorder.wire in
        let hijacked = (during long_running flusher calls m).recorder.hijacked in
        let status =
          (with_request_lifecycle long_running flusher calls end gone classified m).1.status in
        (finals wire ≡ status ∷ [])
        ⊎ ((finals wire ≡ []) × (status ≡ (if not hijacked && has_returned end then 200 else 0)))
  unfolding with_request_lifecycle
  with_request_lifecycle-status calls end gone classified m =
      reported end _ (during-IsLatched calls m)
