-- ===== src/Sar/Settling.antt =====
-- One check of pkg/proxy/subjectaccessreview: the cache, the shared flight and the live review.
use kube_oidc_proxy.Base.{
  ℕ, Text, Bool, true, false, not, ◌&&◌, Option, none, some, ◌≡◌, refl, ap, ◌⊎◌, inl, inr, arith,
  Member, if◌then◌else◌, subst, leb,
}
use kube_oidc_proxy.Base.Result.{Result, ok, err, ok_inj}
use kube_oidc_proxy.Request.{UserInfo}
use kube_oidc_proxy.Sar.{Spec, ApiError, Reviewer, impersonation_review_spec}
use kube_oidc_proxy.Sar.Trust.{
  IsEnv, Answered, IsTruthful, Advance, Advance-refl, Advance-trans, Decided, Decided-Advance,
  quiet, Settles, Settles-after,
}
use kube_oidc_proxy.Sar.Live.{
  Flight, lead, join, give_up, Env, State, cache_key, cache_put, live_check, observe_live_check,
  timed_live_check, put_answer, run_flight, joined, led, abandoned, select_result,
  shared_live_check, cached_or_live, check_keyed, check_rbac_impersonation_authorization,
  is_context_error, fits,
}

module _ {World : Type 0} (env : Env World) (laws : IsEnv env) (reviewer : Reviewer) where
  open laws use {answers, entries}

  live_check_lem :
      (spec : Spec) (s : State World)
      → Settles env laws spec s.world (live_check env reviewer spec s)
  unfolding live_check
  live_check_lem spec s = record {
    advance = quiet env laws (laws.create_answers spec s.world) (laws.create_entries spec s.world);
    decided = λ _ b e. inl (laws.create_ok spec s.world b e);
  }

  observe-world :
      (kind : Text) (c : Bool) (r : Result ApiError Bool) (s : State World)
      → (observe_live_check env reviewer kind c r s).world ≡ s.world
  unfolding observe_live_check
  observe-world kind c (ok b) s = refl
  observe-world kind c (err e) s = refl

  Settles-observe :
      {spec : Spec} {w : World} (kind : Text) (c : Bool) (r : Result ApiError Bool)
      (s : State World)
      → Settles env laws spec w (r, s)
      → Settles env laws spec w (r, observe_live_check env reviewer kind c r s)
  unfolding observe_live_check
  Settles-observe kind c (ok b) s h = record { advance = h.advance; decided = h.decided }
  Settles-observe kind c (err e) s h = record { advance = h.advance; decided = h.decided }

  timed_live_check_lem :
      (kind : Text) (spec : Spec) (s : State World)
      → Settles env laws spec s.world (timed_live_check env reviewer kind spec s)
  unfolding timed_live_check
  timed_live_check_lem kind spec s = Settles-observe kind false _ _ (live_check_lem spec s)

  -- Caching an answer that was given.
  cache_put-Advance :
      (k : Text) (b : Bool) (s : State World)
      → Answered env laws k b s.world
      → Advance env laws s.world (cache_put env reviewer k b s).world
  unfolding cache_put
  cache_put-Advance k b s answered =
      stored (leb (if b then reviewer.allow_ttl else reviewer.deny_ttl) 0)
    where
      ttl : ℕ
      ttl = if b then reviewer.allow_ttl else reviewer.deny_ttl

      added : State World
      added = record s { world = env.cache_add k b ttl s.world }

      entry :
          IsTruthful env laws s.world
          → (j : Text) (c : Bool)
          → ◌≡◌ {A = Text × Bool} (k, b) (j, c) ⊎ Member (j, c) (entries s.world)
          → Answered env laws j c added.world
      entry h j c (inl e) =
          let (spec, m, same) = subst (λ x. Answered env laws x.0 x.1 s.world) e answered in
          (spec, laws.add_answers k b ttl s.world _ m, same)
      entry h j c (inr old) =
          let (spec, m, same) = h j c old in (spec, laws.add_answers k b ttl s.world _ m, same)

      stored : (t : Bool) → Advance env laws s.world (if t then s else added).world
      stored true = Advance-refl env laws s.world
      stored false = record {
        truthful = λ h j c m. entry h j c (laws.add_entries k b ttl s.world (j, c) m);
        keeps = laws.add_answers k b ttl s.world;
      }

  Settles-put :
      (key : Text) (spec : Spec) {w : World} (r : Result ApiError Bool) (s : State World)
      → env.marshal spec ≡ some key
      → ((b : Bool) → r ≡ ok b → Member (spec, b) (answers s.world))
      → Settles env laws spec w (r, s)
      → Settles env laws spec w (r, put_answer env reviewer key r s)
  unfolding put_answer
  Settles-put key spec (err e) s same answered h = h
  Settles-put key spec (ok b) s same answered h =
      let put = cache_put-Advance key b s (spec, answered b refl, same) in
      record {
        advance = Advance-trans env laws h.advance put;
        decided = λ truthful c e. Decided-Advance env laws spec c put (h.decided truthful c e);
      }

  run_flight_lem :
      (key : Text) (spec : Spec) (s : State World)
      → env.marshal spec ≡ some key
      → Settles env laws spec s.world (run_flight env reviewer key spec s)
  unfolding run_flight live_check
  run_flight_lem key spec s same =
      Settles-put key spec _ _ same (laws.create_ok spec s.world) (live_check_lem spec s)

  led_lem :
      (kind : Text) (spec : Spec) (shared : Bool) {w : World} (r : Result ApiError Bool)
      (s : State World)
      → Settles env laws spec w (r, s)
      → Settles env laws spec w (led env reviewer kind spec shared r s)
  unfolding led
  led_lem kind spec shared (ok b) s h = Settles-observe kind shared (ok b) s h
  led_lem kind spec shared {w} (err e) s h =
      retried (shared && (not (env.ctx_done s.world) && is_context_error e))
    where
      retried :
          (t : Bool)
          → Settles env laws spec w (
              if t
              then timed_live_check env reviewer kind spec s
              else (err e, observe_live_check env reviewer kind shared (err e) s))
      retried true = Settles-after env laws h.advance (timed_live_check_lem kind spec s)
      retried false = Settles-observe kind shared (err e) s h

  joined_lem :
      (kind : Text) (spec : Spec) {w : World} (r : Result ApiError Bool) (s : State World)
      → Settles env laws spec w (r, s)
      → Settles env laws spec w (joined env reviewer kind spec r s)
  unfolding joined
  joined_lem kind spec (ok b) s h = Settles-observe kind true (ok b) s h
  joined_lem kind spec {w} (err e) s h = retried (not (env.ctx_done s.world) && is_context_error e)
    where
      retried :
          (t : Bool)
          → Settles env laws spec w (
              if t
              then timed_live_check env reviewer kind spec s
              else (err e, observe_live_check env reviewer kind true (err e) s))
      retried true = Settles-after env laws h.advance (timed_live_check_lem kind spec s)
      retried false = Settles-observe kind true (err e) s h

  -- An error decides nothing.
  Settles-err :
      {spec : Spec} {w : World} (e : ApiError) (s : State World)
      → Advance env laws w s.world
      → Settles env laws spec w (err e, s)
  Settles-err e s p = record { advance = p; decided = λ _ b z. absurd (err_ok z) }
    where
      err_ok : {b : Bool} → err e ≡ ok b → ⊥
      err_ok z = cc

  abandoned-Advance :
      (key : Text) (spec : Spec) (leading : Bool) (s : State World)
      → env.marshal spec ≡ some key
      → Advance env laws s.world (abandoned env reviewer key spec leading s).world
  unfolding abandoned
  abandoned-Advance key spec false s same = Advance-refl env laws s.world
  abandoned-Advance key spec true s same = (run_flight_lem key spec s same).advance

  select_result_lem :
      (kind key : Text) (spec : Spec) (f : Flight) (s : State World)
      → env.marshal spec ≡ some key
      → ((b : Bool) → f ≡ join (ok b) → Answered env laws key b s.world)
      → Settles env laws spec s.world (select_result env reviewer kind key spec f s)
  unfolding select_result
  select_result_lem kind key spec (lead shared) s same answered =
      led_lem kind spec shared _ _ (run_flight_lem key spec s same)
  select_result_lem kind key spec (join r) s same answered = joined_lem kind spec r s (record {
    advance = Advance-refl env laws s.world;
    decided = λ _ b e. inr (key, same, answered b (ap join e));
  })
  select_result_lem kind key spec (give_up e leading) s same answered =
      Settles-observe kind false (err e) _
        (Settles-err e _ (abandoned-Advance key spec leading s same))

  shared_live_check_lem :
      (kind key : Text) (spec : Spec) (s : State World)
      → env.marshal spec ≡ some key
      → Settles env laws spec s.world (shared_live_check env reviewer kind key spec s)
  unfolding shared_live_check
  shared_live_check_lem kind key spec s same =
      Settles-after env laws
        (quiet env laws (laws.flight_answers key s.world) (laws.flight_entries key s.world))
        (select_result_lem kind key spec _ _ same (laws.flight_join key s.world))

  cached_or_live_lem :
      (kind key : Text) (spec : Spec) (w : World) (hit : Option Bool) (s : State World)
      → env.marshal spec ≡ some key
      → Advance env laws w s.world
      → ((b : Bool) → hit ≡ some b → IsTruthful env laws w → Answered env laws key b w)
      → Settles env laws spec w (cached_or_live env reviewer kind key spec hit s)
  unfolding cached_or_live
  cached_or_live_lem kind key spec w none s same p served =
      Settles-after env laws p (shared_live_check_lem kind key spec _ same)
  cached_or_live_lem kind key spec w (some b) s same p served = record {
    advance = p;
    decided = λ truthful c e.
        Decided-Advance env laws spec c p (inr (key, same, served c (ap some (ok_inj e)) truthful));
  }

  check_keyed_lem :
      (kind : Text) (spec : Spec) (k : Option Text) (s : State World)
      → ((key : Text) → k ≡ some key → env.marshal spec ≡ some key)
      → Settles env laws spec s.world (check_keyed env reviewer kind spec k s)
  unfolding check_keyed
  check_keyed_lem kind spec none s same = timed_live_check_lem kind spec _
  check_keyed_lem kind spec (some key) s same =
      cached_or_live_lem kind key spec s.world _ _ (same key refl)
        (quiet env laws (laws.get_answers key s.world) (laws.get_entries key s.world))
        (λ b e truthful. truthful key b (laws.get_hit key s.world b e))

  cache_key-marshal :
      (spec : Spec) (key : Text)
      → cache_key env reviewer spec ≡ some key
      → env.marshal spec ≡ some key
  unfolding cache_key fits
  cache_key-marshal spec key e = ground arith

  -- What one check does to any store.
  pub check_rbac-Settles :
      (resource name : Text) (requester : UserInfo) (s : State World)
      → Settles env laws
          (impersonation_review_spec resource name requester)
          s.world
          (check_rbac_impersonation_authorization env reviewer resource name requester s)
  unfolding check_rbac_impersonation_authorization
  check_rbac-Settles resource name requester s =
      check_keyed_lem _ _ _ s
        (cache_key-marshal (impersonation_review_spec resource name requester))

  -- One check, on a store whose every entry is an answer that the server gave: the store is so after
  -- it as well, no answer is lost, and where the check yields a decision, that is the server's answer
  -- to this review or to one that serialises alike.
  pub check_rbac-IsAnswer :
      (resource name : Text) (requester : UserInfo) (s : State World)
      → IsTruthful env laws s.world
      → let spec = impersonation_review_spec resource name requester in
        let r = check_rbac_impersonation_authorization env reviewer resource name requester s in
        IsTruthful env laws r.1.world
        × ((a : Spec × Bool) → Member a (answers s.world) → Member a (answers r.1.world))
        × ((b : Bool) → r.0 ≡ ok b → Decided env laws spec b r.1.world)
  check_rbac-IsAnswer resource name requester s truthful =
      let settled = check_rbac-Settles resource name requester s in
      (settled.advance.truthful truthful, settled.advance.keeps, settled.decided truthful)
