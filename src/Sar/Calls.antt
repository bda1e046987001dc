-- ===== src/Sar/Calls.antt =====
-- The reviews that one question submits, for pkg/proxy/subjectaccessreview.
use kube_oidc_proxy.Base.{
  suc, ◌+◌, ◌≤◌, Text, Bool, true, false, Option, none, some, ◌≡◌, refl, arith, leb, if◌then◌else◌,
}
use kube_oidc_proxy.Base.Result.{Result, ok, err}
use kube_oidc_proxy.Request.{UserInfo}
use kube_oidc_proxy.Sar.{Spec, ApiError, Reviewer}
use kube_oidc_proxy.Sar.Live.{
  Env, State, Flight, lead, join, give_up, cache_put, live_check, observe_live_check,
  timed_live_check, put_answer, run_flight, joined, led, abandoned, select_result,
  shared_live_check, cached_or_live, check_keyed, check_rbac_impersonation_authorization,
}

module _ {World : Type 0} (env : Env World) (reviewer : Reviewer) where
  calls-observe :
      (kind : Text) (c : Bool) (r : Result ApiError Bool) (s : State World)
      → (observe_live_check env reviewer kind c r s).calls ≡ s.calls
  unfolding observe_live_check
  calls-observe kind c (ok b) s = refl
  calls-observe kind c (err e) s = refl

  calls-live :
      (spec : Spec) (s : State World) → (live_check env reviewer spec s).1.calls ≡ suc s.calls
  unfolding live_check
  calls-live spec s = refl

  calls-timed :
      (kind : Text) (spec : Spec) (s : State World)
      → (timed_live_check env reviewer kind spec s).1.calls ≡ suc s.calls
  unfolding timed_live_check live_check
  calls-timed kind spec s = calls-observe kind false _ _

  calls-put :
      (key : Text) (r : Result ApiError Bool) (s : State World)
      → (put_answer env reviewer key r s).calls ≡ s.calls
  unfolding put_answer cache_put
  calls-put key (ok b) s = stored (leb (if b then reviewer.allow_ttl else reviewer.deny_ttl) 0)
    where
      added : State World
      added = record s {
        world = env.cache_add key b (if b then reviewer.allow_ttl else reviewer.deny_ttl) s.world;
      }

      stored : (t : Bool) → (if t then s else added).calls ≡ s.calls
      stored true = refl
      stored false = refl
  calls-put key (err e) s = refl

  calls-run_flight :
      (key : Text) (spec : Spec) (s : State World)
      → (run_flight env reviewer key spec s).1.calls ≡ suc s.calls
  unfolding run_flight live_check
  calls-run_flight key spec s = calls-put key _ _

  -- A retry, or the record of the error.
  calls-retry :
      (kind : Text) (spec : Spec) (t c : Bool) (e : ApiError) (s : State World)
      → (if t
          then timed_live_check env reviewer kind spec s
          else (err e, observe_live_check env reviewer kind c (err e) s)).1.calls
        ≤ suc s.calls
  calls-retry kind spec true c e s = omega (arith, calls-timed kind spec s)
  calls-retry kind spec false c e s = omega (arith, calls-observe kind c (err e) s)

  calls-led :
      (kind : Text) (spec : Spec) (shared : Bool) (r : Result ApiError Bool) (s : State World)
      → (led env reviewer kind spec shared r s).1.calls ≤ suc s.calls
  unfolding led
  calls-led kind spec shared (ok b) s = omega (arith, calls-observe kind shared (ok b) s)
  calls-led kind spec shared (err e) s = calls-retry kind spec _ shared e s

  calls-joined :
      (kind : Text) (spec : Spec) (r : Result ApiError Bool) (s : State World)
      → (joined env reviewer kind spec r s).1.calls ≤ suc s.calls
  unfolding joined
  calls-joined kind spec (ok b) s = omega (arith, calls-observe kind true (ok b) s)
  calls-joined kind spec (err e) s = calls-retry kind spec _ true e s

  calls-abandoned :
      (key : Text) (spec : Spec) (leading : Bool) (s : State World)
      → (abandoned env reviewer key spec leading s).calls ≤ suc s.calls
  unfolding abandoned
  calls-abandoned key spec false s = omega arith
  calls-abandoned key spec true s = omega (arith, calls-run_flight key spec s)

  calls-select :
      (kind key : Text) (spec : Spec) (f : Flight) (s : State World)
      → (select_result env reviewer kind key spec f s).1.calls ≤ suc (suc s.calls)
  unfolding select_result
  calls-select kind key spec (lead shared) s = omega (
    arith,
    calls-run_flight key spec s,
    calls-led kind spec shared _ (run_flight env reviewer key spec s).1,
  )
  calls-select kind key spec (join r) s = omega (arith, calls-joined kind spec r s)
  calls-select kind key spec (give_up e leading) s = omega (
    arith,
    calls-abandoned key spec leading s,
    calls-observe kind false (err e) (abandoned env reviewer key spec leading s),
  )

  calls-cached :
      (kind key : Text) (spec : Spec) (hit : Option Bool) (s : State World)
      → (cached_or_live env reviewer kind key spec hit s).1.calls ≤ suc (suc s.calls)
  unfolding cached_or_live shared_live_check
  calls-cached kind key spec none s = calls-select kind key spec _ _
  calls-cached kind key spec (some b) s = omega arith

  calls-keyed :
      (kind : Text) (spec : Spec) (k : Option Text) (s : State World)
      → (check_keyed env reviewer kind spec k s).1.calls ≤ suc (suc s.calls)
  unfolding check_keyed
  calls-keyed kind spec none s = omega (arith, calls-timed kind spec _)
  calls-keyed kind spec (some key) s = calls-cached kind key spec _ _

  -- One question costs at most two reviews: its own, and one retry.
  pub calls-check_rbac :
      (resource name : Text) (requester : UserInfo) (s : State World)
      → (check_rbac_impersonation_authorization env reviewer resource name requester s).1.calls
        ≤ s.calls + 2
  unfolding check_rbac_impersonation_authorization
  calls-check_rbac resource name requester s = omega (arith, calls-keyed _ _ _ s)
