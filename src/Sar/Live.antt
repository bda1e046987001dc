-- ===== src/Sar/Live.antt =====
-- The decision cache (cache.go) and the live checks (subjectaccessreview.go). The API server, the
-- cache's store, the JSON of a spec, singleflight and the clock are third-party: an `Env`.
use kube_oidc_proxy.Base.{
  ℕ, suc, Text, codes, Bool, true, false, not, ◌&&◌, Option, none, some, List, ◌∷◌, ltb, leb,
  length, if◌then◌else◌,
}
use kube_oidc_proxy.Base.Result.{Result, ok, err}
use kube_oidc_proxy.Request.{UserInfo}
use kube_oidc_proxy.Sar.{
  Spec, ApiError, canceled, deadline_exceeded, failed, Reviewer, impersonation_review_spec,
  target_kind,
}

-- How a caller of `flight.DoChan` fares in its select.
pub data Flight : Type 0 where
  -- It runs the review itself; the flag says whether others wait for the result too.
  lead : Bool → Flight
  -- It gets the result of another caller's flight, which asked the same question.
  join : Result ApiError Bool → Flight
  -- Its own context is done first; the flag says whether it is the one that runs the review.
  give_up : ApiError → Bool → Flight

-- `World` holds the API server, the store of the LRU cache and the clock.
pub record Env (World : Type 0) : Type 0 where
  -- json.Marshal of the spec
  pub marshal : Spec → Option Text
  -- LRUExpireCache.Get and Add
  pub cache_get : Text → World → Option Bool × World
  pub cache_add : Text → Bool → ℕ → World → World
  -- SubjectAccessReviews().Create
  pub create : Spec → World → Result ApiError Bool × World
  pub flight : Text → World → Flight × World
  -- `ctx.Err() == nil` negated, and the same of the requester's own context
  pub ctx_done : World → Bool
  pub requester_done : World → Bool

-- The records and metrics of one question.
pub data Event : Type 0 where
  cache_lookup : Text → Event
  sar_completed : (decision : Bool) (coalesced : Bool) (kind : Text) → Event
  sar_failed : (reason : Text) (is_error : Bool) → Event
  review_request : Bool → Event

-- `calls` counts the reviews that were submitted.
pub record State (World : Type 0) : Type 0 where
  pub world : World
  pub calls : ℕ
  pub events : List Event

-- `err == nil && reviewResult.Status.Allowed`
abbrev pub is_allowed : Result ApiError Bool → Bool
is_allowed (ok b) = b
is_allowed (err e) = false

abbrev pub is_context_error : ApiError → Bool
is_context_error canceled = true
is_context_error deadline_exceeded = true
is_context_error (failed message) = false

-- A context error with the requester gone is the requester's own, at a low level.
abbrev pub failure : ApiError → Bool → Event
failure e gone =
    if is_context_error e && gone
    then sar_failed (codes "client_canceled") false
    else sar_failed (codes "authorization_dependency_error") true

abbrev pub emit : {World : Type 0} → Event → State World → State World
emit e s = record s { events = e ∷ s.events }

abbrev pub max_cache_key_size : ℕ
max_cache_key_size = 10000

unfoldable pub fits : Text → Option Text
fits key = if ltb max_cache_key_size (length key) then none else some key

module _ {World : Type 0} (env : Env World) (reviewer : Reviewer) where
  -- decisionCache.key
  unfoldable pub cache_key : Spec → Option Text
  cache_key spec =
      if not reviewer.cached
      then none
      else elim (env.marshal spec) [ none ↦ none | some bytes ↦ fits bytes ]

  -- decisionCache.put
  unfoldable pub cache_put : Text → Bool → State World → State World
  cache_put key allowed s =
      let ttl = if allowed then reviewer.allow_ttl else reviewer.deny_ttl in
      if leb ttl 0 then s else record s { world = env.cache_add key allowed ttl s.world }

  unfoldable pub live_check : Spec → State World → Result ApiError Bool × State World
  live_check spec s =
      let (answer, world) = env.create spec s.world in
      (
        answer,
        record s {
          world = world;
          calls = suc s.calls;
          events = review_request (is_allowed answer) ∷ s.events;
        },
      )

  -- observeLiveCheck
  unfoldable pub observe_live_check : Text → Bool → Result ApiError Bool → State World → State World
  observe_live_check kind coalesced (ok allowed) s = emit (sar_completed allowed coalesced kind) s
  observe_live_check kind coalesced (err e) s = emit (failure e (env.requester_done s.world)) s

  unfoldable pub timed_live_check : Text → Spec → State World → Result ApiError Bool × State World
  timed_live_check kind spec s =
      let (answer, s') = live_check spec s in (answer, observe_live_check kind false answer s')

  -- The function that a flight runs: only a definitive answer is cached.
  unfoldable pub put_answer : Text → Result ApiError Bool → State World → State World
  put_answer key (ok allowed) s = cache_put key allowed s
  put_answer key (err e) s = s

  unfoldable pub run_flight : Text → Spec → State World → Result ApiError Bool × State World
  run_flight key spec s = let (answer, s') = live_check spec s in (answer, put_answer key answer s')

  -- A result that another caller's flight reports. A context error that is not this caller's own is
  -- not inherited: the question is asked again. (singleflight sets `Shared` for every waiter.)
  unfoldable pub joined :
      Text → Spec → Result ApiError Bool → State World → Result ApiError Bool × State World
  joined kind spec (ok allowed) s = (ok allowed, observe_live_check kind true (ok allowed) s)
  joined kind spec (err e) s =
      if not (env.ctx_done s.world) && is_context_error e
      then timed_live_check kind spec s
      else (err e, observe_live_check kind true (err e) s)

  -- The leader of a flight that others share retries too, on a context error while its own context
  -- stands.
  unfoldable pub led :
      Text → Spec → Bool → Result ApiError Bool → State World → Result ApiError Bool × State World
  led kind spec shared (ok allowed) s = (ok allowed, observe_live_check kind shared (ok allowed) s)
  led kind spec shared (err e) s =
      if shared && (not (env.ctx_done s.world) && is_context_error e)
      then timed_live_check kind spec s
      else (err e, observe_live_check kind shared (err e) s)

  -- The background run of a flight whose leader no longer waits.
  unfoldable pub abandoned : Text → Spec → Bool → State World → State World
  abandoned key spec false s = s
  abandoned key spec true s = (run_flight key spec s).1

  -- The select of sharedLiveCheck.
  unfoldable pub select_result :
      Text → Text → Spec → Flight → State World → Result ApiError Bool × State World
  select_result kind key spec (lead shared) s =
      let (answer, t) = run_flight key spec s in led kind spec shared answer t
  select_result kind key spec (join answer) s = joined kind spec answer s
  select_result kind key spec (give_up e leading) s =
      (err e, observe_live_check kind false (err e) (abandoned key spec leading s))

  unfoldable pub shared_live_check :
      Text → Text → Spec → State World → Result ApiError Bool × State World
  shared_live_check kind key spec s =
      let (flight, world) = env.flight key s.world in
      select_result kind key spec flight (record s { world = world })

  unfoldable pub cached_or_live :
      Text → Text → Spec → Option Bool → State World → Result ApiError Bool × State World
  cached_or_live kind key spec (some allowed) s = (ok allowed, emit (cache_lookup (codes "hit")) s)
  cached_or_live kind key spec none s =
      shared_live_check kind key spec (emit (cache_lookup (codes "miss")) s)

  unfoldable pub check_keyed :
      Text → Spec → Option Text → State World → Result ApiError Bool × State World
  check_keyed kind spec none s = timed_live_check kind spec (emit (cache_lookup (codes "bypass")) s)
  check_keyed kind spec (some key) s =
      let (hit, world) = env.cache_get key s.world in
      cached_or_live kind key spec hit (record s { world = world })

  -- checkRbacImpersonationAuthorization
  unfoldable pub check_rbac_impersonation_authorization :
      Text → Text → UserInfo → State World → Result ApiError Bool × State World
  check_rbac_impersonation_authorization resource name requester s =
      let spec = impersonation_review_spec resource name requester in
      check_keyed (target_kind resource) spec (cache_key spec) s
