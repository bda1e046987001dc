-- ===== src/Examples/Reviews.antt =====
-- Runs of the impersonation reviews, against a server that allows everything and a store that
-- never expires.
use kube_oidc_proxy.Base.{
  ◌+◌, ◌*◌, Text, codes, ◌==◌, eq_iff, Bool, true, false, Option, some, List, [], ◌∷◌, ◌≡◌, refl,
  ap, inl, inr, ◌≤◌, ◌<◌, Member, Bool-cases, some_inj, is_some, to_lower, lower, has_prefix,
  split_on, lookup, insert,
}
use kube_oidc_proxy.Base.Result.{Result, ok, err, ok_inj}
use kube_oidc_proxy.Header.{Header, get, canonical, capitalise, upper, is_token, is_alnum, add}
use kube_oidc_proxy.Request.{UserInfo}
use kube_oidc_proxy.Sar.{
  Spec, too_many_values, Reviewer, impersonation_review_spec, ApiError, resource_parts, target_kind,
}
use kube_oidc_proxy.Sar.Live.{
  Env, Flight, lead, State, check_rbac_impersonation_authorization, check_keyed, cached_or_live,
  cache_key, fits, shared_live_check, select_result, run_flight, live_check, put_answer, cache_put,
  led, observe_live_check,
}
use kube_oidc_proxy.Sar.Check.{
  count_impersonation_header_values, check_authorized_for_impersonation, is_impersonation,
  check_headers, check_header, check_user, authorize, without_impersonation, add_values,
}
use kube_oidc_proxy.Sar.Trust.{IsEnv, IsTruthful, Decided}
use kube_oidc_proxy.Sar.Settling.{check_rbac-IsAnswer}
use kube_oidc_proxy.Sar.Granted.{IsGranted}
use kube_oidc_proxy.Sar.Soundness.{check_authorized-IsGranted}
use kube_oidc_proxy.Sar.Forwarding.{has_impersonation, check_authorized-clean}
use kube_oidc_proxy.Sar.Cost.{check_authorized-calls}

abbrev Answers : Type 0
Answers = List (Spec × Bool)

abbrev Entries : Type 0
Entries = List (Text × Bool)

abbrev found : Text → Entries → Option Bool
found k w = lookup k w

abbrev env : Env (Answers × Entries)
env = record {
  marshal = λ spec. some spec.name;
  cache_get = λ k w. (found k w.1, w);
  cache_add = λ k b ttl w. (w.0, (k, b) ∷ w.1);
  create = λ spec w. (ok true, ((spec, true) ∷ w.0, w.1));
  flight = λ k w. (lead false, w);
  ctx_done = λ w. false;
  requester_done = λ w. false;
}

found-Member : (k : Text) (w : Entries) (b : Bool) → lookup k w ≡ some b → Member (k, b) w
unfolding lookup
found-Member k [] b e = cc
found-Member k ((j, c) ∷ w) b e = elim (Bool-cases (j == k)) [
  | inl same ↦ let c_b : c ≡ b = some_inj (rw same at e) in inl (rw ((eq_iff j k).0 same, c_b) refl)
  | inr other ↦ inr (found-Member k w b (rw other at e))
]

lead_join : {r : Result ApiError Bool} → lead false ≡ Flight.join r → ⊥
lead_join e = cc

laws : IsEnv env
laws = record {
  answers = λ w. w.0;
  entries = λ w. w.1;
  get_hit = λ k w b e. found-Member k w.1 b e;
  get_entries = λ k w e m. m;
  add_entries = λ k b ttl w e m. m;
  create_entries = λ spec w e m. m;
  create_ok = λ spec w b e. inl (ap (λ x. (spec, x)) (ok_inj e));
  get_answers = λ k w a m. m;
  add_answers = λ k b ttl w a m. m;
  create_answers = λ spec w a m. inr m;
  flight_answers = λ k w a m. m;
  flight_join = λ k w b e. absurd (lead_join e);
  flight_entries = λ k w e m. m;
}

abbrev reviewer : Reviewer
reviewer = record {
  sar_timeout = 5;
  max_header_values = 64;
  cached = true;
  allow_ttl = 10;
  deny_ttl = 5;
}

abbrev requester : UserInfo
requester = record { name = codes "alice"; uid = []; groups = codes "devs" ∷ []; extra = [] }

abbrev target : UserInfo
target = record { name = codes "bob"; uid = []; groups = []; extra = [] }

abbrev start : State (Answers × Entries)
start = record { world = ([], []); calls = 0; events = [] }

abbrev headers : Header
headers = (codes "Impersonate-User", codes "bob" ∷ []) ∷ (codes "Accept", codes "*" ∷ []) ∷ []

start-IsTruthful : IsTruthful env laws start.world
unfolding laws
start-IsTruthful k b m = absurd m

accepted :
    (check_authorized_for_impersonation env reviewer requester headers start).0
    ≡ ok (some target, (codes "Accept", codes "*" ∷ []) ∷ [])
unfolding check_authorized_for_impersonation codes count_impersonation_header_values
    is_impersonation has_prefix to_lower check_headers get lookup ◌==◌ canonical is_token is_alnum
    capitalise upper check_header check_user authorize check_rbac_impersonation_authorization insert
    lower split_on add add_values without_impersonation cache_key cache_put cached_or_live
    check_keyed fits led live_check observe_live_check put_answer run_flight select_result
    shared_live_check impersonation_review_spec resource_parts target_kind
accepted = refl

check_rbac-IsAnswer_example :
    let spec = impersonation_review_spec (codes "users") (codes "bob") requester in
    let r =
      check_rbac_impersonation_authorization env reviewer
        (codes "users")
        (codes "bob")
        requester
        start in
    IsTruthful env laws r.1.world
    × ((a : Spec × Bool) → Member a (laws.answers start.world) → Member a (laws.answers r.1.world))
    × ((b : Bool) → r.0 ≡ ok b → Decided env laws spec b r.1.world)
check_rbac-IsAnswer_example =
    check_rbac-IsAnswer env laws reviewer (codes "users") (codes "bob") requester start
      start-IsTruthful

check_authorized-IsGranted_example :
    let s' = (check_authorized_for_impersonation env reviewer requester headers start).1 in
    IsGranted env laws requester target s'.world × IsTruthful env laws s'.world
check_authorized-IsGranted_example =
    check_authorized-IsGranted env laws requester reviewer headers start target
      ((codes "Accept", codes "*" ∷ []) ∷ []) start-IsTruthful accepted

check_authorized-clean_example :
    (has_impersonation ((codes "Accept", codes "*" ∷ []) ∷ []) ≡ false)
    × (is_some (some target) ≡ has_impersonation headers)
check_authorized-clean_example =
    check_authorized-clean env reviewer requester headers start (some target)
      ((codes "Accept", codes "*" ∷ []) ∷ []) accepted

check_authorized-calls_example :
    let count = count_impersonation_header_values headers in
    let r = check_authorized_for_impersonation env reviewer requester headers start in
    (r.1.calls ≤ 0 + 2 * count)
    × (r.1.calls ≤ 0 + 2 * 64)
    × (64 < count → r ≡ (err (too_many_values count 64), start))
check_authorized-calls_example = check_authorized-calls env reviewer requester headers start
