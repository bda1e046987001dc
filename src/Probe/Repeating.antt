-- ===== src/Probe/Repeating.antt =====
-- Two checks of pkg/probe/probe.go in a row that are given the same answers.
use kube_oidc_proxy.Base.{
  Text, Bool, true, false, not, ◌||◌, Option, none, some, List, [], ◌∷◌, ◌≡◌, refl, ap, ◌∙◌, sym,
  inl, inr, All, All-map, arith, if◌then◌else◌, Bool-cases, ◌==◌, eq_refl, eq_iff,
}
use kube_oidc_proxy.Probe.{
  Issuer, PendingIssuer, Answer, HealthCheck, CheckError, not_serving, Round, is_initialized,
  to_probe, add_result, probe, holds_back, drop_stale, mark_all, pending_key, report_change,
  record_probe_results, become_ready, evaluate, conclude, check,
}
use kube_oidc_proxy.Probe.Recording.{report_change-initialized}
use kube_oidc_proxy.Probe.Evaluating.{
  evaluate_cases, conclude-kept, conclude-grows, recorded-initialized,
}

not_both : (t : Bool) → t ≡ false → t ≡ true → ⊥
not_both t e f = cc

drop_stale_idempotent :
    (urls : List Text) (ps : List PendingIssuer)
    → drop_stale urls (drop_stale urls ps) ≡ drop_stale urls ps
unfolding drop_stale
drop_stale_idempotent urls [] = refl
drop_stale_idempotent urls (p ∷ ps) = elim (Bool-cases (is_initialized urls p.issuer_url)) [
  | inl known ↦ rw known (drop_stale_idempotent urls ps)
  | inr new ↦ rw new (rw new (ap (λ qs. p ∷ qs) (drop_stale_idempotent urls ps)))
]

module _ (authenticate : Text → Answer) (old urls : List Text) where
  -- An issuer whose authenticator answers as initialized is in the later list.
  abbrev IsTaken : Issuer → Type 0
  IsTaken i =
      holds_back (authenticate i.fake_jwt).error ≡ none → is_initialized urls i.issuer_url ≡ true

  module _ (grow : (x : Text) → is_initialized old x ≡ true → is_initialized urls x ≡ true) where
    second_step :
        (i : Issuer) (is js : List Issuer)
        → IsTaken i
        → probe authenticate is
          ≡ record { newly = []; pending = drop_stale urls (probe authenticate js).pending }
        → (t : Bool) → is_initialized urls i.issuer_url ≡ t
        → (u : Bool) → is_initialized old i.issuer_url ≡ u
        → (held : Option Text) → holds_back (authenticate i.fake_jwt).error ≡ held
        → probe authenticate (if not t then i ∷ is else is) ≡ record {
          newly = [];
          pending = drop_stale urls (probe authenticate (if not u then i ∷ js else js)).pending;
        }
    unfolding probe drop_stale add_result
    second_step i is js taken same true e true f held g = same
    second_step i is js taken same true e false f none g = rw g same
    second_step i is js taken same true e false f (some reason) g = rw g (rw e same)
    second_step i is js taken same false e true f held g =
        absurd (not_both _ e (grow i.issuer_url f))
    second_step i is js taken same false e false f none g = absurd (not_both _ e (taken g))
    second_step i is js taken same false e false f (some reason) g =
        rw g (rw e (ap (add_result i (some reason)) same))

    second_round :
        (is : List Issuer)
        → All IsTaken is
        → probe authenticate (to_probe urls is) ≡ record {
          newly = [];
          pending = drop_stale urls (probe authenticate (to_probe old is)).pending;
        }
    unfolding to_probe probe drop_stale
    second_round [] h = refl
    second_round (i ∷ is) (taken, h) =
        second_step i (to_probe urls is) (to_probe old is) taken (second_round is h)
          (is_initialized urls i.issuer_url) refl (is_initialized old i.issuer_url) refl
          (holds_back (authenticate i.fake_jwt).error) refl

  -- An issuer that answers is in the earlier list or among the round's new ones.
  abbrev pub IsFound : Round → Issuer → Type 0
  IsFound r i =
      holds_back (authenticate i.fake_jwt).error ≡ none
      → (is_initialized old i.issuer_url || is_initialized r.newly i.issuer_url) ≡ true

  add_result-IsFound :
      (i j : Issuer) (held : Option Text) (r : Round)
      → IsFound r j
      → IsFound (add_result i held r) j
  unfolding add_result is_initialized
  add_result-IsFound i j none r h e = ground (arith, h e)
  add_result-IsFound i j (some reason) r h e = h e

  probe_if-IsFound :
      (t : Bool) (i j : Issuer) (is : List Issuer)
      → IsFound (probe authenticate is) j
      → IsFound (probe authenticate (if t then i ∷ is else is)) j
  unfolding probe
  probe_if-IsFound true i j is h = add_result-IsFound i j _ _ h
  probe_if-IsFound false i j is h = h

  probe-covers :
      (i : Issuer) (is : List Issuer) (t : Bool)
      → not (is_initialized old i.issuer_url) ≡ t
      → IsFound (probe authenticate (if t then i ∷ is else is)) i
  unfolding probe add_result is_initialized
  probe-covers i is true e answered = rw answered (ground (arith, eq_refl i.issuer_url))
  probe-covers i is false e answered = ground (arith, e)

  pub first_round : (is : List Issuer) → All (IsFound (probe authenticate (to_probe old is))) is
  unfolding to_probe
  first_round [] = tt
  first_round (i ∷ is) = (
    probe-covers i (to_probe old is) _ refl,
    All-map _ _
        (λ j. probe_if-IsFound (not (is_initialized old i.issuer_url)) i j (to_probe old is)) is
        (first_round is),
  )

module _ (parse_host : Text → Option Text) where
  evaluate_again :
      (current : List PendingIssuer) (h : HealthCheck)
      → evaluate parse_host (current, (evaluate parse_host (current, h)).1)
        ≡ evaluate parse_host (current, h)
  unfolding evaluate become_ready
  evaluate_again current h =
      evaluate_cases parse_host
        (λ x.
          ◌≡◌ {A = Option CheckError × HealthCheck} (evaluate parse_host (current, h)) x
          → ◌≡◌ {A = Option CheckError × HealthCheck} (evaluate parse_host (current, x.1)) x)
        current h (λ e same. same) (λ e x same. same) (λ a b same. refl) refl

  report_change-last_pending :
      (ps : List PendingIssuer) (h : HealthCheck)
      → (report_change parse_host ps h).last_pending ≡ pending_key ps
  unfolding report_change
  report_change-last_pending ps h = reported (pending_key ps == h.last_pending) refl _ refl
    where
      reported :
          (t : Bool)
          → (pending_key ps == h.last_pending) ≡ t
          → (x : HealthCheck) → x.last_pending ≡ pending_key ps
          → (if not t then x else h).last_pending ≡ pending_key ps
      reported true e x f = sym ((eq_iff (pending_key ps) h.last_pending).0 e)
      reported false e x f = f

  report_again :
      (ps : List PendingIssuer) (g : HealthCheck)
      → g.last_pending ≡ pending_key ps
      → report_change parse_host ps g ≡ g
  unfolding report_change
  report_again ps g e = rw ((eq_iff (pending_key ps) g.last_pending).1 (sym e)) refl

  conclude-last_pending :
      (r : Round) (h : HealthCheck)
      → (conclude parse_host r h).1.last_pending
        ≡ pending_key (record_probe_results parse_host r h).0
  unfolding conclude record_probe_results become_ready
  conclude-last_pending r h =
      let (current, marked) = record_probe_results parse_host r h in
      let same : marked.last_pending ≡ pending_key current = report_change-last_pending current _ in
      evaluate_cases parse_host (λ x. x.1.last_pending ≡ pending_key current) current marked
        (λ e. same) (λ e x. same) (λ a b. same)

  record_again :
      (current : List PendingIssuer) (h : HealthCheck)
      → h.last_pending ≡ pending_key current
      → drop_stale h.initialized current ≡ current
      → ◌≡◌ {A = List PendingIssuer × HealthCheck}
          (record_probe_results parse_host (record { newly = []; pending = current }) h)
          (current, h)
  unfolding record_probe_results mark_all
  record_again current h e f = rw f (ap (λ x. (current, x)) (report_again current h e))

  module _ (authenticate : Text → Answer) (h : HealthCheck) where
    first : Round
    first = probe authenticate (to_probe h.initialized h.issuers)

    current : List PendingIssuer
    unfolding first
    current = (record_probe_results parse_host first h).0

    after : HealthCheck
    unfolding first
    after = (conclude parse_host first h).1

    dropped : current ≡ drop_stale after.initialized first.pending
    unfolding current after record_probe_results
    dropped =
        let (issuers, all, serving, urls) = conclude-kept parse_host first h in
        ap (λ u. drop_stale u first.pending) (sym (urls ∙ report_change-initialized parse_host _ _))

    grown :
        (x : Text)
        → is_initialized h.initialized x ≡ true
        → is_initialized after.initialized x ≡ true
    unfolding after
    grown x known = conclude-grows parse_host first h x known

    first-IsTaken : All (IsTaken authenticate h.initialized after.initialized) h.issuers
    unfolding first after
    first-IsTaken =
        let (issuers, all, serving, urls) = conclude-kept parse_host first h in
        let taken : (i : Issuer)
            → IsFound authenticate h.initialized after.initialized first i
            → IsTaken authenticate h.initialized after.initialized i =
          λ i found e.
            rw urls
              (ground (arith, found e, recorded-initialized parse_host first h i.issuer_url)) in
        All-map _ _ taken h.issuers
          (first_round authenticate h.initialized after.initialized h.issuers)

    probe-after :
        probe authenticate (to_probe after.initialized after.issuers)
        ≡ record { newly = []; pending = current }
    unfolding after
    probe-after =
        let (issuers, all, serving, urls) = conclude-kept parse_host first h in
        ap (λ is. probe authenticate (to_probe after.initialized is)) issuers
        ∙ second_round authenticate h.initialized after.initialized grown h.issuers first-IsTaken
        ∙ ap (λ ps. record { newly = []; pending = ps }) (sym dropped)

    settled : drop_stale after.initialized current ≡ current
    settled =
        ap (drop_stale after.initialized) dropped
        ∙ drop_stale_idempotent after.initialized first.pending
        ∙ sym dropped

    serving-after : after.serving ≡ h.serving
    unfolding after
    serving-after = (conclude-kept parse_host first h).2

    conclude-after :
        conclude parse_host (record { newly = []; pending = current }) after
        ≡ conclude parse_host first h
    unfolding conclude after current
    conclude-after =
        ap (evaluate parse_host)
          (record_again current after (conclude-last_pending first h) settled)
        ∙ evaluate_again current (record_probe_results parse_host first h).1

    -- Where the proxy serves, a check is the recording of its round.
    pub check_served :
        (g : HealthCheck)
        → g.serving ≡ true
        → check parse_host authenticate g
          ≡ conclude parse_host (probe authenticate (to_probe g.initialized g.issuers)) g
    unfolding check
    check_served g e = rw e refl

    check_idle :
        (g : HealthCheck)
        → g.serving ≡ false
        → check parse_host authenticate g ≡ (some not_serving, g)
    unfolding check
    check_idle g e = rw e refl

    check-after :
        h.serving ≡ true → check parse_host authenticate after ≡ conclude parse_host first h
    check-after e =
        check_served after (serving-after ∙ e)
        ∙ ap (λ r. conclude parse_host r after) probe-after
        ∙ conclude-after

  -- A second check that is given the same answers says what the first one said and changes nothing:
  -- neither the state nor the gauges, and it leaves no record.
  pub check_again :
      (authenticate : Text → Answer) (h : HealthCheck)
      → check parse_host authenticate (check parse_host authenticate h).1
        ≡ check parse_host authenticate h
  unfolding first after
  check_again authenticate h = elim (Bool-cases h.serving) [
    | inl e ↦
        let once : check parse_host authenticate h ≡ conclude parse_host (first authenticate h) h =
          check_served authenticate h h e in
        ap (λ x. check parse_host authenticate x.1) once ∙ check-after authenticate h e ∙ sym once
    | inr e ↦
        let once : ◌≡◌ {A = Option CheckError × HealthCheck} (check parse_host authenticate h)
            (some not_serving, h) =
          check_idle authenticate h h e in
        ap (λ x. check parse_host authenticate x.1) once
  ]
