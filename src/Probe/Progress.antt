-- ===== src/Probe/Progress.antt =====
-- How the state of pkg/probe/probe.go moves on: what is latched stays, and a check succeeds once
-- enough authenticators answer.
use kube_oidc_proxy.Base.{
  Text, Bool, true, false, not, ◌&&◌, ◌||◌, Option, none, some, List, [], ◌∷◌, ◌≡◌, refl, ap, ◌∙◌,
  All, All-Member, Member, arith, if◌then◌else◌, is_some, length, ltb, eqb,
}
use kube_oidc_proxy.Probe.{
  Issuer, PendingIssuer, Answer, HealthCheck, CheckError, Round, set_serving, is_initialized,
  to_probe, add_result, probe, holds_back, drop_stale, record_probe_results, become_ready, evaluate,
  conclude, check,
}
use kube_oidc_proxy.Probe.Recording.{record_probe_results-IsSameSetup}
use kube_oidc_proxy.Probe.Repeating.{first_round, check_served}
use kube_oidc_proxy.Probe.Evaluating.{
  conclude-kept, conclude-grows, conclude-verdict, recorded-initialized,
}
use kube_oidc_proxy.Probe.Rounds.{
  System, Move, serve, begin, finish, take_round, record_round, step, run,
}

-- What one state keeps of another.
abbrev pub IsLater : HealthCheck → HealthCheck → Type 0
IsLater g h =
    (h.serving ≡ true → g.serving ≡ true)
    × (h.ready ≡ true → g.ready ≡ true)
    × ((x : Text) → is_initialized h.initialized x ≡ true → is_initialized g.initialized x ≡ true)

module _ (parse_host : Text → Option Text) where
  record_round-IsLater :
      (o : Option (Round × List Round)) (s : System)
      → IsLater (record_round parse_host o s).health s.health
  unfolding record_round
  record_round-IsLater none s = (λ e. e, λ e. e, λ x e. e)
  record_round-IsLater (some (r, rest)) s = (
    λ e. (conclude-kept parse_host r s.health).2 ∙ e,
    (conclude-verdict parse_host r s.health).1,
    conclude-grows parse_host r s.health,
  )

  begun-IsLater :
      (t : Bool) (r : Round) (s : System)
      → IsLater (if t then record s { rounds = r ∷ s.rounds } else s).health s.health
  begun-IsLater true r s = (λ e. e, λ e. e, λ x e. e)
  begun-IsLater false r s = (λ e. e, λ e. e, λ x e. e)

  step-IsLater : (m : Move) (s : System) → IsLater (step parse_host m s).health s.health
  unfolding step set_serving
  step-IsLater serve s = (λ e. refl, λ e. e, λ x e. e)
  step-IsLater (begin authenticate) s = begun-IsLater s.health.serving _ s
  step-IsLater (finish n) s = record_round-IsLater (take_round n s.rounds) s

  -- However checks overlap, a proxy that serves goes on serving, one that is ready stays ready, and
  -- an issuer that was found initialized stays so.
  pub run-IsLater : (ms : List Move) (s : System) → IsLater (run parse_host ms s).health s.health
  unfolding run
  run-IsLater [] s = (λ e. e, λ e. e, λ x e. e)
  run-IsLater (m ∷ ms) s =
      let (served, latched, grown) = step-IsLater m s in
      let (served', latched', grown') = run-IsLater ms (step parse_host m s) in
      (λ e. served' (served e), λ e. latched' (latched e), λ x e. grown' x (grown x e))

  module _ (authenticate : Text → Answer) (h : HealthCheck) where
    -- An issuer that was found initialized before, or whose authenticator answers now.
    abbrev pub Answers : Issuer → Type 0
    Answers i =
        (is_initialized h.initialized i.issuer_url
          || not (is_some (holds_back (authenticate i.fake_jwt).error)))
        ≡ true

    abbrev pub IsEnough : Bool → Type 0
    IsEnough true = All Answers h.issuers
    IsEnough false = (i : Issuer) × Member i h.issuers × Answers i

    evaluate-none :
        (current : List PendingIssuer) (g : HealthCheck)
        → (g.require_all && ltb 0 (length current)) ≡ false
        → (not g.require_all && eqb (length g.initialized) 0) ≡ false
        → (evaluate parse_host (current, g)).0 ≡ none
    unfolding evaluate
    evaluate-none current g a b = rw a (rw b (latched g.ready))
      where
        latched :
            (t : Bool)
            → (if◌then◌else◌ {A = Option CheckError × HealthCheck} t
                (none, g)
                (none, become_ready parse_host g)).0
              ≡ none
        latched true = refl
        latched false = refl

    answered-pending :
        (is : List Issuer)
        → All Answers is
        → (probe authenticate (to_probe h.initialized is)).pending ≡ []
    unfolding to_probe probe add_result
    answered-pending [] a = refl
    answered-pending (i ∷ is) (answers, a) =
        step (is_initialized h.initialized i.issuer_url)
          (holds_back (authenticate i.fake_jwt).error) refl answers (to_probe h.initialized is)
          (answered-pending is a)
      where
        step :
            (t : Bool) (held : Option Text)
            → holds_back (authenticate i.fake_jwt).error ≡ held
            → (t || not (is_some held)) ≡ true
            → (js : List Issuer) → (probe authenticate js).pending ≡ []
            → (probe authenticate (if not t then i ∷ js else js)).pending ≡ []
        step true held e answers js same = same
        step false none e answers js same = rw e same
        step false (some reason) e answers js same = absurd (not_true answers)
          where
            not_true : false ≡ true → ⊥
            not_true e = cc

    round : Round
    round = probe authenticate (to_probe h.initialized h.issuers)

    recorded : List PendingIssuer × HealthCheck
    unfolding round
    recorded = record_probe_results parse_host round h

    none_pending : All Answers h.issuers → ltb 0 (length recorded.0) ≡ false
    unfolding recorded round record_probe_results drop_stale
    none_pending a = rw (answered-pending h.issuers a) refl

    some_initialized :
        (i : Issuer)
        → Member i h.issuers
        → Answers i
        → eqb (length recorded.1.initialized) 0 ≡ false
    unfolding recorded round is_initialized
    some_initialized i m answers = not_empty recorded.1.initialized i.issuer_url (
        recorded-initialized parse_host round h i.issuer_url
        ∙ found _ _ (holds_back (authenticate i.fake_jwt).error) answers
            (All-Member _ i h.issuers (first_round authenticate h.initialized [] h.issuers) m))
      where
        found :
            (t u : Bool) (o : Option Text)
            → (t || not (is_some o)) ≡ true
            → (o ≡ none → (t || u) ≡ true)
            → (u || t) ≡ true
        found true u o a f = ground arith
        found false u none a f = ground (arith, f refl)
        found false u (some reason) a f = ground (arith, a)

        not_empty :
            (urls : List Text) (url : Text)
            → is_initialized urls url ≡ true
            → eqb (length urls) 0 ≡ false
        not_empty [] url e = ap not e
        not_empty (u ∷ us) url e = ground arith

    first_false : (s t : Bool) → s ≡ false → (s && t) ≡ false
    first_false s t e = ground (arith, e)

    second_false : (s t : Bool) → t ≡ false → (s && t) ≡ false
    second_false s t e = ground (arith, e)

    concluded-none :
        (mode : Bool)
        → h.require_all ≡ mode
        → IsEnough mode
        → (conclude parse_host round h).0 ≡ none
    unfolding conclude recorded
    concluded-none mode e enough =
        evaluate-none recorded.0 recorded.1 (required mode e enough) (one mode e enough)
      where
        same : recorded.1.require_all ≡ h.require_all
        same = (record_probe_results-IsSameSetup parse_host round h).1

        required :
            (mode : Bool)
            → h.require_all ≡ mode
            → IsEnough mode
            → (recorded.1.require_all && ltb 0 (length recorded.0)) ≡ false
        required true e a = second_false _ _ (none_pending a)
        required false e a = first_false _ _ (same ∙ e)

        one :
            (mode : Bool)
            → h.require_all ≡ mode
            → IsEnough mode
            → (not recorded.1.require_all && eqb (length recorded.1.initialized) 0) ≡ false
        one true e a = first_false _ _ (ap not (same ∙ e))
        one false e (i, m, a) = second_false _ _ (some_initialized i m a)

    -- A check on a proxy that serves succeeds, and the proxy is ready from then on, once every issuer
    -- was found initialized before or answers now, or some issuer where one is enough.
    pub check-none :
        h.serving ≡ true
        → IsEnough h.require_all
        → ((check parse_host authenticate h).0 ≡ none)
          × ((check parse_host authenticate h).1.ready ≡ true)
    unfolding round
    check-none serving enough =
        let (verdict, latched) = conclude-verdict parse_host round h in
        let nil : (conclude parse_host round h).0 ≡ none =
          concluded-none h.require_all refl enough in
        rw (check_served parse_host authenticate h h serving) (nil, latch _ _ nil verdict)
      where
        latch : (o : Option CheckError) (t : Bool) → o ≡ none → is_some o ≡ not t → t ≡ true
        latch o true e f = refl
        latch o false e f = ground (arith, ap is_some e, f)
