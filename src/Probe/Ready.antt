-- ===== src/Probe/Ready.antt =====
-- What has happened when the proxy of pkg/probe/probe.go is ready, however its checks interleave.
use kube_oidc_proxy.Base.{
  Text, Option, none, some, List, [], ◌∷◌, Bool, true, false, if◌then◌else◌, ◌≡◌, refl, ◌∙◌, sym,
  subst, arith, All, All-map,
}
use kube_oidc_proxy.Probe.{
  Issuer, HealthCheck, Round, set_serving, conclude, with_metrics, new_server,
}
use kube_oidc_proxy.Probe.Recording.{IsCovered, probe-to_probe-IsCovered}
use kube_oidc_proxy.Probe.Evaluating.{
  IsEarned, conclude-kept, conclude-grows, conclude-gauge, conclude-IsEarned,
}
use kube_oidc_proxy.Probe.Picking.{IsPicked, take_round-IsPicked}
use kube_oidc_proxy.Probe.Rounds.{
  System, Move, serve, begin, finish, take_round, record_round, step, run, start,
}

module _ (issuers : List Issuer) (require_all : Bool) where
  -- A round is under way only while the proxy serves, and it accounts for each issuer.
  abbrev IsAccounted : HealthCheck → Round → Type 0
  IsAccounted h r = (h.serving ≡ true) × All (IsCovered r h.initialized) issuers

  abbrev IsLatched : HealthCheck → Type 0
  IsLatched h = (h.serving ≡ true) × IsEarned issuers require_all h.initialized

  abbrev IsSound : HealthCheck → List Round → Type 0
  IsSound h rounds =
      All (IsAccounted h) rounds
      × (h.ready ≡ true → IsLatched h)
      × (h.ready_gauge ≡ h.ready)
      × (h.issuers ≡ issuers)
      × (h.require_all ≡ require_all)

  module _ (parse_host : Text → Option Text) where
    IsAccounted-conclude :
        (r q : Round) (h : HealthCheck)
        → IsAccounted h q
        → IsAccounted (conclude parse_host r h).1 q
    IsAccounted-conclude r q h (serving, covered) =
        let (same, mode, served, urls) = conclude-kept parse_host r h in
        let kept : (i : Issuer)
            → IsCovered q h.initialized i
            → IsCovered q (conclude parse_host r h).1.initialized i =
          λ i c. ground (arith, c, conclude-grows parse_host r h i.issuer_url) in
        (served ∙ serving, All-map _ _ kept issuers covered)

    conclude-IsSound :
        (r : Round) (h : HealthCheck) (rounds : List Round)
        → IsSound h rounds
        → IsAccounted h r
        → IsSound (conclude parse_host r h).1 rounds
    conclude-IsSound r h rounds (pending, latched, gauge, same, mode) (serving, covered) =
        let (same', mode', served, urls) = conclude-kept parse_host r h in
        let earned : (conclude parse_host r h).1.ready ≡ true
            → IsEarned h.issuers h.require_all (conclude parse_host r h).1.initialized =
          conclude-IsEarned parse_host r h
            (subst (All (IsCovered r h.initialized)) (sym same) covered)
            (λ e. to_own h same mode h.initialized (latched e).1) in
        (
          All-map _ _ (λ q. IsAccounted-conclude r q h) rounds pending,
          λ now. (served ∙ serving, from_own h same mode _ (earned now)),
          conclude-gauge parse_host r h gauge,
          same' ∙ same,
          mode' ∙ mode,
        )
      where
        to_own :
            (h : HealthCheck)
            → h.issuers ≡ issuers
            → h.require_all ≡ require_all
            → (urls : List Text) → IsEarned issuers require_all urls
            → IsEarned h.issuers h.require_all urls
        to_own h same mode urls e =
            subst (λ is. IsEarned is h.require_all urls) (sym same)
              (subst (λ b. IsEarned issuers b urls) (sym mode) e)

        from_own :
            (h : HealthCheck)
            → h.issuers ≡ issuers
            → h.require_all ≡ require_all
            → (urls : List Text) → IsEarned h.issuers h.require_all urls
            → IsEarned issuers require_all urls
        from_own h same mode urls e =
            subst (λ b. IsEarned issuers b urls) mode
              (subst (λ is. IsEarned is h.require_all urls) same e)

    begun :
        (t : Bool) (r : Round) (s : System)
        → (t ≡ true → IsAccounted s.health r)
        → IsSound s.health s.rounds
        → IsSound
            (if t then record s { rounds = r ∷ s.rounds } else s).health
            (if t then record s { rounds = r ∷ s.rounds } else s).rounds
    begun true r s a (pending, latched, gauge, same, mode) =
        ((a refl, pending), latched, gauge, same, mode)
    begun false r s a h = h

    recorded :
        (s : System) (o : Option (Round × List Round))
        → IsSound s.health s.rounds
        → IsPicked (IsAccounted s.health) o
        → IsSound (record_round parse_host o s).health (record_round parse_host o s).rounds
    unfolding record_round IsPicked
    recorded s none h p = h
    recorded s (some (r, rest)) (pending, latched, gauge, same, mode) (a, q) =
        conclude-IsSound r s.health rest (q, latched, gauge, same, mode) a

    step-IsSound :
        (m : Move) (s : System)
        → IsSound s.health s.rounds
        → IsSound (step parse_host m s).health (step parse_host m s).rounds
    unfolding step set_serving
    step-IsSound serve s (pending, latched, gauge, same, mode) = (
      All-map _ _ (λ r a. (refl, a.1)) s.rounds pending,
      λ e. (refl, (latched e).1),
      gauge,
      same,
      mode,
    )
    step-IsSound (begin authenticate) s (pending, latched, gauge, same, mode) =
        begun s.health.serving _ s
          (λ e. (
            e,
            subst (All (IsCovered _ s.health.initialized)) same
                (probe-to_probe-IsCovered authenticate s.health.initialized s.health.issuers),
          ))
          (pending, latched, gauge, same, mode)
    step-IsSound (finish n) s (pending, latched, gauge, same, mode) =
        recorded s (take_round n s.rounds) (pending, latched, gauge, same, mode)
          (take_round-IsPicked (IsAccounted s.health) n s.rounds pending)

    run-IsSound :
        (ms : List Move) (s : System)
        → IsSound s.health s.rounds
        → IsSound (run parse_host ms s).health (run parse_host ms s).rounds
    unfolding run
    run-IsSound [] s h = h
    run-IsSound (m ∷ ms) s h = run-IsSound ms (step parse_host m s) (step-IsSound m s h)

    start-IsSound :
        IsSound
          (start parse_host issuers require_all).health
          (start parse_host issuers require_all).rounds
    unfolding start with_metrics new_server
    start-IsSound = (tt, (λ e. absurd (not_ready e)), refl, refl, refl)
      where
        not_ready : false ≡ true → ⊥
        not_ready e = cc

    -- However checks overlap, a proxy that is ready is serving, and the authenticators of all its
    -- issuers were found initialized, or of one issuer where one is enough.
    pub run-ready-IsEarned :
        (ms : List Move)
        → (run parse_host ms (start parse_host issuers require_all)).health.ready ≡ true
        → let h = (run parse_host ms (start parse_host issuers require_all)).health in
          (h.serving ≡ true) × IsEarned issuers require_all h.initialized
    run-ready-IsEarned ms ready =
        let (pending, latched, gauge, same, mode) =
          run-IsSound ms (start parse_host issuers require_all) start-IsSound in
        latched ready
