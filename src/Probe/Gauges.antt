-- ===== src/Probe/Gauges.antt =====
-- The gauges of the issuers in pkg/probe/probe.go, one for each name.
use kube_oidc_proxy.Base.{
  Text, Bool, true, false, not, ◌||◌, Option, none, some, List, [], ◌∷◌, ◌≡◌, refl, ap, ◌∙◌, sym,
  subst, inl, inr, All, All_of_Member, Member, arith, if◌then◌else◌, ◌==◌, eq_iff, eq_refl, any,
  lookup, insert, lookup-insert,
}
use kube_oidc_proxy.Probe.Names.{issuer_name}
use kube_oidc_proxy.Probe.{
  Issuer, HealthCheck, Round, set_serving, is_initialized, pending_key, mark_all, mark,
  report_change, record_probe_results, become_ready, conclude, seed_gauges, with_metrics,
  new_server,
}
use kube_oidc_proxy.Probe.Recording.{either_way, is_initialized_cons}
use kube_oidc_proxy.Probe.Evaluating.{evaluate_cases}
use kube_oidc_proxy.Probe.Picking.{IsPicked, take_round-IsPicked}
use kube_oidc_proxy.Probe.Answered.{Vouched, Allows, step-Vouched, step-issuers}
use kube_oidc_proxy.Probe.Rounds.{
  System, Move, serve, begin, finish, take_round, record_round, step, run, start,
}

not_true : false ≡ true → ⊥
not_true e = cc

module _ (parse_host : Text → Option Text) (issuers : List Issuer) where
  -- No two issuers share a name.
  abbrev pub HaveOwnNames : Type 0
  HaveOwnNames =
      (i j : Issuer)
      → Member i issuers
      → Member j issuers
      → issuer_name parse_host i.issuer_url ≡ issuer_name parse_host j.issuer_url
      → i.issuer_url ≡ j.issuer_url

  abbrev IsConfigured : Text → Type 0
  IsConfigured url = (i : Issuer) × Member i issuers × (i.issuer_url ≡ url)

  -- The gauge of each issuer says whether it is initialized.
  abbrev pub AreShown : List Text → List (Text × Bool) → Type 0
  AreShown urls gauges =
      (i : Issuer)
      → Member i issuers
      → lookup (issuer_name parse_host i.issuer_url) gauges
        ≡ some (is_initialized urls i.issuer_url)

  module _ (names : HaveOwnNames) where
    insert-AreShown :
        (url : Text) (urls : List Text) (gauges : List (Text × Bool))
        → IsConfigured url
        → AreShown urls gauges
        → AreShown (url ∷ urls) (insert (issuer_name parse_host url) true gauges)
    insert-AreShown url urls gauges (j, at, e) shown i in_list =
        let key : Text = issuer_name parse_host i.issuer_url in
        lookup-insert key (issuer_name parse_host url) true gauges
        ∙ settled (issuer_name parse_host url == key) (url == i.issuer_url)
            (λ same. (eq_iff url i.issuer_url).1 (
              sym e ∙ names j i at in_list (ap (issuer_name parse_host) e ∙ (eq_iff _ key).0 same)))
            (λ same.
              (eq_iff (issuer_name parse_host url) key).1
                (ap (issuer_name parse_host) ((eq_iff url i.issuer_url).0 same)))
            (lookup key gauges) (is_initialized urls i.issuer_url) (shown i in_list)
        ∙ ap some (sym (is_initialized_cons i.issuer_url url urls))
      where
        settled :
            (t u : Bool)
            → (t ≡ true → u ≡ true)
            → (u ≡ true → t ≡ true)
            → (old : Option Bool) (known : Bool) → old ≡ some known
            → (if t then some true else old) ≡ some (u || known)
        settled true u f g old known h = ap (λ b. some (b || known)) (sym (f refl))
        settled false true f g old known h = absurd (not_true (g refl))
        settled false false f g old known h = h

    mark-AreShown :
        (url : Text) (h : HealthCheck)
        → IsConfigured url
        → AreShown h.initialized h.issuer_gauges
        → AreShown (mark parse_host url h).initialized (mark parse_host url h).issuer_gauges
    unfolding mark
    mark-AreShown url h c shown =
        either_way (λ x. AreShown x.initialized x.issuer_gauges) (is_initialized h.initialized url)
          _ _ shown (insert-AreShown url h.initialized h.issuer_gauges c shown)

    mark_all-AreShown :
        (urls : List Text) (h : HealthCheck)
        → All IsConfigured urls
        → AreShown h.initialized h.issuer_gauges
        → AreShown
            (mark_all parse_host urls h).initialized
            (mark_all parse_host urls h).issuer_gauges
    unfolding mark_all
    mark_all-AreShown [] h c shown = shown
    mark_all-AreShown (url ∷ urls) h (c, cs) shown =
        mark_all-AreShown urls (mark parse_host url h) cs (mark-AreShown url h c shown)

    conclude-AreShown :
        (r : Round) (h : HealthCheck)
        → All IsConfigured r.newly
        → AreShown h.initialized h.issuer_gauges
        → AreShown (conclude parse_host r h).1.initialized (conclude parse_host r h).1.issuer_gauges
    unfolding conclude become_ready record_probe_results report_change
    conclude-AreShown r h c shown =
        let (current, changed) = record_probe_results parse_host r h in
        let marked = mark_all parse_host r.newly h in
        let kept : AreShown changed.initialized changed.issuer_gauges =
          either_way (λ x. AreShown x.initialized x.issuer_gauges)
            (not (pending_key current == marked.last_pending)) _ _
            (mark_all-AreShown r.newly h c shown) (mark_all-AreShown r.newly h c shown) in
        evaluate_cases parse_host (λ x. AreShown x.1.initialized x.1.issuer_gauges) current changed
          (λ e. kept) (λ e x. kept) (λ a b. kept)

    begun-AreShown :
        (t : Bool) (rs : List Round) (s : System)
        → AreShown s.health.initialized s.health.issuer_gauges
        → let h = (if t then record s { rounds = rs } else s).health in
          AreShown h.initialized h.issuer_gauges
    begun-AreShown true rs s shown = shown
    begun-AreShown false rs s shown = shown

    recorded-AreShown :
        (o : Option (Round × List Round)) (s : System)
        → IsPicked (λ r. All IsConfigured r.newly) o
        → AreShown s.health.initialized s.health.issuer_gauges
        → let h = (record_round parse_host o s).health in AreShown h.initialized h.issuer_gauges
    unfolding record_round IsPicked
    recorded-AreShown none s p shown = shown
    recorded-AreShown (some (r, rest)) s (p, q) shown = conclude-AreShown r s.health p shown

    step-AreShown :
        (m : Move) (s : System)
        → All (λ r. All IsConfigured r.newly) s.rounds
        → AreShown s.health.initialized s.health.issuer_gauges
        → let h = (step parse_host m s).health in AreShown h.initialized h.issuer_gauges
    unfolding step set_serving
    step-AreShown serve s c shown = shown
    step-AreShown (begin authenticate) s c shown = begun-AreShown s.health.serving _ s shown
    step-AreShown (finish n) s c shown =
        recorded-AreShown (take_round n s.rounds) s
          (take_round-IsPicked (λ r. All IsConfigured r.newly) n s.rounds c) shown

    step-Allows : (m : Move) → Allows IsConfigured issuers m
    unfolding Allows
    step-Allows serve = tt
    step-Allows (finish n) = tt
    step-Allows (begin authenticate) = All_of_Member _ issuers (λ i at e. (i, at, refl))

    run-AreShown :
        (ms : List Move) (s : System)
        → s.health.issuers ≡ issuers
        → Vouched IsConfigured s.health s.rounds
        → AreShown s.health.initialized s.health.issuer_gauges
        → let h = (run parse_host ms s).health in AreShown h.initialized h.issuer_gauges
    unfolding run
    run-AreShown [] s same (a, b) shown = shown
    run-AreShown (m ∷ ms) s same (a, b) shown =
        run-AreShown ms (step parse_host m s) (step-issuers parse_host m s ∙ same)
          (step-Vouched IsConfigured parse_host m s
            (subst (λ is. Allows IsConfigured is m) (sym same) (step-Allows m)) (a, b))
          (step-AreShown m s b shown)

  lookup-seed_gauges :
      (key : Text) (is : List Issuer) (gauges : List (Text × Bool))
      → lookup key (seed_gauges parse_host is gauges) ≡ (
          if any (λ i. issuer_name parse_host i.issuer_url == key) is
          then some false
          else lookup key gauges)
  unfolding seed_gauges
  lookup-seed_gauges key [] gauges = refl
  lookup-seed_gauges key (i ∷ is) gauges =
      let name : Text = issuer_name parse_host i.issuer_url in
      lookup-seed_gauges key is (insert name false gauges)
      ∙ ap (λ o. if any (λ i. issuer_name parse_host i.issuer_url == key) is then some false else o)
          (lookup-insert key name false gauges)
      ∙ swapped (name == key) _ (lookup key gauges)
    where
      swapped :
          (t u : Bool) (o : Option Bool)
          → (if u then some false else (if t then some false else o))
            ≡ (if t || u then some false else o)
      swapped true true o = refl
      swapped true false o = refl
      swapped false u o = refl

  any_of_Member :
      (p : Issuer → Bool) (i : Issuer) (is : List Issuer)
      → Member i is
      → p i ≡ true
      → any p is ≡ true
  any_of_Member p i [] m e = absurd m
  any_of_Member p i (j ∷ is) (inl same) e = ground (arith, ap p same, e)
  any_of_Member p i (j ∷ is) (inr m) e = ground (arith, any_of_Member p i is m e)

  -- Where the issuers have different names, the gauge of each says whether it is initialized, from
  -- the start and however checks overlap.
  pub run-start-AreShown :
      (require_all : Bool) (ms : List Move)
      → HaveOwnNames
      → let h = (run parse_host ms (start parse_host issuers require_all)).health in
        AreShown h.initialized h.issuer_gauges
  unfolding start with_metrics new_server is_initialized lookup
  run-start-AreShown require_all ms names =
      run-AreShown names ms (start parse_host issuers require_all) refl (tt, tt)
        (λ i at.
          lookup-seed_gauges (issuer_name parse_host i.issuer_url) issuers []
          ∙ ap (λ t. if t then some false else none)
              (any_of_Member _ i issuers at (eq_refl (issuer_name parse_host i.issuer_url))))
