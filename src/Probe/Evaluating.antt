-- ===== src/Probe/Evaluating.antt =====
-- The verdict of a check once its round is recorded, in pkg/probe/probe.go.
use kube_oidc_proxy.Base.{
  Text, Bool, true, false, not, ◌&&◌, ◌||◌, Option, none, some, List, [], ◌∷◌, ◌≡◌, refl, ap, ◌∙◌,
  sym, All, All-map, arith, if◌then◌else◌, is_some, length, ltb, eqb, eq_refl,
}
use kube_oidc_proxy.Probe.{
  Issuer, PendingIssuer, HealthCheck, CheckError, Round, all_required, one_required, is_initialized,
  drop_stale, mark_all, record_probe_results, become_ready, evaluate, conclude,
}
use kube_oidc_proxy.Probe.Recording.{
  is_awaited, is_initialized_cons, is_awaited-drop_stale, is_initialized-mark_all,
  report_change-initialized, record_probe_results-IsSameSetup, IsCovered,
}

by_test {κ} : (P : Type κ) (t : Bool) → (t ≡ true → P) → (t ≡ false → P) → P
by_test P true p q = p refl
by_test P false p q = q refl

module _ {κ} (parse_host : Text → Option Text) (P : Option CheckError × HealthCheck → Type κ) where
  pub evaluate_cases :
      (current : List PendingIssuer) (h : HealthCheck)
      → (h.ready ≡ true → P (none, h))
      → (h.ready ≡ false → (e : CheckError) → P (some e, h))
      → ((h.require_all && ltb 0 (length current)) ≡ false
          → (not h.require_all && eqb (length h.initialized) 0) ≡ false
          → P (none, become_ready parse_host h))
      → P (evaluate parse_host (current, h))
  unfolding evaluate
  evaluate_cases current h ready failed won = step h.ready refl _ refl _ refl
    where
      step :
          (t : Bool)
          → h.ready ≡ t
          → (a : Bool) → (h.require_all && ltb 0 (length current)) ≡ a
          → (b : Bool) → (not h.require_all && eqb (length h.initialized) 0) ≡ b
          → P (
              if t
              then (none, h)
              else (if a
                  then (some all_required, h)
                  else (if b then (some one_required, h) else (none, become_ready parse_host h))))
      step true e a ea b eb = ready e
      step false e true ea b eb = failed e all_required
      step false e false ea true eb = failed e one_required
      step false e false ea false eb = won ea eb

-- What readiness is earned with.
abbrev pub IsEarned : List Issuer → Bool → List Text → Type 0
IsEarned issuers true urls = All (λ i. is_initialized urls i.issuer_url ≡ true) issuers
IsEarned issuers false urls = (url : Text) × (is_initialized urls url ≡ true)

covered-IsInitialized :
    (urls : List Text) (current : List PendingIssuer) (i : Issuer)
    → current ≡ []
    → (is_initialized urls i.issuer_url || is_awaited current i.issuer_url) ≡ true
    → is_initialized urls i.issuer_url ≡ true
covered-IsInitialized urls current i e h =
    let no : is_awaited current i.issuer_url ≡ false = ap (λ c. is_awaited c i.issuer_url) e in
    ground (arith, h, no)

evaluated-IsEarned :
    (issuers : List Issuer) (require_all : Bool) (urls : List Text) (current : List PendingIssuer)
    → All
        (λ i. (is_initialized urls i.issuer_url || is_awaited current i.issuer_url) ≡ true)
        issuers
    → (require_all && ltb 0 (length current)) ≡ false
    → (not require_all && eqb (length urls) 0) ≡ false
    → IsEarned issuers require_all urls
evaluated-IsEarned issuers true urls [] h a b =
    All-map _ _ (λ i. covered-IsInitialized urls [] i refl) issuers h
evaluated-IsEarned issuers true urls (p ∷ ps) h a b = ground (arith, a)
evaluated-IsEarned issuers false [] current h a b = ground (arith, b)
evaluated-IsEarned issuers false (url ∷ urls) current h a b = (url, found url urls)
  where
    found : (url : Text) (urls : List Text) → is_initialized (url ∷ urls) url ≡ true
    found url urls = ground (arith, is_initialized_cons url url urls, eq_refl url)

grown-IsEarned :
    (issuers : List Issuer) (require_all : Bool) (urls more : List Text)
    → ((x : Text) → is_initialized urls x ≡ true → is_initialized more x ≡ true)
    → IsEarned issuers require_all urls
    → IsEarned issuers require_all more
grown-IsEarned issuers true urls more grow h = All-map _ _ (λ i. grow i.issuer_url) issuers h
grown-IsEarned issuers false urls more grow (url, h) = (url, grow url h)

module _ (parse_host : Text → Option Text) (r : Round) (h : HealthCheck) where
  pub recorded-initialized :
      (x : Text)
      → is_initialized (record_probe_results parse_host r h).1.initialized x
        ≡ (is_initialized r.newly x || is_initialized h.initialized x)
  unfolding record_probe_results
  recorded-initialized x =
      ap (λ urls. is_initialized urls x) (report_change-initialized parse_host _ _)
      ∙ is_initialized-mark_all parse_host x r.newly h

  recorded-covered :
      (i : Issuer)
      → IsCovered r h.initialized i
      → let (current, marked) = record_probe_results parse_host r h in
        (is_initialized marked.initialized i.issuer_url || is_awaited current i.issuer_url) ≡ true
  unfolding record_probe_results
  recorded-covered i c =
      let marked = mark_all parse_host r.newly h in
      let same =
        report_change-initialized parse_host (drop_stale marked.initialized r.pending) marked in
      rw same (
        ground (
          arith,
          is_awaited-drop_stale i.issuer_url marked.initialized r.pending,
          is_initialized-mark_all parse_host i.issuer_url r.newly h,
          c,
        ))

  pub conclude-kept :
      let h' = (conclude parse_host r h).1 in
      (h'.issuers ≡ h.issuers)
      × (h'.require_all ≡ h.require_all)
      × (h'.serving ≡ h.serving)
      × (h'.initialized ≡ (record_probe_results parse_host r h).1.initialized)
  unfolding conclude become_ready
  conclude-kept =
      let (current, marked) = record_probe_results parse_host r h in
      let (issuers, all, serving, ready, gauge) = record_probe_results-IsSameSetup parse_host r h in
      evaluate_cases parse_host
        (λ x.
          (x.1.issuers ≡ h.issuers)
          × (x.1.require_all ≡ h.require_all)
          × (x.1.serving ≡ h.serving)
          × (x.1.initialized ≡ marked.initialized))
        current marked (λ e. (issuers, all, serving, refl)) (λ e x. (issuers, all, serving, refl))
        (λ a b. (issuers, all, serving, refl))

  pub conclude-grows :
      (x : Text)
      → is_initialized h.initialized x ≡ true
      → is_initialized (conclude parse_host r h).1.initialized x ≡ true
  conclude-grows x known =
      let (issuers, all, serving, urls) = conclude-kept in
      rw urls (rw (recorded-initialized x) (ground (arith, known)))

  -- The verdict is nil exactly when the latch is closed, and a closed latch stays closed.
  pub conclude-verdict :
      let (verdict, h') = conclude parse_host r h in
      (is_some verdict ≡ not h'.ready) × (h.ready ≡ true → h'.ready ≡ true)
  unfolding conclude become_ready
  conclude-verdict =
      let (current, marked) = record_probe_results parse_host r h in
      let (issuers, all, serving, ready, gauge) = record_probe_results-IsSameSetup parse_host r h in
      evaluate_cases parse_host
        (λ x. (is_some x.0 ≡ not x.1.ready) × (h.ready ≡ true → x.1.ready ≡ true)) current marked
        (λ e. (ap not (sym e), λ b. e)) (λ e x. (ap not (sym e), λ b. ready ∙ b))
        (λ a b. (refl, λ c. refl))

  pub conclude-gauge :
      h.ready_gauge ≡ h.ready
      → (conclude parse_host r h).1.ready_gauge ≡ (conclude parse_host r h).1.ready
  unfolding conclude become_ready
  conclude-gauge same =
      let (current, marked) = record_probe_results parse_host r h in
      let (issuers, all, serving, ready, gauge) = record_probe_results-IsSameSetup parse_host r h in
      evaluate_cases parse_host (λ x. x.1.ready_gauge ≡ x.1.ready) current marked
        (λ e. gauge ∙ same ∙ sym ready) (λ e x. gauge ∙ same ∙ sym ready) (λ a b. refl)

  pub conclude-IsEarned :
      All (IsCovered r h.initialized) h.issuers
      → (h.ready ≡ true → IsEarned h.issuers h.require_all h.initialized)
      → (conclude parse_host r h).1.ready ≡ true
      → IsEarned h.issuers h.require_all (conclude parse_host r h).1.initialized
  unfolding conclude become_ready
  conclude-IsEarned covered before =
      let (current, marked) = record_probe_results parse_host r h in
      let (issuers, all, serving, ready, gauge) = record_probe_results-IsSameSetup parse_host r h in
      let grow : (x : Text)
          → is_initialized h.initialized x ≡ true
          → is_initialized marked.initialized x ≡ true =
        λ x known. rw (recorded-initialized x) (ground (arith, known)) in
      evaluate_cases parse_host
        (λ x. x.1.ready ≡ true → IsEarned h.issuers h.require_all x.1.initialized) current marked
        (λ e now.
          grown-IsEarned h.issuers h.require_all h.initialized marked.initialized grow
            (before (sym ready ∙ e)))
        (λ e x now. absurd (not_both _ e now))
        (λ a b now.
          evaluated-IsEarned h.issuers h.require_all marked.initialized current
            (All-map _ _ recorded-covered h.issuers covered) (rw all at a) (rw all at b))
    where
      not_both : (t : Bool) → t ≡ false → t ≡ true → ⊥
      not_both t e f = cc
