-- ===== src/Probe/Recording.antt =====
-- The issuers that a round leaves initialized and pending, in pkg/probe/probe.go.
use kube_oidc_proxy.Base.{
  Text, Bool, true, false, not, ◌&&◌, ◌||◌, Option, none, some, List, [], ◌∷◌, ◌≡◌, refl, ap, sym,
  ◌∙◌, any, All, All-map, arith, if◌then◌else◌, ◌==◌, eq_iff, eq_refl,
}
use kube_oidc_proxy.Probe.{
  Issuer, PendingIssuer, Answer, HealthCheck, Round, is_initialized, to_probe, add_result, probe,
  drop_stale, pending_key, mark, mark_all, report_change, record_probe_results,
}

abbrev pub is_awaited : List PendingIssuer → Text → Bool
is_awaited ps url = any (λ p. p.issuer_url == url) ps

-- The fields that the recording of a round does not write.
abbrev pub IsSameSetup : HealthCheck → HealthCheck → Type 0
IsSameSetup g h =
    (g.issuers ≡ h.issuers)
    × (g.require_all ≡ h.require_all)
    × (g.serving ≡ h.serving)
    × (g.ready ≡ h.ready)
    × (g.ready_gauge ≡ h.ready_gauge)

pub either_way {κ} :
    (P : HealthCheck → Type κ) (t : Bool) (x y : HealthCheck) → P x → P y → P (if t then x else y)
either_way P true x y p q = p
either_way P false x y p q = q

pub is_initialized_cons :
    (x url : Text) (urls : List Text)
    → is_initialized (url ∷ urls) x ≡ (url == x || is_initialized urls x)
unfolding is_initialized
is_initialized_cons x url urls = refl

is_initialized_of_eq :
    (x url : Text) (urls : List Text)
    → (url == x) ≡ true
    → is_initialized urls x ≡ is_initialized urls url
is_initialized_of_eq x url urls e = ap (is_initialized urls) (sym ((eq_iff url x).0 e))

module _ (parse_host : Text → Option Text) where
  mark-IsSameSetup : (url : Text) (h : HealthCheck) → IsSameSetup (mark parse_host url h) h
  unfolding mark
  mark-IsSameSetup url h =
      either_way (λ x. IsSameSetup x h) (is_initialized h.initialized url) _ _
        (refl, refl, refl, refl, refl) (refl, refl, refl, refl, refl)

  mark_all-IsSameSetup :
      (urls : List Text) (h : HealthCheck) → IsSameSetup (mark_all parse_host urls h) h
  unfolding mark_all
  mark_all-IsSameSetup [] h = (refl, refl, refl, refl, refl)
  mark_all-IsSameSetup (url ∷ urls) h =
      let (a, b, c, d, e) = mark-IsSameSetup url h in
      let (a', b', c', d', e') = mark_all-IsSameSetup urls (mark parse_host url h) in
      (a' ∙ a, b' ∙ b, c' ∙ c, d' ∙ d, e' ∙ e)

  report_change-IsSameSetup :
      (ps : List PendingIssuer) (h : HealthCheck) → IsSameSetup (report_change parse_host ps h) h
  unfolding report_change
  report_change-IsSameSetup ps h =
      either_way (λ x. IsSameSetup x h) (not (pending_key ps == h.last_pending)) _ _
        (refl, refl, refl, refl, refl) (refl, refl, refl, refl, refl)

  pub report_change-initialized :
      (ps : List PendingIssuer) (h : HealthCheck)
      → (report_change parse_host ps h).initialized ≡ h.initialized
  unfolding report_change
  report_change-initialized ps h =
      either_way (λ x. x.initialized ≡ h.initialized) (not (pending_key ps == h.last_pending)) _ _
        refl refl

  pub record_probe_results-IsSameSetup :
      (r : Round) (h : HealthCheck) → IsSameSetup (record_probe_results parse_host r h).1 h
  unfolding record_probe_results
  record_probe_results-IsSameSetup r h =
      let marked = mark_all parse_host r.newly h in
      let (a, b, c, d, e) = mark_all-IsSameSetup r.newly h in
      let (a', b', c', d', e') =
        report_change-IsSameSetup (drop_stale marked.initialized r.pending) marked in
      (a' ∙ a, b' ∙ b, c' ∙ c, d' ∙ d, e' ∙ e)

  pub mark-initialized :
      (url : Text) (h : HealthCheck)
      → (mark parse_host url h).initialized
        ≡ (if is_initialized h.initialized url then h.initialized else url ∷ h.initialized)
  unfolding mark
  mark-initialized url h = initialized_if (is_initialized h.initialized url) _ _
    where
      initialized_if :
          (t : Bool) (x y : HealthCheck)
          → (if t then x else y).initialized ≡ (if t then x.initialized else y.initialized)
      initialized_if true x y = refl
      initialized_if false x y = refl

  is_initialized-mark :
      (x url : Text) (h : HealthCheck)
      → is_initialized (mark parse_host url h).initialized x
        ≡ (url == x || is_initialized h.initialized x)
  is_initialized-mark x url h = rw (mark-initialized url h) (known x url h.initialized)
    where
      known :
          (x url : Text) (urls : List Text)
          → is_initialized (if is_initialized urls url then urls else url ∷ urls) x
            ≡ (url == x || is_initialized urls x)
      known x url urls =
          ground
            (arith, is_initialized_cons x url urls, is_initialized_of_eq x url urls, eq_iff url x)

  pub is_initialized-mark_all :
      (x : Text) (urls : List Text) (h : HealthCheck)
      → is_initialized (mark_all parse_host urls h).initialized x
        ≡ (is_initialized urls x || is_initialized h.initialized x)
  unfolding mark_all is_initialized
  is_initialized-mark_all x [] h = refl
  is_initialized-mark_all x (url ∷ urls) h =
      ground
        (arith, is_initialized-mark_all x urls (mark parse_host url h), is_initialized-mark x url h)

pub is_awaited-drop_stale :
    (x : Text) (urls : List Text) (ps : List PendingIssuer)
    → is_awaited (drop_stale urls ps) x ≡ (is_awaited ps x && not (is_initialized urls x))
unfolding drop_stale
is_awaited-drop_stale x urls [] = refl
is_awaited-drop_stale x urls (p ∷ ps) = ground (
  arith,
  is_awaited-drop_stale x urls ps,
  is_initialized_of_eq x p.issuer_url urls,
  eq_iff p.issuer_url x,
)

-- Each issuer of a list is initialized, or stands in one of the two lists of the round.
abbrev pub IsCovered : Round → List Text → Issuer → Type 0
IsCovered r urls i =
    (is_initialized urls i.issuer_url
      || (is_initialized r.newly i.issuer_url || is_awaited r.pending i.issuer_url))
    ≡ true

add_result-IsCovered :
    (urls : List Text) (i j : Issuer) (held : Option Text) (r : Round)
    → IsCovered r urls j
    → IsCovered (add_result i held r) urls j
unfolding add_result is_initialized
add_result-IsCovered urls i j none r h = ground (arith, h)
add_result-IsCovered urls i j (some reason) r h = ground (arith, h)

add_result-covers :
    (urls : List Text) (i : Issuer) (held : Option Text) (r : Round)
    → IsCovered (add_result i held r) urls i
unfolding add_result is_initialized
add_result-covers urls i none r = ground (arith, eq_refl i.issuer_url)
add_result-covers urls i (some reason) r = ground (arith, eq_refl i.issuer_url)

module _ (authenticate : Text → Answer) (urls : List Text) where
  add_result_if-IsCovered :
      (t : Bool) (i j : Issuer) (is : List Issuer)
      → IsCovered (probe authenticate is) urls j
      → IsCovered (probe authenticate (if t then i ∷ is else is)) urls j
  unfolding probe
  add_result_if-IsCovered true i j is h = add_result-IsCovered urls i j _ _ h
  add_result_if-IsCovered false i j is h = h

  covers_if :
      (i : Issuer) (is : List Issuer) (t : Bool)
      → not (is_initialized urls i.issuer_url) ≡ t
      → IsCovered (probe authenticate (if t then i ∷ is else is)) urls i
  unfolding probe
  covers_if i is true e = add_result-covers urls i _ _
  covers_if i is false e = ground (arith, e)

  pub probe-to_probe-IsCovered :
      (is : List Issuer) → All (IsCovered (probe authenticate (to_probe urls is)) urls) is
  unfolding to_probe
  probe-to_probe-IsCovered [] = tt
  probe-to_probe-IsCovered (i ∷ is) = (
    covers_if i (to_probe urls is) _ refl,
    All-map _ _
        (λ j.
          add_result_if-IsCovered (not (is_initialized urls i.issuer_url)) i j (to_probe urls is))
        is (probe-to_probe-IsCovered is),
  )
