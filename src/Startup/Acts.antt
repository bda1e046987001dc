-- ===== src/Startup/Acts.antt =====
-- What the stages of cmd/app/run.go do, and the error that ends them.
use kube_oidc_proxy.Base.{
  ◌||◌, Bool, true, false, Option, none, some, List, [], ◌∷◌, map, any, any-append, All, All-append,
  ◌≡◌, refl, ◌∙◌, arith,
}
use kube_oidc_proxy.Startup.Sequence.{
  Act, metrics_started, port_bound, issuers_configured, config_loaded, probe_started, proxy_running,
  Outcomes, Stage, silent, metrics_stages, token_stages, stages, continue, proceed,
}
use kube_oidc_proxy.Startup.Counts.{
  starts, is_probe, number_of, first_of, errors_of, number_of-append,
}

module _ {E : Type 0} where
  pub proceed-first_of : (ss : List (Stage E)) → (proceed ss).0 ≡ first_of (errors_of ss)
  unfolding proceed continue
  proceed-first_of [] = refl
  proceed-first_of (s ∷ ss) = step s.error (proceed ss) (errors_of ss) (proceed-first_of ss)
    where
      step :
          (o : Option E) (rest : Option E × List (Act E)) (es : List (Option E))
          → rest.0 ≡ first_of es
          → (continue o s.acts rest).0 ≡ first_of (o ∷ es)
      step none rest es h = h
      step (some e) rest es h = refl

  -- The acts of a stage are none of a kind.
  abbrev pub Lack : (Act E → Bool) → Stage E → Type 0
  Lack p s = number_of p s.acts ≡ 0

  continue-number_of :
      (p : Act E → Bool) (o : Option E) (acts : List (Act E)) (rest : Option E × List (Act E))
      → number_of p acts ≡ 0
      → number_of p rest.1 ≡ 0
      → number_of p (continue o acts rest).1 ≡ 0
  unfolding continue
  continue-number_of p none acts rest h k = number_of-append p acts rest.1 ∙ omega (arith, h, k)
  continue-number_of p (some e) acts rest h k = refl

  pub proceed-number_of :
      (p : Act E → Bool) (ss : List (Stage E)) → All (Lack p) ss → number_of p (proceed ss).1 ≡ 0
  unfolding proceed
  proceed-number_of p [] h = refl
  proceed-number_of p (s ∷ ss) (h, hs) =
      continue-number_of p s.error s.acts (proceed ss) h (proceed-number_of p ss hs)

  silent-Lack : (p : Act E → Bool) (es : List (Option E)) → All (Lack p) (map silent es)
  silent-Lack p [] = tt
  silent-Lack p (e ∷ es) = (refl, silent-Lack p es)

  metrics-Lack :
      (p : Act E → Bool) (o : Option (Option E × Option E))
      → p metrics_started ≡ false
      → All (Lack p) (metrics_stages o)
  unfolding metrics_stages
  metrics-Lack p none h = tt
  metrics-Lack p (some (made, started)) h = (refl, (ground (arith, h), tt))

  token-Lack : (p : Act E → Bool) (o : Option (Option E)) → All (Lack p) (token_stages o)
  unfolding token_stages
  token-Lack p none = tt
  token-Lack p (some made) = (refl, tt)

  pub stages-Lack :
      (p : Act E → Bool) (o : Outcomes E)
      → p metrics_started ≡ false
      → p port_bound ≡ false
      → p issuers_configured ≡ false
      → p config_loaded ≡ false
      → p probe_started ≡ false
      → p proxy_running ≡ false
      → All (Lack p) (stages o)
  unfolding stages
  stages-Lack p o m b i c s r =
      All-append (Lack p) (metrics_stages o.metrics) _ (metrics-Lack p o.metrics m) (
        refl,
        (
          refl,
          All-append (Lack p) (token_stages o.token_reviewer) _ (token-Lack p o.token_reviewer) (
            one b,
            (
              refl,
              (
                refl,
                (
                  one i,
                  (
                    one c,
                    All-append (Lack p) (map silent o.fake_jwts) _ (silent-Lack p o.fake_jwts)
                        (one s, (one r, tt)),
                  ),
                ),
              ),
            ),
          ),
        ),
      )
    where
      one : {a : Act E} → p a ≡ false → number_of p (a ∷ []) ≡ 0
      one h = ground (arith, h)

  pub starts_probe : Stage E → Bool
  starts_probe s = any is_probe s.acts

  -- Where no call fails, the act of every stage is there.
  pub proceed-any :
      (ss : List (Stage E))
      → any starts_probe ss ≡ true
      → (proceed ss).0 ≡ none
      → any is_probe (proceed ss).1 ≡ true
  unfolding proceed continue starts_probe
  proceed-any [] h e = absurd (starts h)
  proceed-any (s ∷ ss) h e = step s.error (proceed ss) e (proceed-any ss)
    where
      step :
          (o : Option E) (rest : Option E × List (Act E))
          → (continue o s.acts rest).0 ≡ none
          → (any starts_probe ss ≡ true → rest.0 ≡ none → any is_probe rest.1 ≡ true)
          → any is_probe (continue o s.acts rest).1 ≡ true
      step none rest e f =
          any-append is_probe s.acts rest.1
          ∙ either (any is_probe s.acts) (any starts_probe ss) (any is_probe rest.1) h (λ m. f m e)
        where
          either : (t u v : Bool) → (t || u) ≡ true → (u ≡ true → v ≡ true) → (t || v) ≡ true
          either true u v h f = refl
          either false u v h f = f h
      step (some x) rest e f = absurd (no_error e)
        where
          no_error : {x : E} → some x ≡ none → ⊥
          no_error e = cc

  pub stages-probe : (o : Outcomes E) → any starts_probe (stages o) ≡ true
  unfolding stages starts_probe
  stages-probe o =
      any-append starts_probe (metrics_stages o.metrics) _
      ∙ last (any starts_probe (metrics_stages o.metrics)) _ (
          any-append starts_probe (token_stages o.token_reviewer) _
          ∙ last (any starts_probe (token_stages o.token_reviewer)) _ (
              any-append starts_probe (map silent o.fake_jwts) _
              ∙ last (any starts_probe (map silent o.fake_jwts)) _ refl))
    where
      last : (t u : Bool) → u ≡ true → (t || u) ≡ true
      last t u h = ground (arith, h)
