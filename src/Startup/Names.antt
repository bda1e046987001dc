-- ===== src/Startup/Names.antt =====
-- The names of the issuers at the start of cmd/app/run.go.
use kube_oidc_proxy.Base.{
  Text, Bool, true, false, Option, none, some, List, [], ◌∷◌, ◌≡◌, refl, ap, ◌∙◌, sym, subst, inl,
  inr, ◌⊎◌, ◌↔◌, Member, if◌then◌else◌, ◌==◌, eq_iff, lookup, insert, lookup-insert, some_inj,
}
use kube_oidc_proxy.Probe.{Issuer}
use kube_oidc_proxy.Probe.Names.{issuer_name}
use kube_oidc_proxy.Probe.Rounds.{Move, run, start}
use kube_oidc_proxy.Probe.Gauges.{AreShown, run-start-AreShown}
use kube_oidc_proxy.Startup.{
  issuer_names, duplicate_after, duplicate_issuer_name, duplicate_or, issuer_probes,
}

abbrev pub AreDistinct : List Text → Type 0
AreDistinct [] = Unit
AreDistinct (x ∷ xs) = (Member x xs → ⊥) × AreDistinct xs

no_text : {s : Text} → ◌≡◌ {A = Option Text} (some s) none → ⊥
no_text e = cc

starts : false ≡ true → ⊥
starts e = cc

no_triple : {d : Text × Text × Text} → ◌≡◌ {A = Option (Text × Text × Text)} (some d) none → ⊥
no_triple e = cc

module _ (parse_host : Text → Option Text) where
  abbrev name_of : Text → Text
  name_of url = issuer_name parse_host url

  -- No name of the list is among those that were seen.
  abbrev AreNew : List (Text × Text) → List Text → Type 0
  AreNew seen [] = Unit
  AreNew seen (url ∷ urls) = (lookup (name_of url) seen ≡ none) × AreNew seen urls

  head_iff :
      (k j url : Text) (seen : List (Text × Text))
      → (lookup j (insert k url seen) ≡ none) ↔ ((lookup j seen ≡ none) × (j ≡ k → ⊥))
  head_iff k j url seen =
      let written : lookup j (insert k url seen) ≡ (if k == j then some url else lookup j seen) =
        lookup-insert j k url seen in
      let (left, right) =
        either (k == j) (lookup j seen) (j ≡ k) (λ e. sym ((eq_iff k j).0 e))
          (λ e. (eq_iff k j).1 (sym e)) in
      (λ h. left (sym written ∙ h), λ h. written ∙ right h)
    where
      either :
          (t : Bool) (o : Option Text) (P : Type 0)
          → (t ≡ true → P)
          → (P → t ≡ true)
          → ((if t then some url else o) ≡ none) ↔ ((o ≡ none) × (P → ⊥))
      either true o P f g = (λ h. absurd (no_text h), λ h. absurd (h.1 (f refl)))
      either false o P f g = (λ h. (h, λ p. starts (g p)), λ h. h.0)

  AreNew-insert :
      (url : Text) (seen : List (Text × Text)) (urls : List Text)
      → AreNew (insert (name_of url) url seen) urls
        ↔ (AreNew seen urls × (Member (name_of url) (issuer_names parse_host urls) → ⊥))
  unfolding issuer_names
  AreNew-insert url seen [] = (λ h. (tt, λ m. m), λ h. tt)
  AreNew-insert url seen (other ∷ urls) =
      let (left, right) = AreNew-insert url seen urls in
      let (apart, back) = head_iff (name_of url) (name_of other) url seen in
      (
        λ h. (
          ((apart h.0).0, (left h.1).0),
          λ m. elim m [ inl e ↦ (apart h.0).1 e | inr m ↦ (left h.1).1 m ],
        ),
        λ h. (back (h.0.0, λ e. h.1 (inl e)), right (h.0.1, λ m. h.1 (inr m))),
      )

  duplicate_or_iff :
      (name url : Text) (o : Option Text) (rest : Option (Text × Text × Text)) (P Q : Type 0)
      → (rest ≡ none) ↔ (P × Q)
      → (duplicate_or name url o rest ≡ none) ↔ (((o ≡ none) × P) × Q)
  unfolding duplicate_or
  duplicate_or_iff name url none rest P Q f =
      (λ h. ((refl, (f.0 h).0), (f.0 h).1), λ h. f.1 (h.0.1, h.1))
  duplicate_or_iff name url (some first) rest P Q f =
      (λ h. absurd (no_triple h), λ h. absurd (no_text h.0.0))

  duplicate_after_iff :
      (seen : List (Text × Text)) (urls : List Text)
      → (duplicate_after parse_host seen urls ≡ none)
        ↔ (AreNew seen urls × AreDistinct (issuer_names parse_host urls))
  unfolding duplicate_after issuer_names
  duplicate_after_iff seen [] = (λ h. (tt, tt), λ h. refl)
  duplicate_after_iff seen (url ∷ urls) =
      let (left, right) = duplicate_after_iff (insert (name_of url) url seen) urls in
      let (apart, back) = AreNew-insert url seen urls in
      let (sound, complete) =
        duplicate_or_iff (name_of url) url (lookup (name_of url) seen)
          (duplicate_after parse_host (insert (name_of url) url seen) urls) (AreNew seen urls)
          (AreDistinct (issuer_names parse_host (url ∷ urls)))
          (
            λ h. ((apart (left h).0).0, ((apart (left h).0).1, (left h).1)),
            λ h. right (back (h.0, h.1.0), h.1.1),
          ) in
      (sound, complete)

  AreNew-nil : (urls : List Text) → AreNew [] urls
  unfolding lookup
  AreNew-nil [] = tt
  AreNew-nil (url ∷ urls) = (refl, AreNew-nil urls)

  -- What is reported: the two URLs are configured, one after the other, and have the name.
  IsCollision : List (Text × Text) → List Text → Text × Text × Text → Type 0
  IsCollision seen urls (name, first, other) =
      (name_of other ≡ name)
      × Member other urls
      × ((lookup name seen ≡ some first) ⊎ ((name_of first ≡ name) × Member first urls))

  duplicate_after-IsCollision :
      (seen : List (Text × Text)) (urls : List Text) (d : Text × Text × Text)
      → duplicate_after parse_host seen urls ≡ some d
      → IsCollision seen urls d
  unfolding duplicate_after IsCollision duplicate_or
  duplicate_after-IsCollision seen [] d e = absurd (nothing e)
    where
      nothing : {d : Text × Text × Text} → ◌≡◌ {A = Option (Text × Text × Text)} none (some d) → ⊥
      nothing e = cc
  duplicate_after-IsCollision seen (url ∷ urls) (name, first, other) e =
      found (lookup (name_of url) seen) refl e
        (duplicate_after-IsCollision (insert (name_of url) url seen) urls (name, first, other))
    where
      later :
          IsCollision (insert (name_of url) url seen) urls (name, first, other)
          → IsCollision seen (url ∷ urls) (name, first, other)
      later (same, listed, inr (own, m)) = (same, inr listed, inr (own, inr m))
      later (same, listed, inl before) = (
        same,
        inr listed,
        written (name_of url == name) (λ t. (eq_iff (name_of url) name).0 t)
            (sym (lookup-insert name (name_of url) url seen) ∙ before),
      )
        where
          written :
              (t : Bool)
              → (t ≡ true → name_of url ≡ name)
              → (if t then some url else lookup name seen) ≡ some first
              → (lookup name seen ≡ some first)
                ⊎ ((name_of first ≡ name) × Member first (url ∷ urls))
          written true f h = inr (ap name_of (sym (some_inj h)) ∙ f refl, inl (some_inj h))
          written false f h = inl h

      found :
          (o : Option Text)
          → lookup (name_of url) seen ≡ o
          → duplicate_or
              (name_of url)
              url
              o
              (duplicate_after parse_host (insert (name_of url) url seen) urls)
            ≡ some (name, first, other)
          → (duplicate_after parse_host (insert (name_of url) url seen) urls
                ≡ some (name, first, other)
              → IsCollision (insert (name_of url) url seen) urls (name, first, other))
          → IsCollision seen (url ∷ urls) (name, first, other)
      found none k h rest = later (rest h)
      found (some f) k h rest =
          let all : ◌≡◌ {A = Text × Text × Text} (name_of url, f, url) (name, first, other) =
            some_inj h in
          (
            sym (ap name_of (ap (λ d. d.2) all)) ∙ ap (λ d. d.0) all,
            inl (ap (λ d. d.2) all),
            inl (sym (ap (λ n. lookup n seen) (ap (λ d. d.0) all)) ∙ k ∙ ap (λ d. some d.1) all),
          )

  duplicate_issuer_name_iff :
      (urls : List Text)
      → (duplicate_issuer_name parse_host urls ≡ none) ↔ AreDistinct (issuer_names parse_host urls)
  unfolding duplicate_issuer_name
  duplicate_issuer_name_iff urls =
      let (left, right) = duplicate_after_iff [] urls in
      (λ h. (left h).1, λ h. right (AreNew-nil urls, h))

  -- The check finds no duplicate exactly where the issuers' names are all different, and what it
  -- reports are two configured URLs with the name that it reports.
  pub duplicate_issuer_name_lem :
      (urls : List Text)
      → ((duplicate_issuer_name parse_host urls ≡ none)
          ↔ AreDistinct (issuer_names parse_host urls))
        × ((name first other : Text)
            → duplicate_issuer_name parse_host urls ≡ some (name, first, other)
            → (name_of first ≡ name)
              × (name_of other ≡ name)
              × Member first urls
              × Member other urls)
  unfolding duplicate_issuer_name IsCollision lookup
  duplicate_issuer_name_lem urls = (
    duplicate_issuer_name_iff urls,
    λ name first other e.
        let (same, listed, before) = duplicate_after-IsCollision [] urls (name, first, other) e in
        elim before [ inl h ↦ absurd (unseen h) | inr (own, m) ↦ (own, same, m, listed) ],
  )
    where
      unseen : {s : Text} → ◌≡◌ {A = Option Text} none (some s) → ⊥
      unseen e = cc

  Member-probe :
      (fake_jwt : Text → Text) (i : Issuer) (urls : List Text)
      → Member i (issuer_probes parse_host fake_jwt urls)
      → Member i.issuer_url urls
  unfolding issuer_probes
  Member-probe fake_jwt i [] m = absurd m
  Member-probe fake_jwt i (url ∷ urls) (inl e) = inl (ap (λ k. k.issuer_url) e)
  Member-probe fake_jwt i (url ∷ urls) (inr m) = inr (Member-probe fake_jwt i urls m)

  Member-name :
      (url : Text) (urls : List Text)
      → Member url urls
      → Member (name_of url) (issuer_names parse_host urls)
  unfolding issuer_names
  Member-name url [] m = absurd m
  Member-name url (other ∷ urls) (inl e) = inl (ap name_of e)
  Member-name url (other ∷ urls) (inr m) = inr (Member-name url urls m)

  same_url :
      (urls : List Text)
      → AreDistinct (issuer_names parse_host urls)
      → (u v : Text) → Member u urls
      → Member v urls
      → name_of u ≡ name_of v
      → u ≡ v
  unfolding issuer_names
  same_url [] d u v m n e = absurd m
  same_url (url ∷ urls) (fresh, d) u v (inl a) (inl b) e = sym a ∙ b
  same_url (url ∷ urls) (fresh, d) u v (inl a) (inr n) e = absurd (
      fresh (
        subst (λ k. Member k (issuer_names parse_host urls)) (sym e ∙ sym (ap name_of a))
          (Member-name v urls n)))
  same_url (url ∷ urls) (fresh, d) u v (inr m) (inl b) e = absurd (
      fresh (
        subst (λ k. Member k (issuer_names parse_host urls)) (e ∙ sym (ap name_of b))
          (Member-name u urls m)))
  same_url (url ∷ urls) (fresh, d) u v (inr m) (inr n) e = same_url urls d u v m n e

  -- With the issuers of a configuration that the start accepts, the gauge of each issuer says whether
  -- it is initialized, from the start and however the checks overlap.
  pub accepted-AreShown :
      (fake_jwt : Text → Text) (urls : List Text) (require_all : Bool) (ms : List Move)
      → duplicate_issuer_name parse_host urls ≡ none
      → let issuers = issuer_probes parse_host fake_jwt urls in
        let h = (run parse_host ms (start parse_host issuers require_all)).health in
        AreShown parse_host issuers h.initialized h.issuer_gauges
  accepted-AreShown fake_jwt urls require_all ms none_twice =
      run-start-AreShown parse_host (issuer_probes parse_host fake_jwt urls) require_all ms
        (λ i j a b e.
          same_url urls ((duplicate_issuer_name_iff urls).0 none_twice) i.issuer_url j.issuer_url
            (Member-probe fake_jwt i urls a) (Member-probe fake_jwt j urls b) e)
