-- ===== src/Sar/Forwarding.antt =====
-- The headers that CheckAuthorizedForImpersonation of pkg/proxy/subjectaccessreview lets go on.
use kube_oidc_proxy.Base.{
  ℕ, Text, Bool, true, false, Option, none, some, List, [], ◌∷◌, ◌≡◌, refl, sym, ◌∙◌, ap, subst,
  is_some, arith, all, any, ltb, eqb, lower, to_lower, insert, if◌then◌else◌, Bool-cases, inl, inr,
}
use kube_oidc_proxy.Header.{Header, canonical, capitalise, upper, is_token, values, add}
use kube_oidc_proxy.Base.Result.{Result, ok, err, ok_inj}
use kube_oidc_proxy.Request.{UserInfo}
use kube_oidc_proxy.Sar.{SarError, Reviewer}
use kube_oidc_proxy.Sar.Live.{Env, State}
use kube_oidc_proxy.Sar.Check.{
  is_impersonation, add_values, without_impersonation, resolved, count_impersonation_header_values,
  check_authorized_for_impersonation,
}

lower-lower : (c : ℕ) → lower (lower c) ≡ lower c
unfolding lower
lower-lower c = ground arith

lower-upper : (c : ℕ) → lower (upper c) ≡ lower c
unfolding lower upper
lower-upper c = ground arith

to_lower-capitalise : (first : Bool) (s : Text) → to_lower (capitalise first s) ≡ to_lower s
unfolding to_lower capitalise
to_lower-capitalise first [] = refl
to_lower-capitalise true (c ∷ s) = rw (lower-upper c, to_lower-capitalise (eqb c b'-') s) refl
to_lower-capitalise false (c ∷ s) = rw (lower-lower c, to_lower-capitalise (eqb c b'-') s) refl

-- A canonical key differs from the key in case alone.
to_lower-canonical : (k : Text) → to_lower (canonical k) ≡ to_lower k
unfolding canonical
to_lower-canonical k = elim (Bool-cases (all is_token k)) [
  | inl valid ↦ rw valid (to_lower-capitalise true k)
  | inr other ↦ rw other refl
]

is_impersonation-canonical : (k : Text) → is_impersonation (canonical k) ≡ is_impersonation k
unfolding is_impersonation
is_impersonation-canonical k = rw (to_lower-canonical k) refl

abbrev pub has_impersonation : Header → Bool
has_impersonation = any (λ entry. is_impersonation entry.0)

has_impersonation-insert :
    (k : Text) (vs : List Text) (h : Header)
    → is_impersonation k ≡ false
    → has_impersonation h ≡ false
    → has_impersonation (insert k vs h) ≡ false
unfolding insert
has_impersonation-insert k vs [] p q = ground arith
has_impersonation-insert k vs ((j, ws) ∷ h) p q = ground (arith, has_impersonation-insert k vs h)

has_impersonation-add_values :
    (k : Text) (vs : List Text) (h : Header)
    → is_impersonation k ≡ false
    → has_impersonation h ≡ false
    → has_impersonation (add_values h k vs) ≡ false
unfolding add_values add
has_impersonation-add_values k [] h p q = q
has_impersonation-add_values k (v ∷ vs) h p q =
    has_impersonation-add_values k vs _ p
      (has_impersonation-insert (canonical k) _ h (is_impersonation-canonical k ∙ p) q)

without_impersonation_lem :
    (whole new h : Header)
    → has_impersonation new ≡ false
    → has_impersonation (without_impersonation whole new h) ≡ false
unfolding without_impersonation
without_impersonation_lem whole new [] p = p
without_impersonation_lem whole new ((k, vs) ∷ h) p =
    without_impersonation_lem whole
      (if is_impersonation k then new else add_values new k (values whole k)) h
      (kept (is_impersonation k) refl)
  where
    kept :
        (b : Bool)
        → is_impersonation k ≡ b
        → has_impersonation (if b then new else add_values new k (values whole k)) ≡ false
    kept true e = p
    kept false e = has_impersonation-add_values k (values whole k) new e p

module _ {World : Type 0} (env : Env World) (reviewer : Reviewer) (requester : UserInfo) where
  resolved-clean :
      (h : Header) (r : Result SarError UserInfo) (o : Option UserInfo) (h' : Header)
      → resolved env reviewer requester h r ≡ ok (o, h')
      → (has_impersonation h' ≡ false) × (is_some o ≡ has_impersonation h)
  resolved-clean h (err e) o h' z = absurd (err_ok z)
    where
      err_ok : ◌≡◌ {A = Result SarError (Option UserInfo × Header)} (err e) (ok (o, h')) → ⊥
      err_ok z = cc
  resolved-clean h (ok u) o h' z = tested (has_impersonation h) refl z
    where
      tested :
          (b : Bool)
          → has_impersonation h ≡ b
          → ◌≡◌ {A = Result SarError (Option UserInfo × Header)}
              (if b then ok (some u, without_impersonation h [] h) else ok (none, h))
              (ok (o, h'))
          → (has_impersonation h' ≡ false) × (is_some o ≡ b)
      tested true e z = (
        subst (λ x. has_impersonation x ≡ false) (ap (λ p. p.1) (ok_inj z))
            (without_impersonation_lem h [] h refl),
        ap is_some (sym (ap (λ p. p.0) (ok_inj z))),
      )
      tested false e z = (
        subst (λ x. has_impersonation x ≡ false) (ap (λ p. p.1) (ok_inj z)) e,
        ap is_some (sym (ap (λ p. p.0) (ok_inj z))),
      )

  -- Where the check accepts a request, the headers that go on hold no impersonation header in any
  -- spelling, and there is a target exactly where the request came with such a header.
  pub check_authorized-clean :
      (h : Header) (s : State World) (o : Option UserInfo) (h' : Header)
      → (check_authorized_for_impersonation env reviewer requester h s).0 ≡ ok (o, h')
      → (has_impersonation h' ≡ false) × (is_some o ≡ has_impersonation h)
  unfolding check_authorized_for_impersonation
  check_authorized-clean h s o h' e =
      elim (Bool-cases (ltb reviewer.max_header_values (count_impersonation_header_values h))) [
        | inl wide ↦ absurd (err_ok (rw wide at e))
        | inr fits ↦ resolved-clean h _ o h' (rw fits at e)
      ]
    where
      err_ok :
          {x : SarError} {y : Option UserInfo × Header}
          → ◌≡◌ {A = Result SarError (Option UserInfo × Header)} (err x) (ok y)
          → ⊥
      err_ok z = cc
