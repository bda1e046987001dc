-- ===== src/Sar/Soundness.antt =====
-- The target of CheckAuthorizedForImpersonation of pkg/proxy/subjectaccessreview.
use kube_oidc_proxy.Base.{
  Text, codes, ◌==◌, Bool, true, false, not, Option, none, some, List, [], ◌∷◌, ◌≡◌, refl, inl, inr,
  any, is_empty, if◌then◌else◌, Bool-cases, ltb, subst, ap, some_inj, has_prefix, to_lower,
}
use kube_oidc_proxy.Base.Result.{Result, ok, err, ok_inj}
use kube_oidc_proxy.Header.{Header, get}
use kube_oidc_proxy.Request.{UserInfo}
use kube_oidc_proxy.Sar.{ApiError, Kind, SarError, Reviewer}
use kube_oidc_proxy.Sar.Live.{Env, State, check_rbac_impersonation_authorization}
use kube_oidc_proxy.Sar.Check.{
  is_impersonation, empty_target, extra_name, Walk, verdict, authorize, continue, check_user,
  check_groups, check_uid, check_extras, check_header, check_headers, resolved,
  check_authorized_for_impersonation, count_impersonation_header_values, without_impersonation,
  impersonate_extra_prefix,
}
use kube_oidc_proxy.Sar.Trust.{IsEnv, IsTruthful, Advance, Advance-refl, Advance-trans}
use kube_oidc_proxy.Sar.Settling.{check_rbac-Settles}
use kube_oidc_proxy.Sar.Granted.{
  Granted, IsGranted, IsGranted-Advance, with_extra-IsGranted, with_group-IsGranted,
}

module _ {World : Type 0} (env : Env World) (laws : IsEnv env) (requester : UserInfo)
    (reviewer : Reviewer) where
  abbrev Allowed : UserInfo → World → Type 0
  Allowed = IsGranted env laws requester

  record Sound (w : World) (r : Walk env reviewer requester) : Type 0 where
    advance : Advance env laws w r.1.world
    granted : (t : UserInfo) → r.0 ≡ ok t → Allowed t r.1.world

  Sound-err : (e : SarError) (s : State World) → Sound s.world (err e, s)
  Sound-err e s = record {
    advance = Advance-refl env laws s.world;
    granted = λ t z. absurd (err_ok z);
  }
    where
      err_ok : {t : UserInfo} → ◌≡◌ {A = Result SarError UserInfo} (err e) (ok t) → ⊥
      err_ok z = cc

  Sound-ok : (t : UserInfo) (s : State World) → Allowed t s.world → Sound s.world (ok t, s)
  Sound-ok t s h = record {
    advance = Advance-refl env laws s.world;
    granted = λ u e. subst (λ x. Allowed x s.world) (ok_inj e) h;
  }

  verdict-granted :
      (a : Result ApiError Bool) (kind : Kind) (named : List Text) (target t : UserInfo)
      → verdict env reviewer requester a kind named target ≡ ok t
      → (a ≡ ok true) × (target ≡ t)
  verdict-granted (ok true) kind named target t e = (refl, ok_inj e)
  verdict-granted (ok false) kind named target t e = cc
  verdict-granted (err x) kind named target t e = cc

  authorize_lem :
      (resource name : Text) (kind : Kind) (named : List Text) (target : UserInfo) (s : State World)
      → IsTruthful env laws s.world
      → ((w : World)
          → Advance env laws s.world w
          → Granted env laws requester resource name w
          → Allowed target w)
      → Sound s.world (authorize env reviewer requester resource name kind named target s)
  unfolding authorize
  authorize_lem resource name kind named target s truthful grant =
      let settled = check_rbac-Settles env laws reviewer resource name requester s in
      record {
        advance = settled.advance;
        granted = λ t e.
            let (allowed, same) = verdict-granted _ kind named target t e in
            subst (λ x. Allowed x after) same
              (grant after settled.advance (settled.decided truthful true allowed));
      }
    where
      after : World
      after =
          (check_rbac_impersonation_authorization env reviewer resource name requester s).1.world

  continue_lem :
      (w : World) (r : Walk env reviewer requester)
      (k : UserInfo → State World → Walk env reviewer requester)
      → IsTruthful env laws w
      → Sound w r
      → ((t : UserInfo) (s : State World)
          → IsTruthful env laws s.world
          → Allowed t s.world
          → Sound s.world (k t s))
      → Sound w (continue env reviewer requester r k)
  continue_lem w (ok t, s) k truthful h next =
      let later = next t s (h.advance.truthful truthful) (h.granted t refl) in
      record { advance = Advance-trans env laws h.advance later.advance; granted = later.granted }
  continue_lem w (err e, s) k truthful h next = record {
    advance = h.advance;
    granted = λ t z. absurd (err_ok z);
  }
    where
      err_ok : {t : UserInfo} → ◌≡◌ {A = Result SarError UserInfo} (err e) (ok t) → ⊥
      err_ok z = cc

  check_user_lem :
      (vs : List Text) (target : UserInfo) (s : State World)
      → IsTruthful env laws s.world
      → Allowed target s.world
      → Sound s.world (check_user env reviewer requester vs target s)
  unfolding check_user
  check_user_lem [] target s truthful h = Sound-err _ s
  check_user_lem ([] ∷ vs) target s truthful h = Sound-ok target s h
  check_user_lem ((c ∷ v) ∷ vs) target s truthful h = authorize_lem _ _ _ _ _ s truthful (λ w p g.
      let k = IsGranted-Advance env laws requester p h in
      record { user = inr g; uid = k.uid; groups = k.groups; extra = k.extra })

  check_uid_lem :
      (vs : List Text) (target : UserInfo) (s : State World)
      → IsTruthful env laws s.world
      → Allowed target s.world
      → Sound s.world (check_uid env reviewer requester vs target s)
  unfolding check_uid
  check_uid_lem [] target s truthful h = Sound-err _ s
  check_uid_lem (v ∷ vs) target s truthful h = authorize_lem _ _ _ _ _ s truthful (λ w p g.
      let k = IsGranted-Advance env laws requester p h in
      record { user = k.user; uid = inr g; groups = k.groups; extra = k.extra })

  check_groups_lem :
      (vs : List Text) (target : UserInfo) (s : State World)
      → IsTruthful env laws s.world
      → Allowed target s.world
      → Sound s.world (check_groups env reviewer requester vs target s)
  unfolding check_groups
  check_groups_lem [] target s truthful h = Sound-ok target s h
  check_groups_lem (v ∷ vs) target s truthful h =
      continue_lem s.world _ _ truthful
        (authorize_lem _ _ _ _ _ s truthful (λ w p g.
          with_group-IsGranted env laws requester w v target g
            (IsGranted-Advance env laws requester p h)))
        (check_groups_lem vs)

  check_extras_lem :
      (name : Text) (vs : List Text) (target : UserInfo) (s : State World)
      → IsTruthful env laws s.world
      → Allowed target s.world
      → Sound s.world (check_extras env reviewer requester name vs target s)
  unfolding check_extras
  check_extras_lem name [] target s truthful h = Sound-ok target s h
  check_extras_lem name (v ∷ vs) target s truthful h =
      continue_lem s.world _ _ truthful
        (authorize_lem _ _ _ _ _ s truthful (λ w p g.
          with_extra-IsGranted env laws requester w name v target g
            (IsGranted-Advance env laws requester p h)))
        (check_extras_lem name vs)

  Sound-if :
      {w : World} (t : Bool) {x y : Walk env reviewer requester}
      → Sound w x
      → Sound w y
      → Sound w (if t then x else y)
  Sound-if true p q = p
  Sound-if false p q = q

  check_header_lem :
      (key : Text) (vs : List Text) (target : UserInfo) (s : State World)
      → IsTruthful env laws s.world
      → Allowed target s.world
      → Sound s.world (check_header env reviewer requester key vs target s)
  unfolding check_header
  check_header_lem key vs target s truthful h =
      Sound-if (to_lower key == codes "impersonate-user") (check_user_lem vs target s truthful h) (
        Sound-if (to_lower key == codes "impersonate-group")
          (check_groups_lem vs target s truthful h)
          (Sound-if (to_lower key == codes "impersonate-uid") (check_uid_lem vs target s truthful h)
            (Sound-if (has_prefix (to_lower key) impersonate_extra_prefix)
              (check_extras_lem (extra_name key) vs target s truthful h) (Sound-err _ s))))

  check_headers_lem :
      (has_user : Bool) (h : Header) (target : UserInfo) (s : State World)
      → IsTruthful env laws s.world
      → Allowed target s.world
      → Sound s.world (check_headers env reviewer requester has_user h target s)
  unfolding check_headers
  check_headers_lem has_user [] target s truthful g = Sound-ok target s g
  check_headers_lem has_user ((key, vs) ∷ h) target s truthful g =
      Sound-if (is_impersonation key)
        (Sound-if (not has_user) (Sound-err _ s) (
          continue_lem s.world _ _ truthful (check_header_lem key vs target s truthful g)
            (check_headers_lem has_user h)))
        (check_headers_lem has_user h target s truthful g)

  resolved-some :
      (h : Header) (r : Result SarError UserInfo) (t : UserInfo) (h' : Header)
      → resolved env reviewer requester h r ≡ ok (some t, h')
      → r ≡ ok t
  resolved-some h (err e) t h' z = cc
  resolved-some h (ok u) t h' z = tested (any (λ entry. is_impersonation entry.0) h) z
    where
      tested :
          (b : Bool)
          → ◌≡◌ {A = Result SarError (Option UserInfo × Header)}
              (if b then ok (some u, without_impersonation h [] h) else ok (none, h))
              (ok (some t, h'))
          → ◌≡◌ {A = Result SarError UserInfo} (ok u) (ok t)
      tested true z = ap ok (some_inj (ap (λ p. p.0) (ok_inj z)))
      tested false z = absurd (none_some (ap (λ p. p.0) (ok_inj z)))
        where
          none_some : ◌≡◌ {A = Option UserInfo} none (some t) → ⊥
          none_some z = cc

  -- Where a request may go on as an impersonated user, the API server has answered "allowed" to a
  -- review of the requester for the user name, the uid and for each group and extra value of that
  -- user (or to a review that serialises alike, earlier), if the cache was truthful before; and it
  -- is truthful after.
  pub check_authorized-IsGranted :
      (h : Header) (s : State World) (t : UserInfo) (h' : Header)
      → IsTruthful env laws s.world
      → (check_authorized_for_impersonation env reviewer requester h s).0 ≡ ok (some t, h')
      → let s' = (check_authorized_for_impersonation env reviewer requester h s).1 in
        IsGranted env laws requester t s'.world × IsTruthful env laws s'.world
  unfolding check_authorized_for_impersonation
  check_authorized-IsGranted h s t h' truthful e =
      elim (Bool-cases (ltb reviewer.max_header_values (count_impersonation_header_values h))) [
        | inl wide ↦ absurd (err_ok (rw wide at e))
        | inr fits ↦ rw fits (
          sound.granted t (resolved-some h walk.0 t h' (rw fits at e)),
          sound.advance.truthful truthful,
        )
      ]
    where
      has_user : Bool
      has_user = not (is_empty (get h (codes "impersonate-user")))

      walk : Walk env reviewer requester
      walk = check_headers env reviewer requester has_user h empty_target s

      empty-Allowed : Allowed empty_target s.world
      empty-Allowed = record { user = inl refl; uid = inl refl; groups = tt; extra = tt }

      sound : Sound s.world walk
      sound = check_headers_lem has_user h empty_target s truthful empty-Allowed

      err_ok :
          {x : SarError} {y : Option UserInfo × Header}
          → ◌≡◌ {A = Result SarError (Option UserInfo × Header)} (err x) (ok y)
          → ⊥
      err_ok z = cc
