-- ===== src/Sar/Cost.antt =====
-- The reviews that one request submits, for pkg/proxy/subjectaccessreview.
use kube_oidc_proxy.Base.{
  ℕ, ◌+◌, ◌*◌, ◌≤◌, ◌<◌, Text, codes, ◌==◌, Bool, true, false, not, List, [], ◌∷◌, ◌++◌, ◌≡◌, refl,
  arith, length, ltb, has_prefix, to_lower, is_empty, if◌then◌else◌, Bool-cases, inl, inr,
}
use kube_oidc_proxy.Base.Result.{ok, err}
use kube_oidc_proxy.Header.{Header, get}
use kube_oidc_proxy.Request.{UserInfo}
use kube_oidc_proxy.Sar.{Kind, SarError, Reviewer}
use kube_oidc_proxy.Sar.Live.{Env, State}
use kube_oidc_proxy.Sar.Check.{
  is_impersonation, empty_target, with_extra, with_group, extra_name, Walk, authorize, continue,
  check_user, check_groups, check_uid, check_extras, check_header, check_headers,
  check_authorized_for_impersonation, count_impersonation_header_values, impersonate_extra_prefix,
}
use kube_oidc_proxy.Sar.Calls.{calls-check_rbac}

module _ {World : Type 0} (env : Env World) (reviewer : Reviewer) (requester : UserInfo) where
  calls-authorize :
      (resource name : Text) (kind : Kind) (named : List Text) (target : UserInfo) (s : State World)
      → (authorize env reviewer requester resource name kind named target s).1.calls ≤ s.calls + 2
  unfolding authorize
  calls-authorize resource name kind named target s =
      calls-check_rbac env reviewer resource name requester s

  calls-continue :
      (n m total : ℕ) (r : Walk env reviewer requester)
      (k : UserInfo → State World → Walk env reviewer requester)
      → r.1.calls ≤ n
      → ((t : UserInfo) (s : State World) → (k t s).1.calls ≤ s.calls + m)
      → n + m ≤ total
      → (continue env reviewer requester r k).1.calls ≤ total
  calls-continue n m total (ok t, s) k h next room = omega (arith, next t s)
  calls-continue n m total (err e, s) k h next room = omega arith

  calls-user :
      (vs : List Text) (target : UserInfo) (s : State World)
      → (check_user env reviewer requester vs target s).1.calls ≤ s.calls + 2 * length vs
  unfolding check_user
  calls-user [] target s = omega arith
  calls-user ([] ∷ vs) target s = omega arith
  calls-user ((c ∷ v) ∷ vs) target s = omega (
    arith,
    calls-authorize (codes "users") (c ∷ v) Kind.user ((c ∷ v) ∷ [])
        (record target { name = c ∷ v }) s,
  )

  calls-uid :
      (vs : List Text) (target : UserInfo) (s : State World)
      → (check_uid env reviewer requester vs target s).1.calls ≤ s.calls + 2 * length vs
  unfolding check_uid
  calls-uid [] target s = omega arith
  calls-uid (v ∷ vs) target s =
      omega
        (arith, calls-authorize (codes "uids") v Kind.uid (v ∷ []) (record target { uid = v }) s)

  calls-groups :
      (vs : List Text) (target : UserInfo) (s : State World)
      → (check_groups env reviewer requester vs target s).1.calls ≤ s.calls + 2 * length vs
  unfolding check_groups
  calls-groups [] target s = omega arith
  calls-groups (v ∷ vs) target s =
      calls-continue (s.calls + 2) (2 * length vs) _ _ _
        (calls-authorize (codes "groups") v Kind.group (v ∷ []) (with_group v target) s)
        (calls-groups vs) (omega arith)

  calls-extras :
      (name : Text) (vs : List Text) (target : UserInfo) (s : State World)
      → (check_extras env reviewer requester name vs target s).1.calls ≤ s.calls + 2 * length vs
  unfolding check_extras
  calls-extras name [] target s = omega arith
  calls-extras name (v ∷ vs) target s =
      calls-continue (s.calls + 2) (2 * length vs) _ _ _
        (calls-authorize (codes "userextras/" ++ name) v Kind.extra_info (name ∷ v ∷ [])
          (with_extra name v target) s)
        (calls-extras name vs) (omega arith)

  calls-if :
      (n : ℕ) (t : Bool) (x y : Walk env reviewer requester)
      → x.1.calls ≤ n
      → y.1.calls ≤ n
      → (if t then x else y).1.calls ≤ n
  calls-if n true x y p q = p
  calls-if n false x y p q = q

  calls-header :
      (key : Text) (vs : List Text) (target : UserInfo) (s : State World)
      → (check_header env reviewer requester key vs target s).1.calls ≤ s.calls + 2 * length vs
  unfolding check_header
  calls-header key vs target s =
      calls-if _ (to_lower key == codes "impersonate-user") _ _ (calls-user vs target s) (
        calls-if _ (to_lower key == codes "impersonate-group") _ _ (calls-groups vs target s) (
          calls-if _ (to_lower key == codes "impersonate-uid") _ _ (calls-uid vs target s) (
            calls-if _ (has_prefix (to_lower key) impersonate_extra_prefix) _ _
              (calls-extras (extra_name key) vs target s) (omega arith))))

  calls-headers :
      (has_user : Bool) (h : Header) (target : UserInfo) (s : State World)
      → (check_headers env reviewer requester has_user h target s).1.calls
        ≤ s.calls + 2 * count_impersonation_header_values h
  unfolding check_headers count_impersonation_header_values
  calls-headers has_user [] target s = omega arith
  calls-headers has_user ((key, vs) ∷ h) target s = elim (Bool-cases (is_impersonation key)) [
    | inr other ↦ rw other (calls-headers has_user h target s)
    | inl mine ↦ rw mine (
        calls-if _ (not has_user) _ _ (omega arith) (
          calls-continue (s.calls + 2 * length vs) (2 * count_impersonation_header_values h) _ _ _
            (calls-header key vs target s) (calls-headers has_user h) (omega arith)))
  ]

  -- A request costs at most two reviews for each impersonation value that it carries, and so at
  -- most twice the limit; a request over the limit is refused with its count before any review,
  -- and leaves everything as it was.
  pub check_authorized-calls :
      (h : Header) (s : State World)
      → let count = count_impersonation_header_values h in
        let r = check_authorized_for_impersonation env reviewer requester h s in
        (r.1.calls ≤ s.calls + 2 * count)
        × (r.1.calls ≤ s.calls + 2 * reviewer.max_header_values)
        × (reviewer.max_header_values < count
            → r ≡ (err (SarError.too_many_values count reviewer.max_header_values), s))
  unfolding check_authorized_for_impersonation
  check_authorized-calls h s =
      elim (Bool-cases (ltb reviewer.max_header_values (count_impersonation_header_values h))) [
        | inl wide ↦ rw wide (omega arith, omega arith, λ _. refl)
        | inr fits ↦
            let walk =
              calls-headers (not (is_empty (get h (codes "impersonate-user")))) h empty_target s in
            let few : count_impersonation_header_values h ≤ reviewer.max_header_values =
              ground arith in
            rw fits (walk, omega (arith, walk, few), λ over. absurd (omega (arith, over, few)))
      ]
