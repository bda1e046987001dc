-- ===== src/Sar/Check.antt =====
-- CheckAuthorizedForImpersonation: the walk over the request's headers, in the order of `range`.
use kube_oidc_proxy.Base.{
  ℕ, zero, suc, ◌+◌, Text, codes, ◌==◌, Bool, true, false, not, Option, none, some, List, [], ◌∷◌,
  ◌++◌, length, ltb, any, has_prefix, to_lower, lookup, insert, values_of, is_empty, if◌then◌else◌,
}
use kube_oidc_proxy.Base.Result.{Result, ok, err}
use kube_oidc_proxy.Header.{Header, get, values, add}
use kube_oidc_proxy.Request.{UserInfo}
use kube_oidc_proxy.Sar.{
  ApiError, Kind, user, group, uid, extra_info, SarError, too_many_values, no_impersonation_user,
  create_review, not_allowed, unknown_header, index_out_of_range, Reviewer,
}
use kube_oidc_proxy.Sar.Live.{Env, State, check_rbac_impersonation_authorization}

abbrev pub impersonate_prefix : Text
impersonate_prefix = codes "impersonate-"

abbrev pub impersonate_extra_prefix : Text
impersonate_extra_prefix = codes "impersonate-extra-"

unfoldable pub is_impersonation : Text → Bool
is_impersonation key = has_prefix (to_lower key) impersonate_prefix

-- countImpersonationHeaderValues
unfoldable pub count_impersonation_header_values : Header → ℕ
count_impersonation_header_values [] = 0
count_impersonation_header_values ((key, vs) ∷ h) =
    let count = count_impersonation_header_values h in
    if is_impersonation key then length vs + count else count

abbrev pub empty_target : UserInfo
empty_target = record { name = []; uid = []; groups = []; extra = [] }

unfoldable pub with_extra : Text → Text → UserInfo → UserInfo
with_extra name value target = record target {
  extra = insert name (values_of (lookup name target.extra) ++ value ∷ []) target.extra;
}

unfoldable pub with_group : Text → UserInfo → UserInfo
with_group name target = record target { groups = target.groups ++ name ∷ [] }

-- `key[18:]`
unfoldable pub drop : ℕ → Text → Text
drop zero s = s
drop (suc n) [] = []
drop (suc n) (c ∷ s) = drop n s

unfoldable pub extra_name : Text → Text
extra_name key = to_lower (drop 18 key)

-- The headers without those consumed: `Values` reads by the canonical key, and `Add` writes to it.
unfoldable pub add_values : Header → Text → List Text → Header
add_values h key [] = h
add_values h key (v ∷ vs) = add_values (add h key v) key vs

unfoldable pub without_impersonation : Header → Header → Header → Header
without_impersonation whole new [] = new
without_impersonation whole new ((key, vs) ∷ h) =
    without_impersonation whole
      (if is_impersonation key then new else add_values new key (values whole key)) h

module _ {World : Type 0} (env : Env World) (reviewer : Reviewer) (requester : UserInfo) where
  abbrev pub Walk : Type 0
  Walk = Result SarError UserInfo × State World

  -- What follows one check: its error, the denial, or the target.
  abbrev pub verdict : Result ApiError Bool → Kind → List Text → UserInfo → Result SarError UserInfo
  verdict (err e) kind named target = err (create_review e)
  verdict (ok false) kind named target = err (not_allowed requester.name kind named)
  verdict (ok true) kind named target = ok target

  -- One check; `target` is the target if it allows.
  unfoldable pub authorize : Text → Text → Kind → List Text → UserInfo → State World → Walk
  authorize resource name kind named target s =
      let (answer, s') =
        check_rbac_impersonation_authorization env reviewer resource name requester s in
      (verdict answer kind named target, s')

  abbrev pub continue : Walk → (UserInfo → State World → Walk) → Walk
  continue (ok target, s) k = k target s
  continue (err e, s) k = (err e, s)

  unfoldable pub check_user : List Text → UserInfo → State World → Walk
  check_user [] target s = (err index_out_of_range, s)
  check_user ([] ∷ vs) target s = (ok target, s)
  check_user ((c ∷ v) ∷ vs) target s =
      authorize (codes "users") (c ∷ v) user ((c ∷ v) ∷ []) (record target { name = c ∷ v }) s

  unfoldable pub check_groups : List Text → UserInfo → State World → Walk
  check_groups [] target s = (ok target, s)
  check_groups (v ∷ vs) target s =
      continue (authorize (codes "groups") v group (v ∷ []) (with_group v target) s)
        (check_groups vs)

  unfoldable pub check_uid : List Text → UserInfo → State World → Walk
  check_uid [] target s = (err index_out_of_range, s)
  check_uid (v ∷ vs) target s =
      authorize (codes "uids") v uid (v ∷ []) (record target { uid = v }) s

  unfoldable pub check_extras : Text → List Text → UserInfo → State World → Walk
  check_extras name [] target s = (ok target, s)
  check_extras name (v ∷ vs) target s =
      continue
        (authorize (codes "userextras/" ++ name) v extra_info (name ∷ v ∷ [])
          (with_extra name v target) s)
        (check_extras name vs)

  -- One impersonation header.
  unfoldable pub check_header : Text → List Text → UserInfo → State World → Walk
  check_header key vs target s =
      let lower_key = to_lower key in
      if lower_key == codes "impersonate-user"
      then check_user vs target s
      else (if lower_key == codes "impersonate-group"
          then check_groups vs target s
          else (if lower_key == codes "impersonate-uid"
              then check_uid vs target s
              else (if has_prefix lower_key impersonate_extra_prefix
                  then check_extras (extra_name key) vs target s
                  else (err (unknown_header key), s))))

  -- The loop over the headers.
  unfoldable pub check_headers : Bool → Header → UserInfo → State World → Walk
  check_headers has_user [] target s = (ok target, s)
  check_headers has_user ((key, vs) ∷ h) target s =
      if is_impersonation key
      then (if not has_user
          then (err no_impersonation_user, s)
          else continue (check_header key vs target s) (check_headers has_user h))
      else check_headers has_user h target s

  -- What the caller gets: no target where there is no impersonation header, otherwise the target
  -- and the headers that go on.
  abbrev pub resolved :
      Header → Result SarError UserInfo → Result SarError (Option UserInfo × Header)
  resolved h (err e) = err e
  resolved h (ok target) =
      if any (λ entry. is_impersonation entry.0) h
      then ok (some target, without_impersonation h [] h)
      else ok (none, h)

  unfoldable pub check_authorized_for_impersonation :
      Header → State World → Result SarError (Option UserInfo × Header) × State World
  check_authorized_for_impersonation h s =
      let count = count_impersonation_header_values h in
      let has_user = not (is_empty (get h (codes "impersonate-user"))) in
      if ltb reviewer.max_header_values count
      then (err (too_many_values count reviewer.max_header_values), s)
      else (let (r, s') = check_headers has_user h empty_target s in (resolved h r, s'))
