-- ===== src/Sar/Granted.antt =====
-- What the API server allowed of a target, for pkg/proxy/subjectaccessreview.
use kube_oidc_proxy.Base.{
  Text, codes, true, Option, none, some, List, [], ◌∷◌, ◌++◌, ◌≡◌, refl, ◌⊎◌, inl, inr, All,
  All-append, lookup, values_of, lookup-Holds, insert-Holds,
}
use kube_oidc_proxy.Request.{UserInfo}
use kube_oidc_proxy.Sar.{impersonation_review_spec}
use kube_oidc_proxy.Sar.Live.{Env}
use kube_oidc_proxy.Sar.Check.{with_extra, with_group}
use kube_oidc_proxy.Sar.Trust.{IsEnv, Advance, Decided, Decided-Advance}

module _ {World : Type 0} (env : Env World) (laws : IsEnv env) (requester : UserInfo) where
  -- The server allowed the requester to impersonate this resource of that name.
  abbrev pub Granted : Text → Text → World → Type 0
  Granted resource name w =
      Decided env laws (impersonation_review_spec resource name requester) true w

  pub record IsGranted (target : UserInfo) (w : World) : Type 0 where
    pub user : (target.name ≡ []) ⊎ Granted (codes "users") target.name w
    pub uid : (target.uid ≡ []) ⊎ Granted (codes "uids") target.uid w
    pub groups : All (λ g. Granted (codes "groups") g w) target.groups
    pub extra : All (λ e. All (λ v. Granted (codes "userextras/" ++ e.0) v w) e.1) target.extra

  module _ {w w' : World} (p : Advance env laws w w') where
    keep : (resource name : Text) → Granted resource name w → Granted resource name w'
    keep resource name =
        Decided-Advance env laws (impersonation_review_spec resource name requester) true p

    keep_or :
        (resource name : Text)
        → ((name ≡ []) ⊎ Granted resource name w)
        → (name ≡ []) ⊎ Granted resource name w'
    keep_or resource name (inl e) = inl e
    keep_or resource name (inr g) = inr (keep resource name g)

    keep-All :
        (resource : Text) (names : List Text)
        → All (λ n. Granted resource n w) names
        → All (λ n. Granted resource n w') names
    keep-All resource [] h = tt
    keep-All resource (n ∷ names) (g, h) = (keep resource n g, keep-All resource names h)

    keep_extra :
        (extra : List (Text × List Text))
        → All (λ e. All (λ v. Granted (codes "userextras/" ++ e.0) v w) e.1) extra
        → All (λ e. All (λ v. Granted (codes "userextras/" ++ e.0) v w') e.1) extra
    keep_extra [] h = tt
    keep_extra ((k, vs) ∷ extra) (g, h) = (keep-All _ vs g, keep_extra extra h)

    pub IsGranted-Advance : {target : UserInfo} → IsGranted target w → IsGranted target w'
    IsGranted-Advance {target} h = record {
      user = keep_or _ target.name h.user;
      uid = keep_or _ target.uid h.uid;
      groups = keep-All _ target.groups h.groups;
      extra = keep_extra target.extra h.extra;
    }

  -- The extras under a key, all allowed.
  abbrev AllowedExtra : World → Text → List Text → Type 0
  AllowedExtra w k vs = All (λ v. Granted (codes "userextras/" ++ k) v w) vs

  pub with_extra-IsGranted :
      (w : World) (name value : Text) (target : UserInfo)
      → Granted (codes "userextras/" ++ name) value w
      → IsGranted target w
      → IsGranted (with_extra name value target) w
  unfolding with_extra
  with_extra-IsGranted w name value target g h = record {
    user = h.user;
    uid = h.uid;
    groups = h.groups;
    extra =
        insert-Holds (AllowedExtra w) name _ target.extra
          (All-append _ (values_of (lookup name target.extra)) _
            (found (lookup name target.extra) refl) (g, tt))
          h.extra;
  }
    where
      found :
          (o : Option (List Text))
          → lookup name target.extra ≡ o
          → AllowedExtra w name (values_of o)
      found none e = tt
      found (some vs) e = lookup-Holds (AllowedExtra w) name vs target.extra h.extra e

  pub with_group-IsGranted :
      (w : World) (name : Text) (target : UserInfo)
      → Granted (codes "groups") name w
      → IsGranted target w
      → IsGranted (with_group name target) w
  unfolding with_group
  with_group-IsGranted w name target g h = record {
    user = h.user;
    uid = h.uid;
    groups = All-append _ target.groups _ h.groups (g, tt);
    extra = h.extra;
  }
