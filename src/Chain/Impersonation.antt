-- ===== src/Chain/Impersonation.antt =====
-- The configuration that withImpersonateRequest of pkg/proxy/handlers.go makes for an identity.
use kube_oidc_proxy.Base.{
  Text, codes, ◌==◌, Option, none, some, List, [], ◌∷◌, ◌++◌, any, lookup, insert, values_of,
  if◌then◌else◌,
}
use kube_oidc_proxy.Request.{UserInfo, ImpersonationRequest}
use kube_oidc_proxy.Reserved.{all_authenticated}
use kube_oidc_proxy.Chain.{Proxy}

abbrev pub Extra : Type 0
Extra = List (Text × List Text)

-- `extra[k] = append(extra[k], vs...)`
unfoldable pub append_extra : Text → List Text → Extra → Extra
append_extra k vs extra = insert k (values_of (lookup k extra) ++ vs) extra

unfoldable pub add_extras : Extra → Extra → Extra
add_extras [] extra = extra
add_extras ((k, vs) ∷ headers) extra = add_extras headers (append_extra k vs extra)

unfoldable pub ensure_authenticated : List Text → List Text
ensure_authenticated groups =
    if any (λ g. g == all_authenticated) groups then groups else groups ++ all_authenticated ∷ []

abbrev insert_nonempty : Text → List Text → Extra → Extra
insert_nonempty k [] extra = extra
insert_nonempty k (v ∷ vs) extra = insert k (v ∷ vs) extra

abbrev insert_text : Text → Text → Extra → Extra
insert_text k [] extra = extra
insert_text k (c ∷ s) extra = insert k ((c ∷ s) ∷ []) extra

-- The original identity, as extras of the one impersonated; none where its extras do not serialise.
unfoldable pub original_extras : (Extra → Option Text) → UserInfo → Extra → Option Extra
original_extras marshal original extra =
    let named = insert_text (codes "originaluser.jetstack.io-uid") original.uid (
      insert_nonempty (codes "originaluser.jetstack.io-groups") original.groups
        (insert (codes "originaluser.jetstack.io-user") (original.name ∷ []) extra)) in
    elim original.extra [
      | [] ↦ some named
      | _ ∷ _ ↦ elim (marshal original.extra) [
        | none ↦ none
        | some bytes ↦ some (insert (codes "originaluser.jetstack.io-extra") (bytes ∷ []) named)
      ]
    ]

-- The request of an identity, given the extras that it goes with.
unfoldable pub configured :
    UserInfo → Option UserInfo → UserInfo → Option Extra → Option ImpersonationRequest
configured original target user none = none
configured original target user (some extra) = some (record {
  config = record {
    user_name = user.name;
    uid = user.uid;
    groups = ensure_authenticated user.groups;
    extra = extra;
  };
  inbound_user = some original;
  impersonated_user = target;
})

module _ {World : Type 0} (p : Proxy World) where
  unfoldable pub enriched : Text → Extra → Extra
  enriched remote_addr extra = add_extras p.extra_user_headers (
      if p.client_ip_enabled
      then append_extra (codes "Remote-Client-IP") (remote_addr ∷ []) extra
      else extra)

  unfoldable pub with_original : UserInfo → Option UserInfo → Extra → Option Extra
  with_original original none extra = some extra
  with_original original (some target) extra = original_extras p.marshal_extra original extra

  abbrev or_original : UserInfo → Option UserInfo → UserInfo
  or_original original none = original
  or_original original (some target) = target

  -- The request's configuration; none where the original extras do not serialise.
  unfoldable pub impersonation_request :
      Text → UserInfo → Option UserInfo → Option ImpersonationRequest
  impersonation_request remote_addr original target =
      let user = or_original original target in
      configured original target user
        (with_original original target (enriched remote_addr user.extra))
