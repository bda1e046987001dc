-- ===== src/Examples/Identity.antt =====
-- Runs of the token parser and of the reserved-identity guard.
use kube_oidc_proxy.Base.{
  arith, Text, codes, ◌==◌, false, none, some, List, [], ◌∷◌, ◌≡◌, ◌≢◌, ◌↔◌, refl, All, Lacks,
  has_prefix, IsSolid, to_lower, lower, is_space, lookup,
}
use kube_oidc_proxy.Base.Result.{ok}
use kube_oidc_proxy.Header.{Header, get, canonical, capitalise, upper, is_token, is_alnum}
use kube_oidc_proxy.Request.{UserInfo}
use kube_oidc_proxy.Token.{parse_from_request}
use kube_oidc_proxy.Token.Laws.{parse_from_request_sound, parse_from_request-bearer}
use kube_oidc_proxy.Reserved.{
  all_authenticated, check_reserved_identity, parse_allowed_reserved_groups,
  reserved_identity_prefix, has,
}
use kube_oidc_proxy.Reserved.Laws.{
  IsPermitted, IsEntry, check_reserved_identity_iff, parse_allowed_reserved_groups_iff,
}

abbrev headers : Header
headers = (codes "Authorization", codes "Bearer abc.def" ∷ []) ∷ []

sent : get headers (codes "Authorization") ≡ codes "Bearer abc.def"
unfolding codes get canonical capitalise upper lower is_token is_alnum lookup ◌==◌
sent = refl

bearer : to_lower (codes "Bearer") ≡ codes "bearer"
unfolding codes to_lower lower
bearer = refl

scheme_IsSolid : IsSolid (codes "Bearer")
unfolding codes is_space
scheme_IsSolid = ground arith

token_IsSolid : IsSolid (codes "abc.def")
unfolding codes is_space
token_IsSolid = ground arith

parse_from_request-bearer_example : parse_from_request (some headers) ≡ some (codes "abc.def")
unfolding codes
parse_from_request-bearer_example =
    parse_from_request-bearer headers b'B' (codes "earer") b'a' (codes "bc.def") bearer
      scheme_IsSolid token_IsSolid sent

parsed : parse_from_request (some headers) ≡ some (codes "abc.def")
unfolding codes
parsed =
    parse_from_request-bearer headers b'B' (codes "earer") b'a' (codes "bc.def") bearer
      scheme_IsSolid token_IsSolid sent

parse_from_request_sound_example : (codes "abc.def" ≢ []) × Lacks b' ' (codes "abc.def")
parse_from_request_sound_example = parse_from_request_sound headers (codes "abc.def") parsed

abbrev operator : UserInfo
operator = record {
  name = codes "alice";
  uid = codes "17";
  groups = codes "devs" ∷ codes "system:nodes" ∷ [];
  extra = [];
}

check_reserved_identity_iff_example :
    (check_reserved_identity operator (codes "system:nodes" ∷ []) ≡ none) ↔ (
      (has_prefix (codes "alice") reserved_identity_prefix ≡ false)
      × All (IsPermitted (codes "system:nodes" ∷ [])) (codes "devs" ∷ codes "system:nodes" ∷ []))
check_reserved_identity_iff_example =
    check_reserved_identity_iff operator (codes "system:nodes" ∷ [])

abbrev allowlist : List Text
allowlist = codes "system:nodes" ∷ codes "system:bootstrappers" ∷ []

allowlist_other : has allowlist all_authenticated ≡ false
unfolding has codes ◌==◌
allowlist_other = refl

parse_allowed_reserved_groups_iff_example :
    (((s : List Text) × (parse_allowed_reserved_groups allowlist ≡ ok s)) ↔ All IsEntry allowlist)
    × ((s : List Text)
        → parse_allowed_reserved_groups allowlist ≡ ok s
        → (j : Text) → has s j ≡ has allowlist j)
parse_allowed_reserved_groups_iff_example =
    parse_allowed_reserved_groups_iff allowlist allowlist_other
