-- ===== src/Reserved.antt =====
-- The reserved-identity guard: checkReservedIdentity of pkg/proxy/handlers.go, and the allowlist of
-- parseAllowedReservedGroups in pkg/proxy/proxy.go.
pub mod Laws
use kube_oidc_proxy.Base.{
  Text, codes, ◌==◌, Bool, true, false, not, ◌||◌, Option, none, some, List, [], ◌∷◌, any,
  has_prefix, is_empty, trim_space, if◌then◌else◌,
}
use kube_oidc_proxy.Base.Result.{Result, ok, err}
use kube_oidc_proxy.Request.{UserInfo}

abbrev pub reserved_identity_prefix : Text
reserved_identity_prefix = codes "system:"

-- user.AllAuthenticated
abbrev pub all_authenticated : Text
all_authenticated = codes "system:authenticated"

-- What the guard names in its refusal.
pub data Refusal : Type 0 where
  username : Text → Refusal
  group : Text → Refusal

abbrev pub has : List Text → Text → Bool
has allowed g = any (λ a. a == g) allowed

-- The loop over the groups.
unfoldable pub check_groups : List Text → List Text → Option Refusal
check_groups allowed [] = none
check_groups allowed (g ∷ gs) =
    let rest = check_groups allowed gs in
    if g == all_authenticated || has allowed g
    then rest
    else (if has_prefix g reserved_identity_prefix then some (group g) else rest)

unfoldable pub check_reserved_identity : UserInfo → List Text → Option Refusal
check_reserved_identity info allowed =
    if has_prefix info.name reserved_identity_prefix
    then some (username info.name)
    else check_groups allowed info.groups

pub data AllowError : Type 0 where
  empty_group : AllowError
  not_reserved : Text → AllowError

-- Set.Insert: the set keeps one copy.
unfoldable pub set_insert : Text → List Text → List Text
set_insert g allowed = if has allowed g then allowed else g ∷ allowed

unfoldable pub parse_groups : List Text → List Text → Result AllowError (List Text)
parse_groups allowed [] = ok allowed
parse_groups allowed (g ∷ gs) =
    let rest = parse_groups (set_insert g allowed) gs in
    if is_empty (trim_space g)
    then err empty_group
    else (if not (has_prefix g reserved_identity_prefix) then err (not_reserved g) else rest)

unfoldable pub parse_allowed_reserved_groups : List Text → Result AllowError (List Text)
parse_allowed_reserved_groups groups = parse_groups [] groups
