-- ===== src/Token.antt =====
-- The bearer token of a request: ParseFromRequest of pkg/util/token/token.go. The request and its
-- header map may be nil.
pub mod Laws
use kube_oidc_proxy.Base.{
  Text, codes, ◌==◌, Bool, Option, none, some, List, [], ◌∷◌, if◌then◌else◌, to_lower, trim_space,
  split_on, not,
}
use kube_oidc_proxy.Header.{Header, get}

abbrev some_token : Text → Option Text
some_token [] = none
some_token (c ∷ t) = some (c ∷ t)

-- The pieces of the header between blanks: at least a scheme and a token.
unfoldable pub from_parts : List Text → Option Text
from_parts [] = none
from_parts (scheme ∷ []) = none
from_parts (scheme ∷ token ∷ rest) =
    if not (to_lower scheme == codes "bearer") then none else some_token token

unfoldable pub parse_authorization : Text → Option Text
parse_authorization [] = none
parse_authorization (c ∷ s) = from_parts (split_on b' ' (c ∷ s))

unfoldable pub parse_from_request : Option Header → Option Text
parse_from_request none = none
parse_from_request (some h) = parse_authorization (trim_space (get h (codes "Authorization")))
