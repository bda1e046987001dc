-- ===== src/Header.antt =====
-- http.Header: a map from canonical names to the values received, with the accessors of net/http
-- that the proxy calls.
pub mod Laws
use kube_oidc_proxy.Base.{
  ℕ, ◌+◌, ◌-◌, Text, codes, Bool, true, false, ◌&&◌, ◌||◌, List, [], ◌∷◌, ◌++◌, all, any, leb, eqb,
  if◌then◌else◌, lookup, insert, delete, values_of, lower,
}

abbrev pub Header : Type 0
Header = List (Text × List Text)

unfoldable pub is_alnum : ℕ → Bool
is_alnum c = (leb b'a' c && leb c b'z') || (leb b'A' c && leb c b'Z') || (leb b'0' c && leb c b'9')

-- A byte that a header name may hold.
unfoldable pub is_token : ℕ → Bool
is_token c = is_alnum c || any (eqb c) (codes "!#$%&'*+-.^_`|~")

unfoldable pub upper : ℕ → ℕ
upper c = if leb b'a' c && leb c b'z' then c - 32 else c

unfoldable pub capitalise : Bool → Text → Text
capitalise first [] = []
capitalise true (c ∷ s) = upper c ∷ capitalise (eqb c b'-') s
capitalise false (c ∷ s) = lower c ∷ capitalise (eqb c b'-') s

-- textproto.CanonicalMIMEHeaderKey
unfoldable pub canonical : Text → Text
canonical k = if all is_token k then capitalise true k else k

abbrev first : List Text → Text
first [] = []
first (v ∷ vs) = v

unfoldable pub values : Header → Text → List Text
values h k = values_of (lookup (canonical k) h)

-- Header.Get reads the first value alone.
unfoldable pub get : Header → Text → Text
unfolding values
get h k = first (values h k)

unfoldable pub set : Header → Text → Text → Header
set h k v = insert (canonical k) (v ∷ []) h

unfoldable pub del : Header → Text → Header
del h k = delete (canonical k) h

unfoldable pub add : Header → Text → Text → Header
unfolding values
add h k v = insert (canonical k) (values h k ++ v ∷ []) h
