-- ===== src/Issuers.antt =====
-- Naming the issuer that accepted a token: pkg/proxy/issuerattr.go. The holder that the request's
-- context carries by pointer is passed on explicitly, none where the context has none; the
-- authenticator of one issuer and the union of k8s.io/apiserver are parameters.
pub mod Naming
use kube_oidc_proxy.Base.{
  Text, Bool, true, false, ◌&&◌, Option, none, some, List, [], ◌∷◌, map, if◌then◌else◌,
}

-- What AuthenticateToken returns.
pub record Verdict (R E : Type 0) : Type 0 where
  pub response : Option R
  pub accepted : Bool
  pub error : Option E

abbrev pub Holder : Type 0
Holder = Option Text

unfoldable pub is_nil {ℓ} : {E : Type ℓ} → Option E → Bool
is_nil none = true
is_nil (some e) = false

unfoldable pub accepts : {R E : Type 0} → Verdict R E → Bool
accepts v = v.accepted && is_nil v.error

-- withIssuerHolder: the holder at the start.
abbrev pub with_issuer_holder : Holder
with_issuer_holder = some []

unfoldable pub set_issuer_name : Text → Holder → Holder
set_issuer_name name none = none
set_issuer_name name (some old) = some name

module _ {R E : Type 0} where
  -- WithIssuerName around an authenticator that leaves the holder alone.
  unfoldable pub with_issuer_name :
      Text → (Text → Verdict R E) → Text → Holder → Verdict R E × Holder
  with_issuer_name name inner token holder =
      let v = inner token in (v, if accepts v then set_issuer_name name holder else holder)

  -- Every issuer's authenticator, wrapped.
  unfoldable pub named :
      List (Text × (Text → Verdict R E)) → List (Text → Holder → Verdict R E × Holder)
  named [] = []
  named ((name, inner) ∷ issuers) = with_issuer_name name inner ∷ named issuers
