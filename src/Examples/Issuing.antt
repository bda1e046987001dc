-- ===== src/Examples/Issuing.antt =====
-- Two issuers, of which the second accepts the token, behind a union that asks them in turn.
use kube_oidc_proxy.Base.{
  Text, false, codes, ◌==◌, ◌||◌, not, none, some, List, [], ◌∷◌, ◌≡◌, refl, if◌then◌else◌,
}
use kube_oidc_proxy.Issuers.{
  Verdict, Holder, is_nil, accepts, with_issuer_holder, set_issuer_name, with_issuer_name, named,
}
use kube_oidc_proxy.Issuers.Naming.{IsUnion, IsNamed, union-IsNamed}

unfoldable fail_on_error :
    List (Text → Holder → Verdict Text Text × Holder) → Text → Holder → Verdict Text Text × Holder
fail_on_error [] token h = (record { response = none; accepted = false; error = none }, h)
fail_on_error (a ∷ rest) token h =
    let r = a token h in
    let later = fail_on_error rest token r.1 in
    if r.0.accepted || not (is_nil r.0.error) then r else later

fail_on_error-IsUnion : IsUnion fail_on_error
unfolding fail_on_error accepts
fail_on_error-IsUnion = record {
  refuses = λ token h. refl;
  keeps = λ token h. refl;
  asks = λ a rest token h. refl;
}

unfoldable accepts_only : Text → Text → Verdict Text Text
accepts_only own token = record {
  response = if own == token then some own else none;
  accepted = own == token;
  error = none;
}

abbrev issuers : List (Text × (Text → Verdict Text Text))
issuers =
    (codes "first.example", accepts_only (codes "t1"))
    ∷ (codes "second.example", accepts_only (codes "t2"))
    ∷ []

named_second :
    (fail_on_error (named issuers) (codes "t2") with_issuer_holder).1
    ≡ some (codes "second.example")
unfolding fail_on_error named with_issuer_name set_issuer_name accepts accepts_only is_nil ◌==◌
    codes
named_second = refl

union-IsNamed_example :
    IsNamed fail_on_error fail_on_error-IsUnion issuers
      (codes "t2")
      (fail_on_error (named issuers) (codes "t2") with_issuer_holder)
union-IsNamed_example = union-IsNamed fail_on_error fail_on_error-IsUnion issuers (codes "t2")
