-- ===== src/Issuers/Naming.antt =====
-- Which issuer pkg/proxy/issuerattr.go names, behind the union of k8s.io/apiserver.
use kube_oidc_proxy.Base.{
  Text, Bool, true, false, ◌&&◌, ◌||◌, not, Option, none, some, List, [], ◌∷◌, ◌≡◌, refl, sym,
  subst, inl, inr, ◌⊎◌, Member, if◌then◌else◌, arith,
}
use kube_oidc_proxy.Issuers.{
  Verdict, Holder, is_nil, accepts, with_issuer_holder, set_issuer_name, with_issuer_name, named,
}

no_error : {E : Type 0} (o : Option E) → is_nil o ≡ true → o ≡ none
unfolding is_nil
no_error none q = refl
no_error (some e) q = ground (arith, q)

module _ {R E : Type 0} where
  -- tokenunion.NewFailOnError: the members are asked in turn, up to the first that accepts or fails.
  pub record IsUnion
      (union : List (Text → Holder → Verdict R E × Holder) → Text → Holder → Verdict R E × Holder)
      : Type 0 where
    pub refuses : (token : Text) (h : Holder) → accepts (union [] token h).0 ≡ false
    pub keeps : (token : Text) (h : Holder) → (union [] token h).1 ≡ h
    pub asks :
        (a : Text → Holder → Verdict R E × Holder)
        (rest : List (Text → Holder → Verdict R E × Holder)) (token : Text) (h : Holder)
        → union (a ∷ rest) token h ≡ (
            if (a token h).0.accepted || not (is_nil (a token h).0.error)
            then a token h
            else union rest token (a token h).1)

  module _
      (union : List (Text → Holder → Verdict R E × Holder) → Text → Holder → Verdict R E × Holder)
      (law : IsUnion union) where
    -- The answer of the union and what the holder has after it.
    unfoldable pub IsNamed :
        List (Text × (Text → Verdict R E)) → Text → Verdict R E × Holder → Type 0
    IsNamed issuers token (v, h) =
        ((accepts v ≡ false) × (h ≡ some []))
        ⊎ ((name : Text) × (inner : Text → Verdict R E) × Member (name, inner) issuers
            × (inner token ≡ v)
            × (v.accepted ≡ true)
            × (v.error ≡ none)
            × (h ≡ some name))

    -- Behind a union that asks its members in turn, up to the first that accepts or fails, the holder
    -- names an issuer only where the union accepted the token without an error: then it is the name of
    -- a configured issuer, whose own authenticator gave that very answer. Where it did not, the holder
    -- is empty.
    pub union-IsNamed :
        (issuers : List (Text × (Text → Verdict R E))) (token : Text)
        → IsNamed issuers token (union (named issuers) token with_issuer_holder)
    unfolding IsNamed named with_issuer_name set_issuer_name accepts
    union-IsNamed [] token = inl (law.refuses token (some []), law.keeps token (some []))
    union-IsNamed ((name, inner) ∷ issuers) token =
        subst (IsNamed ((name, inner) ∷ issuers) token)
          (sym (law.asks (with_issuer_name name inner) (named issuers) token (some [])))
          (step (inner token) refl (inner token).accepted (is_nil (inner token).error) refl refl
            (later (union (named issuers) token (some [])) (union-IsNamed issuers token)))
      where
        later :
            (r : Verdict R E × Holder)
            → IsNamed issuers token r
            → IsNamed ((name, inner) ∷ issuers) token r
        later r (inl e) = inl e
        later r (inr (n, i, m, e, a, q, h)) = inr (n, i, inr m, e, a, q, h)

        step :
            (v : Verdict R E)
            → inner token ≡ v
            → (a n : Bool) → v.accepted ≡ a
            → is_nil v.error ≡ n
            → IsNamed ((name, inner) ∷ issuers) token (union (named issuers) token (some []))
            → IsNamed ((name, inner) ∷ issuers) token (
                if a || not n
                then (v, if a && n then some name else some [])
                else union (named issuers) token (if a && n then some name else some []))
        step v e true true p q rest = inr (name, inner, inl refl, e, p, no_error v.error q, refl)
        step v e true false p q rest = inl (ground (arith, q), refl)
        step v e false true p q rest = rest
        step v e false false p q rest = inl (ground (arith, p), refl)
