-- ===== src/Token/Laws.antt =====
-- The tokens that ParseFromRequest of pkg/util/token finds.
use kube_oidc_proxy.Base.{
  subst, ◌∙◌, some_inj, ℕ, Text, codes, ◌==◌, eq_refl, none, some, List, [], ◌∷◌, ◌++◌, ◌≡◌, ◌≢◌,
  refl, ap, arith, All, Lacks, to_lower, trim_space, is_space, IsSolid, split_on, split_on-append,
  split_on_of_Lacks, split_on-Lacks, trim_space-append, Bool-cases, inl, inr,
}
use kube_oidc_proxy.Header.{Header, get}
use kube_oidc_proxy.Token.{from_parts, parse_authorization, parse_from_request}

IsSolid-Lacks : (s : Text) → IsSolid s → Lacks b' ' s
unfolding is_space
IsSolid-Lacks [] h = tt
IsSolid-Lacks (c ∷ s) ((p, q), h) = ground (arith, p, IsSolid-Lacks s h)

append-cons : (s t : Text) → s ++ b' ' ∷ t ≡ (s ++ b' ' ∷ []) ++ t
append-cons [] t = refl
append-cons (a ∷ s) t = ap (λ u. a ∷ u) (append-cons s t)

from_parts_sound :
    (ps : List Text) (t : Text)
    → All (Lacks b' ') ps
    → from_parts ps ≡ some t
    → (t ≢ []) × Lacks b' ' t
unfolding from_parts
from_parts_sound [] t h e = cc
from_parts_sound (s ∷ []) t h e = cc
from_parts_sound (s ∷ [] ∷ ps) t h e = ground arith
from_parts_sound (s ∷ (c ∷ w) ∷ ps) t (_, (k, _)) e =
    elim (Bool-cases (to_lower s == codes "bearer")) [
      | inl bearer ↦
          let found : c ∷ w ≡ t = some_inj (rw bearer at e) in
          (subst (λ x. x ≢ []) found (λ z. cc), subst (Lacks b' ') found k)
      | inr other ↦ absurd (none≢some (rw other at e))
    ]
  where
    none≢some : none ≡ some t → ⊥
    none≢some z = cc

parse_authorization_sound : (s t : Text) → parse_authorization s ≡ some t → (t ≢ []) × Lacks b' ' t
unfolding parse_authorization
parse_authorization_sound [] t e = ground arith
parse_authorization_sound (c ∷ s) t e = from_parts_sound _ t (split_on-Lacks b' ' (c ∷ s)) e

-- A token that is found is not empty and holds no blank.
pub parse_from_request_sound :
    (h : Header) (t : Text) → parse_from_request (some h) ≡ some t → (t ≢ []) × Lacks b' ' t
unfolding parse_from_request
parse_from_request_sound h t e = parse_authorization_sound _ t e

-- A header that is a scheme, spelled bearer in any case, a blank and a token of ASCII bytes without
-- white space yields that token.
pub parse_from_request-bearer :
    (h : Header) (d : ℕ) (scheme : Text) (c : ℕ) (token : Text)
    → to_lower (d ∷ scheme) ≡ codes "bearer"
    → IsSolid (d ∷ scheme)
    → IsSolid (c ∷ token)
    → get h (codes "Authorization") ≡ d ∷ scheme ++ b' ' ∷ c ∷ token
    → parse_from_request (some h) ≡ some (c ∷ token)
unfolding parse_from_request parse_authorization from_parts
parse_from_request-bearer h d scheme c token lowered clean solid sent =
    rw sent (rw trimmed (rw pieces (rw (lowered, eq_refl (codes "bearer")) refl)))
  where
    whole : Text
    whole = d ∷ scheme ++ b' ' ∷ c ∷ token

    trimmed : trim_space whole ≡ whole
    trimmed =
        rw (append-cons scheme (c ∷ token))
          (trim_space-append d (scheme ++ b' ' ∷ []) c token clean.0 solid)

    pieces : split_on b' ' whole ≡ (d ∷ scheme) ∷ (c ∷ token) ∷ []
    pieces =
        split_on-append b' ' (d ∷ scheme) (c ∷ token)
        ∙ rw (split_on_of_Lacks b' ' (d ∷ scheme) (IsSolid-Lacks (d ∷ scheme) clean))
            (rw (split_on_of_Lacks b' ' (c ∷ token) (IsSolid-Lacks (c ∷ token) solid)) refl)
