-- ===== src/Examples/Maps.antt =====
-- A flag of two keys, read by a reader that splits at commas.
use kube_oidc_proxy.Base.{
  Text, none, codes, List, [], ◌∷◌, ◌++◌, ◌≡◌, refl, lookup, values_of, ◌==◌, split_on, arith,
}
use kube_oidc_proxy.Base.Result.{Result, ok}
use kube_oidc_proxy.Flag.{Values, made, entry_records, records, set}
use kube_oidc_proxy.Flag.Reading.{IsKeyed, set-records}

unfoldable read_fields : Text → Result Text (List Text)
read_fields text = ok (split_on b',' text)

abbrev extras : Values
extras = (codes "a", codes "-7" ∷ codes "3" ∷ []) ∷ (codes "b", codes "2" ∷ []) ∷ []

extras-IsKeyed : IsKeyed extras
unfolding lookup codes ◌==◌
extras-IsKeyed = (refl, (ground arith, (refl, (ground arith, tt))))

read_extras : read_fields (b'a' ∷ codes "=-7,a=3,b=2") ≡ ok (records extras)
unfolding read_fields split_on records entry_records codes
read_extras = refl

set-records_example :
    let r = set read_fields (b'a' ∷ codes "=-7,a=3,b=2") none in
    (r.0 ≡ none)
    × ((j : Text)
        → values_of (lookup j r.1)
          ≡ values_of (lookup j (made none)) ++ values_of (lookup j extras))
set-records_example =
    set-records read_fields b'a' (codes "=-7,a=3,b=2") extras none extras-IsKeyed read_extras
