-- ===== src/Flag/Reading.antt =====
-- What the flag of pkg/util/flags reads, and that it reads back what it writes.
use kube_oidc_proxy.Base.{
  ℕ, Text, Option, none, List, [], ◌∷◌, ◌++◌, map, All, ◌≡◌, refl, sym, ◌∙◌, ap, ◌==◌, Lacks,
  lookup, values_of, split_on, split_on-append, split_on_of_Lacks, lookup-insert, if◌then◌else◌,
  append-nil, append_assoc, arith, eq_iff, Bool, true, false,
}
use kube_oidc_proxy.Base.Result.{Result, ok}
use kube_oidc_proxy.Flag.{
  Values, made, append_value, add_pair, add_pairs, set_fields, set, entry_records, records,
}

abbrev joined : Text × Text → Text
joined (k, v) = k ++ b'=' ∷ v

-- A key and a value that can stand in a pair.
abbrev IsPlain : Text × Text → Type 0
IsPlain (k, v) = Lacks b'=' k × Lacks b'=' v

-- The values that a list of pairs has for a key, in their order.
abbrev of_key : Text → List (Text × Text) → List Text
of_key j [] = []
of_key j ((k, v) ∷ ps) = let rest = of_key j ps in if k == j then v ∷ rest else rest

split-joined :
    (k v : Text) → Lacks b'=' k → Lacks b'=' v → split_on b'=' (k ++ b'=' ∷ v) ≡ k ∷ v ∷ []
split-joined k v p q =
    split_on-append b'=' k v ∙ ap2 (split_on_of_Lacks b'=' k p) (split_on_of_Lacks b'=' v q)
  where
    ap2 : {xs ys : List Text} → xs ≡ k ∷ [] → ys ≡ v ∷ [] → xs ++ ys ≡ k ∷ v ∷ []
    ap2 e f = rw e (ap (λ y. k ∷ y) f)

append_value-lookup :
    (j k v : Text) (m : Values)
    → values_of (lookup j (append_value k v m))
      ≡ values_of (lookup j m) ++ (if k == j then v ∷ [] else [])
unfolding append_value
append_value-lookup j k v m =
    rw (lookup-insert j k (values_of (lookup k m) ++ v ∷ []) m)
      (ground (arith, eq_iff k j, append-nil (values_of (lookup j m))))

added :
    (t : Bool) (v : Text) (xs rest : List Text)
    → (xs ++ (if t then v ∷ [] else [])) ++ rest ≡ xs ++ (if t then v ∷ rest else rest)
added true v xs rest = append_assoc xs (v ∷ []) rest
added false v xs rest = ap (λ y. y ++ rest) (append-nil xs)

module _ {E : Type 0} where
  -- What pairs add.
  add_pairs-joined :
      (ps : List (Text × Text)) (m : Values)
      → All IsPlain ps
      → let r = add_pairs {E = E} (map joined ps) m in
        (r.0 ≡ none)
        × ((j : Text) → values_of (lookup j r.1) ≡ values_of (lookup j m) ++ of_key j ps)
  unfolding add_pairs add_pair
  add_pairs-joined [] m h = (refl, λ j. sym (append-nil _))
  add_pairs-joined ((k, v) ∷ ps) m ((p, q), h) =
      let (done, found) = add_pairs-joined ps (append_value k v m) h in
      rw (split-joined k v p q, add_pairs)
        (
          done,
          λ j.
              found j
              ∙ ap (λ y. y ++ of_key j ps) (append_value-lookup j k v m)
              ∙ added (k == j) v (values_of (lookup j m)) (of_key j ps),
        )

-- A map, whose keys are distinct, and whose keys and values have no `=`.
abbrev pub IsKeyed : Values → Type 0
IsKeyed [] = Unit
IsKeyed ((k, vs) ∷ m) = (lookup k m ≡ none) × (All (λ v. IsPlain (k, v)) vs × IsKeyed m)

abbrev entry_pairs : Text → List Text → List (Text × Text)
entry_pairs k [] = []
entry_pairs k (v ∷ vs) = (k, v) ∷ entry_pairs k vs

abbrev pairs : Values → List (Text × Text)
pairs [] = []
pairs ((k, vs) ∷ m) = entry_pairs k vs ++ pairs m

entry_records-joined :
    (k : Text) (vs : List Text) (ps : List (Text × Text))
    → entry_records k vs ++ map joined ps ≡ map joined (entry_pairs k vs ++ ps)
unfolding entry_records
entry_records-joined k [] ps = refl
entry_records-joined k (v ∷ vs) ps = ap (λ y. joined (k, v) ∷ y) (entry_records-joined k vs ps)

records-joined : (m : Values) → records m ≡ map joined (pairs m)
unfolding records
records-joined [] = refl
records-joined ((k, vs) ∷ m) =
    ap (λ y. entry_records k vs ++ y) (records-joined m) ∙ entry_records-joined k vs (pairs m)

entry_pairs-plain :
    (k : Text) (vs : List Text) (ps : List (Text × Text))
    → All (λ v. IsPlain (k, v)) vs
    → All IsPlain ps
    → All IsPlain (entry_pairs k vs ++ ps)
entry_pairs-plain k [] ps h rest = rest
entry_pairs-plain k (v ∷ vs) ps (p, h) rest = (p, entry_pairs-plain k vs ps h rest)

pairs-plain : (m : Values) → IsKeyed m → All IsPlain (pairs m)
pairs-plain [] h = tt
pairs-plain ((k, vs) ∷ m) (p, (q, h)) = entry_pairs-plain k vs (pairs m) q (pairs-plain m h)

of_key-entry_pairs :
    (j k : Text) (vs : List Text) (ps : List (Text × Text))
    → of_key j (entry_pairs k vs ++ ps) ≡ (if k == j then vs ++ of_key j ps else of_key j ps)
of_key-entry_pairs j k [] ps = ground arith
of_key-entry_pairs j k (v ∷ vs) ps = ground (arith, of_key-entry_pairs j k vs ps)

of_key-pairs : (j : Text) (m : Values) → IsKeyed m → of_key j (pairs m) ≡ values_of (lookup j m)
unfolding lookup
of_key-pairs j [] h = refl
of_key-pairs j ((k, vs) ∷ m) (p, (q, h)) =
    of_key-entry_pairs j k vs (pairs m)
    ∙ ground (arith, eq_iff k j, of_key-pairs j m h, append-nil vs)

module _ {E : Type 0} where
  -- A text that the reader of encoding/csv splits into the records that String writes for a map, in
  -- which keys are distinct and neither keys nor values have an `=`, is accepted by Set, which then
  -- has for every key the values that it had before, followed by those of that map in their order.
  pub set-records :
      (read : Text → Result E (List Text)) (c : ℕ) (text : Text) (m : Values) (p : Option Values)
      → IsKeyed m
      → read (c ∷ text) ≡ ok (records m)
      → let r = set read (c ∷ text) p in
        (r.0 ≡ none)
        × ((j : Text)
            → values_of (lookup j r.1) ≡ values_of (lookup j (made p)) ++ values_of (lookup j m))
  unfolding set set_fields
  set-records read c text m p h e =
      let (done, found) = add_pairs-joined {E = E} (pairs m) (made p) (pairs-plain m h) in
      rw e (
        rw (records-joined m)
          (done, λ j. found j ∙ ap (λ y. values_of (lookup j (made p)) ++ y) (of_key-pairs j m h)))
