-- ===== src/AccessLog/Clean.antt =====
-- What pkg/proxy/logging/accesslog.go lets into a record.
use kube_oidc_proxy.Base.{
  ℕ, suc, Text, codes, Bool, true, false, not, ◌&&◌, Option, none, some, List, [], ◌∷◌, ◌≡◌, refl,
  ap, ◌∙◌, sym, subst, arith, inl, inr, All, any, if◌then◌else◌, ◌==◌, eq_iff, Bool-cases, lookup,
  lookup-insert, Holds, insert-Holds,
}
use kube_oidc_proxy.Sanitize.{sanitize, sanitize_list, is_control, is_line_space, max_identity}
use kube_oidc_proxy.Sanitize.Laws.{IsClean, sanitize-IsClean, bound_lem}
use kube_oidc_proxy.AccessLog.{loggable_extra_keys, is_loggable, loggable_extras}

sanitize_list-IsClean : (vs : List Text) → All IsClean (sanitize_list vs)
unfolding sanitize_list
sanitize_list-IsClean [] = tt
sanitize_list-IsClean (v ∷ vs) = ((bound_lem v max_identity).0, sanitize_list-IsClean vs)

abbrev pub is_claim : Text × List Text → Bool
is_claim (k, vs) = not (is_loggable k)

abbrev pub number_of : (Text × List Text → Bool) → List (Text × List Text) → ℕ
number_of p [] = 0
number_of p (e ∷ es) = let rest = number_of p es in if p e then suc rest else rest

any_eq-All :
    (P : Text → Type 0) (k : Text) (js : List Text) → any (λ j. j == k) js ≡ true → All P js → P k
any_eq-All P k [] h p = absurd (not_true h)
  where
    not_true : false ≡ true → ⊥
    not_true e = cc
any_eq-All P k (j ∷ js) h (p, ps) = elim (Bool-cases (j == k)) [
  | inl same ↦ subst P ((eq_iff j k).0 same) p
  | inr other ↦ any_eq-All P k js (ground (arith, h, other)) ps
]

keys-clean : All (λ k. sanitize k ≡ k) loggable_extra_keys
unfolding loggable_extra_keys sanitize codes is_line_space is_control
keys-clean = (refl, (refl, (refl, (refl, tt))))

-- The keys that are logged hold no control character, so sanitising one changes nothing.
sanitize_of_is_loggable : (k : Text) → is_loggable k ≡ true → sanitize k ≡ k
unfolding is_loggable
sanitize_of_is_loggable k h = any_eq-All (λ j. sanitize j ≡ j) k loggable_extra_keys h keys-clean

abbrev pub map_values : Option (List Text) → Option (List Text)
map_values none = none
map_values (some vs) = some (sanitize_list vs)

merged :
    (own t l : Bool)
    → (t ≡ true → l ≡ own)
    → (v : List Text) (old found : Option (List Text))
    → old ≡ (if l then map_values found else none)
    → (if own && t then some (sanitize_list v) else old)
      ≡ (if l then map_values (if t then some v else found) else none)
merged true true l f v old found h = rw (f refl) refl
merged true false l f v old found h = h
merged false true l f v old found h = h ∙ (rw (f refl) refl)
merged false false l f v old found h = h

-- Of the extras, exactly those under the allowed keys are logged, each under its own key with its
-- values sanitised, and the number reported as omitted is that of the others.
pub loggable_extras_lem :
    (extra : List (Text × List Text))
    → let (safe, omitted) = loggable_extras extra in
      ((k : Text) → lookup k safe ≡ (if is_loggable k then map_values (lookup k extra) else none))
      × (omitted ≡ number_of is_claim extra)
      × Holds (λ k vs. IsClean k × All IsClean vs) safe
unfolding loggable_extras lookup
loggable_extras_lem [] = ((λ k. ground arith), refl, tt)
loggable_extras_lem ((j, v) ∷ extra) =
    let (found, number, clean) = loggable_extras_lem extra in
    elim (Bool-cases (is_loggable j)) [
      | inl own ↦ rw own (
        (λ k.
            lookup-insert k (sanitize j) (sanitize_list v) (loggable_extras extra).0
            ∙ ap
                (λ i. if i == k then some (sanitize_list v) else lookup k (loggable_extras extra).0)
                (sanitize_of_is_loggable j own)
            ∙ merged true (j == k) (is_loggable k) (λ e. key k j true own e) v _ _ (found k)),
        number,
        insert-Holds _ (sanitize j) (sanitize_list v) _
            (sanitize-IsClean j, sanitize_list-IsClean v) clean,
      )
      | inr claim ↦ rw claim (
        (λ k. merged false (j == k) (is_loggable k) (λ e. key k j false claim e) v _ _ (found k)),
        ap suc number,
        clean,
      )
    ]
  where
    key : (k j : Text) (own : Bool) → is_loggable j ≡ own → (j == k) ≡ true → is_loggable k ≡ own
    key k j own h e = sym (ap is_loggable ((eq_iff j k).0 e)) ∙ h
