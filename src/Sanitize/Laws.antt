-- ===== src/Sanitize/Laws.antt =====
-- The values and lists that pkg/logging/sanitize.go bounds.
use kube_oidc_proxy.Base.{
  ℕ, zero, suc, ◌+◌, ◌≤◌, ◌<◌, Text, Bool, true, false, List, [], ◌∷◌, ◌≡◌, refl, ◌∙◌, arith, subst,
  ◌↔◌, ◌⊎◌, inl, inr, length, take, map, All, if◌then◌else◌, leb,
}
use kube_oidc_proxy.Sanitize.{
  is_control, is_line_space, sanitize, bound, max_identity, kept, bounded_list,
}

abbrev pub IsClean : Text → Type 0
IsClean = All (λ r. is_control r ≡ false)

pub sanitize-IsClean : (s : Text) → IsClean (sanitize s)
unfolding sanitize is_control
sanitize-IsClean [] = tt
sanitize-IsClean (r ∷ s) = ground (arith, sanitize-IsClean s)

sanitize_of_IsClean : (s : Text) → IsClean s → sanitize s ≡ s
unfolding sanitize is_control is_line_space
sanitize_of_IsClean [] h = refl
sanitize_of_IsClean (r ∷ s) (p, h) = ground (arith, sanitize_of_IsClean s h)

take-IsClean : (n : ℕ) (s : Text) → IsClean s → IsClean (take n s)
take-IsClean zero s h = tt
take-IsClean (suc n) [] h = tt
take-IsClean (suc n) (r ∷ s) (p, h) = (p, take-IsClean n s h)

length-take-le {ℓ} : {A : Type ℓ} (n : ℕ) (s : List A) → length (take n s) ≤ n
length-take-le zero s = omega arith
length-take-le (suc n) [] = omega arith
length-take-le (suc n) (r ∷ s) = omega (arith, length-take-le n s)

length-take_of_le {ℓ} : {A : Type ℓ} (n : ℕ) (s : List A) → n ≤ length s → length (take n s) ≡ n
length-take_of_le zero s h = omega arith
length-take_of_le (suc n) [] h = omega arith
length-take_of_le (suc n) (r ∷ s) h = omega (arith, length-take_of_le n s)

bound-IsClean : (s : Text) (max : ℕ) → IsClean (bound s max)
unfolding bound
bound-IsClean s max =
    ground (arith, sanitize-IsClean s, take-IsClean max (sanitize s) (sanitize-IsClean s))

length-bound : (s : Text) (max : ℕ) → 0 < max → length (bound s max) ≤ max
unfolding bound
length-bound s max h = ground (arith, length-take-le max (sanitize s))

bound_of_IsClean : (s : Text) (max : ℕ) → IsClean s → (0 < max → length s ≤ max) → bound s max ≡ s
unfolding bound
bound_of_IsClean s max clean fits = rw (sanitize_of_IsClean s clean) (short (leb max 0) refl)
  where
    short :
        (t : Bool)
        → leb max 0 ≡ t
        → (if t then s else (if leb (length s) max then s else take max s)) ≡ s
    short true e = refl
    short false e = ground (arith, fits (ground arith))

-- A bounded value holds no control character and has at most `max` runes where `max` is positive. A
-- value is left as it is exactly where it is of that kind; so bounding twice is bounding once.
pub bound_lem :
    (s : Text) (max : ℕ)
    → IsClean (bound s max)
      × (0 < max → length (bound s max) ≤ max)
      × (bound (bound s max) max ≡ bound s max)
      × ((bound s max ≡ s) ↔ (IsClean s × ((max ≡ 0) ⊎ (length s ≤ max))))
bound_lem s max = (
  bound-IsClean s max,
  length-bound s max,
  bound_of_IsClean (bound s max) max (bound-IsClean s max) (length-bound s max),
  (changed, λ (clean, fits). bound_of_IsClean s max clean (short fits)),
)
  where
    short : (max ≡ 0) ⊎ (length s ≤ max) → 0 < max → length s ≤ max
    short (inl none) h = omega (arith, none, h)
    short (inr fits) h = fits

    limit : (0 < max → length s ≤ max) → (n : ℕ) → max ≡ n → (max ≡ 0) ⊎ (length s ≤ max)
    limit f zero e = inl e
    limit f (suc n) e = inr (f (omega (arith, e)))

    changed : bound s max ≡ s → IsClean s × ((max ≡ 0) ⊎ (length s ≤ max))
    changed e = (
      subst IsClean e (bound-IsClean s max),
      limit (subst (λ t. 0 < max → length t ≤ max) e (length-bound s max)) max refl,
    )

length-map {ℓ κ} :
    {A : Type ℓ} {B : Type κ} (f : A → B) (xs : List A) → length (map f xs) ≡ length xs
length-map f [] = refl
length-map f (x ∷ xs) = omega (arith, length-map f xs)

All-map :
    (xs : List Text) → All (λ v. IsClean v × (length v ≤ 256)) (map (λ x. bound x max_identity) xs)
All-map [] = tt
All-map (x ∷ xs) = ((bound-IsClean x 256, length-bound x 256 (omega arith)), All-map xs)

kept-le : (len max : ℕ) → kept len max ≤ len
kept-le len max = ground arith

kept-le-max : (len max : ℕ) → 0 < max → kept len max ≤ max
kept-le-max len max h = ground arith

length-kept :
    (vs : List Text) (max : ℕ)
    → length (map (λ x. bound x max_identity) (take (kept (length vs) max) vs))
      ≡ kept (length vs) max
length-kept vs max =
    length-map _ (take (kept (length vs) max) vs) ∙ length-take_of_le _ vs (kept-le (length vs) max)

-- Every kept element is clean and has at most 256 runes, at most `max` are kept where `max` is
-- positive, and the kept and the omitted ones are all there were.
pub bounded_list_lem :
    (vs : List Text) (max : ℕ)
    → let (out, omitted) = bounded_list vs max in
      All (λ v. IsClean v × (length v ≤ 256)) out
      × (0 < max → length out ≤ max)
      × (length out + omitted ≡ length vs)
unfolding bounded_list
bounded_list_lem [] max = ground arith
bounded_list_lem (v ∷ vs) max = (
  All-map (take (kept (length (v ∷ vs)) max) (v ∷ vs)),
  λ h. rw (length-kept (v ∷ vs) max) (kept-le-max (length (v ∷ vs)) max h),
  rw (length-kept (v ∷ vs) max) (omega (arith, kept-le (length (v ∷ vs)) max)),
)
