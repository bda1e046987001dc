-- ===== src/Base/Trim.antt =====
-- strings.TrimSpace on the bytes of a UTF-8 text, with the white space of unicode.IsSpace.
use Prim.Native.Nat.{ℕ, zero, suc, ◌<◌}
use mathlib.Core.Path.{◌≡◌, refl, ap, sym, subst, ◌∙◌}
use mathlib.Core.Bool.{Bool, false, ◌&&◌, ◌||◌}
use mathlib.Core.Logic.{◌⊎◌, ◌≢◌, inl, inr}
use mathlib.Core.List.{
  [], ◌∷◌, ◌++◌, reverse, reverse-append, reverse-reverse, reverse-cons, append_assoc,
}
use native.Mathlib.Omega.{arith}
use kube_oidc_proxy.Base.Tests.{eqb, leb, if◌then◌else◌}
use kube_oidc_proxy.Base.Lists.{All, All-reverse}
use kube_oidc_proxy.Base.Strings.{Text, Lacks}

unfoldable pub is_space : ℕ → Bool
is_space c = (leb 9 c && leb c 13) || eqb c b' '

-- How many bytes the white-space rune has with which the text begins; 0 where there is none. The ones
-- outside ASCII are those of unicode.IsSpace, in UTF-8: U+0085 and U+00A0, U+1680, U+2000 to U+200A,
-- U+2028, U+2029, U+202F, U+205F and U+3000.
unfoldable pub is_wide_pair : ℕ → ℕ → Bool
is_wide_pair c d = eqb c 194 && (eqb d 133 || eqb d 160)

unfoldable pub is_wide_triple : ℕ → ℕ → ℕ → Bool
is_wide_triple c d e =
    (eqb c 225 && (eqb d 154 && eqb e 128))
    || ((eqb c 226
          && ((eqb d 128 && ((leb 128 e && leb e 138) || (eqb e 168 || (eqb e 169 || eqb e 175))))
              || (eqb d 129 && eqb e 159)))
        || (eqb c 227 && (eqb d 128 && eqb e 128)))

unfoldable pub front_space : Text → ℕ
front_space [] = 0
front_space (c ∷ []) = if is_space c then 1 else 0
front_space (c ∷ d ∷ []) = if is_space c then 1 else (if is_wide_pair c d then 2 else 0)
front_space (c ∷ d ∷ e ∷ s) =
    if is_space c
    then 1
    else (if is_wide_pair c d then 2 else (if is_wide_triple c d e then 3 else 0))

-- The same for the end of a text, given in reverse.
unfoldable pub back_space : Text → ℕ
back_space [] = 0
back_space (c ∷ []) = if is_space c then 1 else 0
back_space (c ∷ d ∷ []) = if is_space c then 1 else (if is_wide_pair d c then 2 else 0)
back_space (c ∷ d ∷ e ∷ s) =
    if is_space c
    then 1
    else (if is_wide_pair d c then 2 else (if is_wide_triple e d c then 3 else 0))

-- What is left once runs of `width` bytes are dropped, `n` bytes of such a run being still ahead.
unfoldable pub drop_runs : (Text → ℕ) → ℕ → Text → Text
drop_runs width n [] = []
drop_runs width (suc n) (c ∷ s) = drop_runs width n s
drop_runs width zero (c ∷ s) = elim (width (c ∷ s)) [ zero ↦ c ∷ s | suc n ↦ drop_runs width n s ]

unfoldable pub trim_left : Text → Text
trim_left s = drop_runs front_space 0 s

unfoldable pub trim_right : Text → Text
trim_right s = reverse (drop_runs back_space 0 (reverse s))

-- strings.TrimSpace
unfoldable pub trim_space : Text → Text
unfolding trim_left trim_right is_space
trim_space s = trim_right (trim_left s)

module _ (width : Text → ℕ) where
  drop_runs-All : (P : ℕ → Type 0) (n : ℕ) (s : Text) → All P s → All P (drop_runs width n s)
  unfolding drop_runs
  drop_runs-All P n [] h = h
  drop_runs-All P (suc n) (c ∷ s) (p, h) = drop_runs-All P n s h
  drop_runs-All P zero (c ∷ s) (p, h) = step (width (c ∷ s)) (λ n. drop_runs-All P n s h)
    where
      step :
          (w : ℕ)
          → ((n : ℕ) → All P (drop_runs width n s))
          → All P (elim w [ zero ↦ c ∷ s | suc n ↦ drop_runs width n s ])
      step zero f = (p, h)
      step (suc n) f = f n

  -- What is left is empty or does not begin with such a run.
  abbrev IsTrimmed : Text → Type 0
  IsTrimmed s = (s ≡ []) ⊎ (width s ≡ 0)

  drop_runs-IsTrimmed : (n : ℕ) (s : Text) → IsTrimmed (drop_runs width n s)
  unfolding drop_runs
  drop_runs-IsTrimmed n [] = inl refl
  drop_runs-IsTrimmed (suc n) (c ∷ s) = drop_runs-IsTrimmed n s
  drop_runs-IsTrimmed zero (c ∷ s) = step (width (c ∷ s)) refl (λ n. drop_runs-IsTrimmed n s)
    where
      step :
          (w : ℕ)
          → width (c ∷ s) ≡ w
          → ((n : ℕ) → IsTrimmed (drop_runs width n s))
          → IsTrimmed (elim w [ zero ↦ c ∷ s | suc n ↦ drop_runs width n s ])
      step zero e f = inr e
      step (suc n) e f = f n

  drop_runs_of_IsTrimmed : (s : Text) → IsTrimmed s → drop_runs width 0 s ≡ s
  unfolding drop_runs
  drop_runs_of_IsTrimmed [] h = refl
  drop_runs_of_IsTrimmed (c ∷ s) (inl e) = absurd (cons≢nil e)
    where
      cons≢nil : c ∷ s ≡ [] → ⊥
      cons≢nil e = cc
  drop_runs_of_IsTrimmed (c ∷ s) (inr e) = rw (e, drop_runs) refl

  drop_runs-suffix : (n : ℕ) (s : Text) → (front : Text) × (s ≡ front ++ drop_runs width n s)
  unfolding drop_runs
  drop_runs-suffix n [] = ([], refl)
  drop_runs-suffix (suc n) (c ∷ s) =
      let (front, e) = drop_runs-suffix n s in (c ∷ front, ap (λ t. c ∷ t) e)
  drop_runs-suffix zero (c ∷ s) = step (width (c ∷ s)) (λ n. drop_runs-suffix n s)
    where
      step :
          (w : ℕ)
          → ((n : ℕ) → (front : Text) × (s ≡ front ++ drop_runs width n s))
          → (front : Text) × (c ∷ s
              ≡ front ++ elim w [ zero ↦ c ∷ s | suc n ↦ drop_runs width n s ])
      step zero f = ([], refl)
      step (suc n) f = let (front, e) = f n in (c ∷ front, ap (λ t. c ∷ t) e)

-- A text that begins with no white space has no prefix that does.
front_space-prefix : (s t : Text) → front_space (s ++ t) ≡ 0 → (s ≡ []) ⊎ (front_space s ≡ 0)
unfolding front_space
front_space-prefix [] t h = inl refl
front_space-prefix (c ∷ []) [] h = inr h
front_space-prefix (c ∷ []) (d ∷ []) h = inr (ground (arith, h))
front_space-prefix (c ∷ []) (d ∷ e ∷ t) h = inr (ground (arith, h))
front_space-prefix (c ∷ d ∷ []) [] h = inr h
front_space-prefix (c ∷ d ∷ []) (e ∷ t) h = inr (ground (arith, h))
front_space-prefix (c ∷ d ∷ e ∷ s) t h = inr h

trim_right_of_IsTrimmed : (s : Text) → IsTrimmed back_space (reverse s) → trim_right s ≡ s
unfolding trim_right
trim_right_of_IsTrimmed s h =
    ap reverse (drop_runs_of_IsTrimmed back_space (reverse s) h) ∙ reverse-reverse s

trim_right_idempotent : (s : Text) → trim_right (trim_right s) ≡ trim_right s
unfolding trim_right
trim_right_idempotent s = trim_right_of_IsTrimmed (reverse rest) (
    subst (IsTrimmed back_space) (sym (reverse-reverse rest))
      (drop_runs-IsTrimmed back_space 0 (reverse s)))
  where
    rest : Text
    rest = drop_runs back_space 0 (reverse s)

trim_right-prefix : (s : Text) → (back : Text) × (s ≡ trim_right s ++ back)
unfolding trim_right
trim_right-prefix s =
    let (front, e) = drop_runs-suffix back_space 0 (reverse s) in
    (reverse front, sym (reverse-reverse s) ∙ ap reverse e ∙ reverse-append front _)

trim_left-trim_right : (s : Text) → trim_left (trim_right (trim_left s)) ≡ trim_right (trim_left s)
unfolding trim_left
trim_left-trim_right s =
    drop_runs_of_IsTrimmed front_space (trim_right left)
      (elim (drop_runs-IsTrimmed front_space 0 s) [
        | inl e ↦ inl (ap trim_right e ∙ nothing)
        | inr e ↦ front_space-prefix (trim_right left) back.0 (ap front_space (sym back.1) ∙ e)
      ])
  where
    left : Text
    left = drop_runs front_space 0 s

    back : (back : Text) × (left ≡ trim_right left ++ back)
    back = trim_right-prefix left

    nothing : trim_right [] ≡ []
    nothing = trim_right_of_IsTrimmed [] (inl refl)

pub trim_space_idempotent : (s : Text) → trim_space (trim_space s) ≡ trim_space s
unfolding trim_space
trim_space_idempotent s =
    ap trim_right (trim_left-trim_right s) ∙ trim_right_idempotent (trim_left s)

pub trim_space-Lacks : (b : ℕ) (s : Text) → Lacks b s → Lacks b (trim_space s)
unfolding trim_space trim_right trim_left
trim_space-Lacks b s h =
    All-reverse (λ c. c ≢ b) _
      (drop_runs-All back_space (λ c. c ≢ b) 0 (reverse (trim_left s))
        (All-reverse (λ c. c ≢ b) _ (drop_runs-All front_space (λ c. c ≢ b) 0 s h)))

-- An ASCII byte that is no white space.
abbrev pub IsVisible : ℕ → Type 0
IsVisible c = (is_space c ≡ false) × (c < 128)

-- ASCII text without white space.
abbrev pub IsSolid : Text → Type 0
IsSolid = All IsVisible

front_space_of_IsVisible : (c : ℕ) (s : Text) → IsVisible c → front_space (c ∷ s) ≡ 0
unfolding front_space is_wide_pair is_wide_triple
front_space_of_IsVisible c [] (p, q) = rw p refl
front_space_of_IsVisible c (d ∷ []) (p, q) = rw p (ground (arith, q))
front_space_of_IsVisible c (d ∷ e ∷ s) (p, q) = rw p (ground (arith, q))

back_space_of_IsVisible : (c : ℕ) (s : Text) → IsVisible c → back_space (c ∷ s) ≡ 0
unfolding back_space is_wide_pair is_wide_triple
back_space_of_IsVisible c [] (p, q) = rw p refl
back_space_of_IsVisible c (d ∷ []) (p, q) = rw p (ground (arith, q))
back_space_of_IsVisible c (d ∷ e ∷ s) (p, q) = rw p (ground (arith, q))

back_space-append :
    (s : Text) (c : ℕ) (t : Text) → IsSolid s → IsVisible c → back_space (s ++ c ∷ t) ≡ 0
back_space-append [] c t h p = back_space_of_IsVisible c t p
back_space-append (a ∷ s) c t (p, h) q = back_space_of_IsVisible a (s ++ c ∷ t) p

trim_right-append :
    (s : Text) (c : ℕ) (t : Text) → IsSolid (c ∷ t) → trim_right (s ++ c ∷ t) ≡ s ++ c ∷ t
trim_right-append s c t (p, h) = trim_right_of_IsTrimmed (s ++ c ∷ t) (
    inr (
      ap back_space turned
      ∙ back_space-append (reverse t) c (reverse s) (All-reverse IsVisible t h) p))
  where
    turned : reverse (s ++ c ∷ t) ≡ reverse t ++ c ∷ reverse s
    turned =
        reverse-append s (c ∷ t)
        ∙ ap (λ u. u ++ reverse s) (reverse-cons c t)
        ∙ append_assoc (reverse t) (c ∷ []) (reverse s)

trim_left_of_IsVisible : (c : ℕ) (s : Text) → IsVisible c → trim_left (c ∷ s) ≡ c ∷ s
unfolding trim_left
trim_left_of_IsVisible c s p =
    drop_runs_of_IsTrimmed front_space (c ∷ s) (inr (front_space_of_IsVisible c s p))

-- Nothing is trimmed from a text whose first byte and whose last word are solid.
pub trim_space-append :
    (d : ℕ) (s : Text) (c : ℕ) (t : Text)
    → IsVisible d
    → IsSolid (c ∷ t)
    → trim_space (d ∷ s ++ c ∷ t) ≡ d ∷ s ++ c ∷ t
unfolding trim_space
trim_space-append d s c t p h =
    ap trim_right (trim_left_of_IsVisible d (s ++ c ∷ t) p) ∙ trim_right-append (d ∷ s) c t h

pub trim_space_of_IsSolid : (s : Text) → IsSolid s → trim_space s ≡ s
unfolding trim_space trim_left drop_runs
trim_space_of_IsSolid [] h = trim_right_of_IsTrimmed [] (inl refl)
trim_space_of_IsSolid (c ∷ s) (p, h) =
    ap trim_right (trim_left_of_IsVisible c s p) ∙ trim_right-append [] c s (p, h)
