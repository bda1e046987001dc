-- ===== src/Base/Strings.antt =====
-- Go strings as lists of bytes, with the functions of package strings that the proxy calls.
-- `to_lower` maps the ASCII letters: the names and schemes that the proxy compares are ASCII.
use Prim.Native.Nat.{ℕ, ◌+◌}
use Prim.Native.Char.{code}
use Prim.Native.String.{String}
use mathlib.Core.Path.{◌≡◌, refl}
use mathlib.Core.Bool.{Bool, true, false, ◌&&◌, ◌||◌}
use mathlib.Core.Logic.{◌≢◌, ◌↔◌}
use mathlib.Core.List.{List, [], ◌∷◌, ◌++◌, map}
use native.Mathlib.Omega.{arith}
use kube_oidc_proxy.Base.Tests.{eqb, leb, if◌then◌else◌}
use kube_oidc_proxy.Base.Lists.{All}

abbrev pub Text : Type 0
Text = List ℕ

-- The bytes of a literal.
unfoldable pub codes : String → Text
codes String.[] = []
codes (String.◌∷◌ c s) = code c ∷ codes s

infix 50 ◌==◌
unfoldable pub ◌==◌ : Text → Text → Bool
[] == [] = true
[] == (b ∷ t) = false
(a ∷ s) == [] = false
(a ∷ s) == (b ∷ t) = eqb a b && s == t

pub eq_refl : (s : Text) → (s == s) ≡ true
unfolding ◌==◌
eq_refl [] = refl
eq_refl (a ∷ s) = ground (arith, eq_refl s)

pub eq_iff : (s t : Text) → ((s == t) ≡ true) ↔ (s ≡ t)
unfolding ◌==◌
eq_iff [] [] = ground arith
eq_iff [] (b ∷ t) = ground arith
eq_iff (a ∷ s) [] = ground arith
eq_iff (a ∷ s) (b ∷ t) = ground (arith, eq_iff s t)

abbrev pub is_empty : Text → Bool
is_empty [] = true
is_empty (a ∷ s) = false

pub is_empty_iff : (s : Text) → (is_empty s ≡ true) ↔ (s ≡ [])
is_empty_iff [] = ground arith
is_empty_iff (a ∷ s) = ground arith

-- strings.HasPrefix
unfoldable pub has_prefix : Text → Text → Bool
has_prefix s [] = true
has_prefix [] (b ∷ p) = false
has_prefix (a ∷ s) (b ∷ p) = eqb a b && has_prefix s p

pub has_prefix-append : (p s : Text) → has_prefix (p ++ s) p ≡ true
unfolding has_prefix
has_prefix-append [] s = refl
has_prefix-append (a ∷ p) s = ground (arith, has_prefix-append p s)

-- strings.Contains
unfoldable pub has_substring : Text → Text → Bool
has_substring [] t = has_prefix [] t
has_substring (a ∷ s) t = has_prefix (a ∷ s) t || has_substring s t

unfoldable pub lower : ℕ → ℕ
lower c = if leb b'A' c && leb c b'Z' then c + 32 else c

-- strings.ToLower
unfoldable pub to_lower : Text → Text
unfolding lower
to_lower s = map lower s

-- No byte of the text is `b`.
abbrev pub Lacks : ℕ → Text → Type 0
Lacks b = All (λ c. c ≢ b)

-- One step of `split_on`, from the right: a separator opens a piece.
unfoldable pub push_piece : Bool → ℕ → List Text → List Text
push_piece true c ps = [] ∷ ps
push_piece false c [] = (c ∷ []) ∷ []
push_piece false c (p ∷ ps) = (c ∷ p) ∷ ps

-- strings.Split by one byte
unfoldable pub split_on : ℕ → Text → List Text
unfolding push_piece
split_on b [] = [] ∷ []
split_on b (c ∷ s) = push_piece (eqb c b) c (split_on b s)

push_piece-Lacks :
    (b c : ℕ) (ps : List Text) → All (Lacks b) ps → All (Lacks b) (push_piece (eqb c b) c ps)
unfolding push_piece
push_piece-Lacks b c [] h = ground arith
push_piece-Lacks b c (p ∷ ps) h = ground arith

pub split_on-Lacks : (b : ℕ) (s : Text) → All (Lacks b) (split_on b s)
unfolding split_on
split_on-Lacks b [] = (tt, tt)
split_on-Lacks b (c ∷ s) = push_piece-Lacks b c (split_on b s) (split_on-Lacks b s)

pub split_on_of_Lacks : (b : ℕ) (s : Text) → Lacks b s → split_on b s ≡ s ∷ []
unfolding split_on
split_on_of_Lacks b [] h = refl
split_on_of_Lacks b (c ∷ s) (p, h) = ground (arith, split_on_of_Lacks b s h)

split_on-ne-nil : (b : ℕ) (s : Text) → split_on b s ≢ []
unfolding split_on
split_on-ne-nil b [] h = cc
split_on-ne-nil b (c ∷ s) h = push_ne (eqb c b) c (split_on b s) h
  where
    push_ne : (t : Bool) (c : ℕ) (ps : List Text) → push_piece t c ps ≡ [] → ⊥
    push_ne true c ps h = cc
    push_ne false c [] h = cc
    push_ne false c (p ∷ ps) h = cc

push_piece-append :
    (t : Bool) (c : ℕ) (ps qs : List Text)
    → ps ≢ []
    → push_piece t c (ps ++ qs) ≡ push_piece t c ps ++ qs
unfolding push_piece
push_piece-append true c ps qs h = refl
push_piece-append false c [] qs h = absurd (h refl)
push_piece-append false c (p ∷ ps) qs h = refl

-- A text joined by the separator splits into the pieces of its parts.
pub split_on-append : (b : ℕ) (s t : Text) → split_on b (s ++ b ∷ t) ≡ split_on b s ++ split_on b t
unfolding split_on
split_on-append b [] t = ground arith
split_on-append b (c ∷ s) t =
    rw (split_on-append b s t) (push_piece-append _ c (split_on b s) _ (split_on-ne-nil b s))
