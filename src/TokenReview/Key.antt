-- ===== src/TokenReview/Key.antt =====
-- The bytes that cacheKey of pkg/proxy/tokenreview/tokenreview.go hashes.
use Prim.Native.Nat.{zero, ◌/◌, ◌%◌, ◌<◌}
use kube_oidc_proxy.Base.{
  ℕ, suc, Text, List, [], ◌∷◌, ◌++◌, ◌≡◌, refl, sym, ◌∙◌, arith, length, length-append,
  append_assoc, All,
}
use kube_oidc_proxy.TokenReview.{put_uint, length_prefixed, length_prefixed_all, key_message}

cons_inj : {a b : ℕ} {s t : List ℕ} → ◌≡◌ {A = List ℕ} (a ∷ s) (b ∷ t) → (a ≡ b) × (s ≡ t)
cons_inj e = (cc, cc)

nil_cons : {b : ℕ} {t : List ℕ} → ◌≡◌ {A = List ℕ} [] (b ∷ t) → ⊥
nil_cons e = cc

-- Two concatenations with first parts of one length agree part by part.
append_inj : (s t u v : List ℕ) → length s ≡ length t → s ++ u ≡ t ++ v → (s ≡ t) × (u ≡ v)
append_inj [] [] u v l e = (refl, e)
append_inj [] (b ∷ t) u v l e = absurd (omega (arith, l))
append_inj (a ∷ s) [] u v l e = absurd (omega (arith, l))
append_inj (a ∷ s) (b ∷ t) u v l e =
    let (heads, tails) = cons_inj e in
    let (front, back) = append_inj s t u v (omega (arith, l)) tails in (cc, back)

length-put_uint : (k n : ℕ) → length (put_uint k n) ≡ k
unfolding put_uint
length-put_uint zero n = refl
length-put_uint (suc k) n =
    length-append (put_uint k (n / 256)) (n % 256 ∷ []) ∙ omega (arith, length-put_uint k (n / 256))

-- The number fits in `k` bytes.
abbrev Fits : ℕ → ℕ → Type 0
Fits zero n = n ≡ 0
Fits (suc k) n = Fits k (n / 256)

put_uint_inj : (k m n : ℕ) → Fits k m → Fits k n → put_uint k m ≡ put_uint k n → m ≡ n
unfolding put_uint
put_uint_inj zero m n h i e = h ∙ sym i
put_uint_inj (suc k) m n h i e =
    let (high, low) =
      append_inj (put_uint k (m / 256)) (put_uint k (n / 256)) _ _
        (length-put_uint k (m / 256) ∙ sym (length-put_uint k (n / 256))) e in
    let quotients : m / 256 ≡ n / 256 = put_uint_inj k (m / 256) (n / 256) h i high in
    let remainders : m % 256 ≡ n % 256 = (cons_inj low).0 in omega (arith, quotients, remainders)

-- A Go string or slice has fewer than 2 ^ 63 elements.
abbrev pub IsShort {ℓ} : {A : Type ℓ} → List A → Type 0
IsShort xs = length xs < 9223372036854775808

short-Fits : (n : ℕ) → n < 9223372036854775808 → Fits 8 n
short-Fits n h = omega (arith, h)

-- A length-prefixed text can be taken off the front.
length_prefixed_inj :
    (s t : Text) (u v : List ℕ)
    → IsShort s
    → IsShort t
    → length_prefixed s ++ u ≡ length_prefixed t ++ v
    → (s ≡ t) × (u ≡ v)
unfolding length_prefixed
length_prefixed_inj s t u v h i e =
    let (sizes, rest) =
      append_inj (put_uint 8 (length s)) (put_uint 8 (length t)) (s ++ u) (t ++ v)
        (length-put_uint 8 (length s) ∙ sym (length-put_uint 8 (length t)))
        (sym (append_assoc (put_uint 8 (length s)) s u)
          ∙ e
          ∙ append_assoc (put_uint 8 (length t)) t v) in
    append_inj s t u v
      (put_uint_inj 8 (length s) (length t) (short-Fits (length s) h) (short-Fits (length t) i)
        sizes)
      rest

length_prefixed_all_inj :
    (ss ts : List Text)
    → All IsShort ss
    → All IsShort ts
    → length ss ≡ length ts
    → length_prefixed_all ss ≡ length_prefixed_all ts
    → ss ≡ ts
unfolding length_prefixed_all
length_prefixed_all_inj [] [] h i l e = refl
length_prefixed_all_inj [] (t ∷ ts) h i l e = absurd (omega (arith, l))
length_prefixed_all_inj (s ∷ ss) [] h i l e = absurd (omega (arith, l))
length_prefixed_all_inj (s ∷ ss) (t ∷ ts) (h, hs) (i, is) l e =
    let (first, rest) = length_prefixed_inj s t _ _ h i e in
    let others : ss ≡ ts = length_prefixed_all_inj ss ts hs is (omega (arith, l)) rest in cc

-- Two pairs of a token and its audiences, of the sizes that Go strings and slices can have, hash the
-- same bytes only if they are the same.
pub key_message_inj :
    (token token' : Text) (audiences audiences' : List Text)
    → IsShort token
    → IsShort token'
    → IsShort audiences
    → IsShort audiences'
    → All IsShort audiences
    → All IsShort audiences'
    → key_message token audiences ≡ key_message token' audiences'
    → (token ≡ token') × (audiences ≡ audiences')
unfolding key_message
key_message_inj token token' audiences audiences' h h' i i' j j' e =
    let (tokens, rest) =
      length_prefixed_inj token token'
        (put_uint 8 (length audiences) ++ length_prefixed_all audiences)
        (put_uint 8 (length audiences') ++ length_prefixed_all audiences') h h' e in
    let (sizes, bytes) =
      append_inj (put_uint 8 (length audiences)) (put_uint 8 (length audiences')) _ _
        (length-put_uint 8 (length audiences) ∙ sym (length-put_uint 8 (length audiences'))) rest in
    let same : length audiences ≡ length audiences' =
      put_uint_inj 8 (length audiences) (length audiences') (short-Fits (length audiences) i)
        (short-Fits (length audiences') i') sizes in
    (tokens, length_prefixed_all_inj audiences audiences' j j' same bytes)
