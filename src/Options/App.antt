-- ===== src/Options/App.antt =====
-- The numbers and times among the options of cmd/app/options/options.go.
use kube_oidc_proxy.Base.{
  ℕ, zero, suc, Text, Bool, true, false, not, ◌&&◌, ◌||◌, List, [], ◌∷◌, ◌++◌, ◌≡◌, refl, ◌↔◌, ◌≢◌,
  arith, length, ltb,
}
use kube_oidc_proxy.Options.{
  ℤ, pos, negsuc, is_positive, is_negative, is_same, AppOptions, OptionError, Env, error_if,
  foreign_errors, validate_app,
}

pub not_nil {ℓ} : {A : Type ℓ} {x : A} {xs : List A} → x ∷ xs ≡ [] → ⊥
not_nil h = cc

pub ends : true ≡ false → ⊥
ends e = cc

pub starts : false ≡ true → ⊥
starts e = cc

pub append_iff {ℓ} :
    {P Q : Type ℓ} (xs ys : List OptionError)
    → (xs ≡ []) ↔ P
    → (ys ≡ []) ↔ Q
    → (xs ++ ys ≡ []) ↔ (P × Q)
append_iff [] ys f g = (λ h. (f.0 refl, g.0 h), λ h. g.1 h.1)
append_iff (x ∷ xs) ys f g = (λ h. absurd (not_nil h), λ h. absurd (not_nil (f.1 h.0)))

pub error_if_iff {ℓ} :
    {P : Type ℓ} (b : Bool) (e : OptionError) → (b ≡ false) ↔ P → (error_if b e ≡ []) ↔ P
unfolding error_if
error_if_iff true e f = (λ h. absurd (not_nil h), λ h. absurd (ends (f.1 h)))
error_if_iff false e f = (λ h. f.0 refl, λ h. refl)

pub foreign_errors_iff : (es : List Text) → (foreign_errors es ≡ []) ↔ (es ≡ [])
unfolding foreign_errors
foreign_errors_iff [] = (λ h. refl, λ h. refl)
foreign_errors_iff (e ∷ es) = (λ h. absurd (not_nil h), λ h. absurd (not_nil h))

abbrev pub IsPositive : ℤ → Type 0
IsPositive z = (n : ℕ) × (z ≡ pos (suc n))

abbrev pub IsNatural : ℤ → Type 0
IsNatural z = (n : ℕ) × (z ≡ pos n)

is_positive_iff : (z : ℤ) → (not (is_positive z) ≡ false) ↔ IsPositive z
unfolding is_positive
is_positive_iff (pos zero) = ground arith
is_positive_iff (pos (suc n)) = ground arith
is_positive_iff (negsuc n) = ground arith

is_negative_iff : (z : ℤ) → (is_negative z ≡ false) ↔ IsNatural z
unfolding is_negative
is_negative_iff (pos n) = ground arith
is_negative_iff (negsuc n) = ground arith

pub is_same_iff : (y z : ℤ) → (is_same y z ≡ false) ↔ (y ≢ z)
unfolding is_same
is_same_iff (pos n) (pos m) = ground arith
is_same_iff (negsuc n) (negsuc m) = ground arith
is_same_iff (pos n) (negsuc m) = ground arith
is_same_iff (negsuc n) (pos m) = ground arith

-- What the application's options must be.
abbrev pub IsAppAccepted : AppOptions → Type 0
IsAppAccepted a =
    (a.disable_impersonation ≡ true
      → (a.client_ip_extra_user_header ≡ false) × (a.extra_user_headers ≡ []))
    × ((a.token_passthrough ≡ true → IsPositive a.passthrough_timeout)
        × (IsNatural a.cache_success_ttl
            × (IsNatural a.cache_failure_ttl
                × (IsPositive a.sar_timeout
                    × (IsNatural a.sar_allow_cache_ttl
                        × (IsNatural a.sar_deny_cache_ttl
                            × IsPositive a.max_impersonation_header_values))))))

extra_iff :
    (d c : Bool) (hs : List (Text × List Text))
    → ((d && (c || ltb 0 (length hs))) ≡ false) ↔ (d ≡ true → (c ≡ false) × (hs ≡ []))
extra_iff d c [] = ground arith
extra_iff d c (h ∷ hs) = ground arith

passthrough_iff :
    (enabled : Bool) (z : ℤ)
    → ((enabled && not (is_positive z)) ≡ false) ↔ (enabled ≡ true → IsPositive z)
passthrough_iff true z = (λ h e. (is_positive_iff z).0 h, λ h. (is_positive_iff z).1 (h refl))
passthrough_iff false z = (λ h e. absurd (starts e), λ h. refl)

pub validate_app_iff : (env : Env) (a : AppOptions) → (validate_app env a ≡ []) ↔ IsAppAccepted a
unfolding validate_app
validate_app_iff env a =
    append_iff _ _
      (error_if_iff _ _
        (extra_iff a.disable_impersonation a.client_ip_extra_user_header a.extra_user_headers))
      (append_iff _ _ (error_if_iff _ _ (passthrough_iff a.token_passthrough a.passthrough_timeout))
        (append_iff _ _ (error_if_iff _ _ (is_negative_iff a.cache_success_ttl)) (
          append_iff _ _ (error_if_iff _ _ (is_negative_iff a.cache_failure_ttl)) (
            append_iff _ _ (error_if_iff _ _ (is_positive_iff a.sar_timeout)) (
              append_iff _ _ (error_if_iff _ _ (is_negative_iff a.sar_allow_cache_ttl)) (
                append_iff _ _ (error_if_iff _ _ (is_negative_iff a.sar_deny_cache_ttl))
                  (error_if_iff _ _ (is_positive_iff a.max_impersonation_header_values))))))))
