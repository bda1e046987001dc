-- ===== src/Reserved/Laws.antt =====
-- What the guard of pkg/proxy/handlers.go and the allowlist of pkg/proxy/proxy.go accept.
use kube_oidc_proxy.Base.{
  Text, ◌==◌, eq_iff, true, false, ◌||◌, none, List, [], ◌∷◌, ◌≡◌, refl, sym, ◌∙◌, subst, ◌⊎◌, inl,
  inr, ◌↔◌, arith, All, has_prefix, is_empty, trim_space, Bool-cases,
}
use kube_oidc_proxy.Base.Result.{ok, ok_inj}
use kube_oidc_proxy.Request.{UserInfo}
use kube_oidc_proxy.Reserved.{
  reserved_identity_prefix, all_authenticated, has, check_groups, check_reserved_identity,
  set_insert, parse_groups, parse_allowed_reserved_groups,
}

-- A group that a token may carry.
abbrev pub IsPermitted : List Text → Text → Type 0
IsPermitted allowed g =
    (has_prefix g reserved_identity_prefix ≡ false)
    ⊎ ((g ≡ all_authenticated) ⊎ (has allowed g ≡ true))

check_groups_iff :
    (allowed gs : List Text) → (check_groups allowed gs ≡ none) ↔ All (IsPermitted allowed) gs
unfolding check_groups
check_groups_iff allowed [] = ground arith
check_groups_iff allowed (g ∷ gs) =
    ground (arith, eq_iff g all_authenticated, check_groups_iff allowed gs)

-- The guard accepts an identity exactly when its name is not reserved and each of its groups is
-- not reserved, or is system:authenticated, or stands on the operator's allowlist.
pub check_reserved_identity_iff :
    (info : UserInfo) (allowed : List Text)
    → (check_reserved_identity info allowed ≡ none) ↔ (
        (has_prefix info.name reserved_identity_prefix ≡ false)
        × All (IsPermitted allowed) info.groups)
unfolding check_reserved_identity
check_reserved_identity_iff info allowed = ground (arith, check_groups_iff allowed info.groups)

-- An entry that the allowlist takes.
abbrev pub IsEntry : Text → Type 0
IsEntry g = (is_empty (trim_space g) ≡ false) × (has_prefix g reserved_identity_prefix ≡ true)

has-set_insert :
    (g j : Text) (allowed : List Text) → has (set_insert g allowed) j ≡ (g == j || has allowed j)
unfolding set_insert
has-set_insert g j allowed = elim (Bool-cases (has allowed g)) [
  | inr new ↦ rw new refl
  | inl old ↦ rw old (elim (Bool-cases (g == j)) [
    | inr other ↦ rw other refl
    | inl same ↦ rw (same, ← (eq_iff g j).0 same) old
  ])
]

parse_groups_sound :
    (allowed gs : List Text) (s : List Text) → parse_groups allowed gs ≡ ok s → All IsEntry gs
unfolding parse_groups
parse_groups_sound allowed [] s e = tt
parse_groups_sound allowed (g ∷ gs) s e =
    ground (arith, parse_groups_sound (set_insert g allowed) gs s)

parse_groups_complete :
    (allowed gs : List Text)
    → All IsEntry gs
    → (s : List Text) × (parse_groups allowed gs ≡ ok s)
      × ((j : Text) → has s j ≡ (has allowed j || has gs j))
unfolding parse_groups
parse_groups_complete allowed [] h = (allowed, refl, λ j. ground arith)
parse_groups_complete allowed (g ∷ gs) ((solid, reserved), h) =
    let (s, parsed, members) = parse_groups_complete (set_insert g allowed) gs h in
    (s, rw (solid, reserved) parsed, λ j. ground (arith, members j, has-set_insert g j allowed))

-- Which allowlists the parser takes, and what their set has.
parse_allowed_reserved_groups_cases :
    (gs : List Text)
    → (((s : List Text) × (parse_allowed_reserved_groups gs ≡ ok s)) ↔ All IsEntry gs)
      × ((s : List Text)
          → parse_allowed_reserved_groups gs ≡ ok s
          → (j : Text) → has s j ≡ has gs j)
unfolding parse_allowed_reserved_groups
parse_allowed_reserved_groups_cases gs = ((sound, complete), members)
  where
    sound : ((s : List Text) × (parse_groups [] gs ≡ ok s)) → All IsEntry gs
    sound (s, e) = parse_groups_sound [] gs s e

    complete : All IsEntry gs → (s : List Text) × (parse_groups [] gs ≡ ok s)
    complete h = let (s, e, m) = parse_groups_complete [] gs h in (s, e)

    members : (s : List Text) → parse_groups [] gs ≡ ok s → (j : Text) → has s j ≡ has gs j
    members s e j =
        let (t, parsed, m) = parse_groups_complete [] gs (parse_groups_sound [] gs s e) in
        subst (λ u. has u j ≡ has gs j) (ok_inj (sym parsed ∙ e)) (m j)

-- An allowlist that does not list system:authenticated is accepted exactly when every entry is not
-- blank and carries the reserved prefix, and then the set has the listed groups as its members.
pub parse_allowed_reserved_groups_iff :
    (gs : List Text)
    → has gs all_authenticated ≡ false
    → (((s : List Text) × (parse_allowed_reserved_groups gs ≡ ok s)) ↔ All IsEntry gs)
      × ((s : List Text)
          → parse_allowed_reserved_groups gs ≡ ok s
          → (j : Text) → has s j ≡ has gs j)
parse_allowed_reserved_groups_iff gs other = parse_allowed_reserved_groups_cases gs
