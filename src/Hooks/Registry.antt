-- ===== src/Hooks/Registry.antt =====
-- The registry of pkg/proxy/hooks/hooks.go and the ordered map that it stands for.
use kube_oidc_proxy.Base.{
  ℕ, zero, suc, ◌+◌, ◌<◌, Text, ◌==◌, eq_iff, Option, none, some, List, [], ◌∷◌, ◌++◌, ◌≡◌, refl,
  sym, ap, ◌∙◌, inl, inr, arith, length, lookup, insert, lookup-insert, if◌then◌else◌, Bool-cases,
  Option-cases, some_inj,
}
use kube_oidc_proxy.Hooks.{Hook, set_hook, Hooks, add_pre_shutdown_hook, new}

module _ {ℓ} {S : Type ℓ} where
  -- The position of the first entry of that name, counted from `n`.
  pub position : ℕ → Text → List (Text × Hook S) → Option ℕ
  position n name [] = none
  position n name ((j, h) ∷ es) = if j == name then some n else position (suc n) name es

  -- What every method keeps: the index gives each name its position, and no other name.
  abbrev pub IsIndexed : Hooks S → Type 0
  IsIndexed h = (name : Text) → lookup name h.index_of ≡ position 0 name h.entries

  position-append :
      (n : ℕ) (name j : Text) (hook : Hook S) (es : List (Text × Hook S))
      → position n name es ≡ none
      → position n j (es ++ (name, hook) ∷ [])
        ≡ (if name == j then some (n + length es) else position n j es)
  unfolding position
  position-append n name j hook [] h = ground arith
  position-append n name j hook ((i, k) ∷ es) h =
      ground
        (arith, eq_iff i name, eq_iff i j, eq_iff name j, position-append (suc n) name j hook es)

  append_of_missing :
      (n : ℕ) (name : Text) (hook : Hook S) (es : List (Text × Hook S))
      → position n name es ≡ none
      → es ++ (name, hook) ∷ [] ≡ insert name hook es
  unfolding position insert
  append_of_missing n name hook [] h = refl
  append_of_missing n name hook ((i, k) ∷ es) h = elim (Bool-cases (i == name)) [
    | inl same ↦ absurd (some_none (rw same at h))
    | inr other ↦
        rw other (ap (λ r. (i, k) ∷ r) (append_of_missing (suc n) name hook es (rw other at h)))
  ]
    where
      some_none : some n ≡ none → ⊥
      some_none e = cc

  position-set_hook :
      (n i : ℕ) (j : Text) (hook : Hook S) (es : List (Text × Hook S))
      → position n j (set_hook es i hook) ≡ position n j es
  unfolding position set_hook
  position-set_hook n i j hook [] = refl
  position-set_hook n zero j hook ((k, h) ∷ es) = refl
  position-set_hook n (suc i) j hook ((k, h) ∷ es) = rw (position-set_hook (suc n) i j hook es)

  -- A position counted from `n` is at least `n`.
  position-le :
      (n m : ℕ) (name : Text) (es : List (Text × Hook S)) → position n name es ≡ some m → n < suc m
  unfolding position
  position-le n m name [] e = cc
  position-le n m name ((j, h) ∷ es) e = ground (arith, position-le (suc n) m name es)

  set_hook_of_position :
      (n i : ℕ) (name : Text) (hook : Hook S) (es : List (Text × Hook S))
      → position n name es ≡ some (n + i)
      → set_hook es i hook ≡ insert name hook es
  unfolding position set_hook insert
  set_hook_of_position n i name hook [] e = cc
  set_hook_of_position n zero name hook ((j, h) ∷ es) e = elim (Bool-cases (j == name)) [
    | inl same ↦ rw same (rw ((eq_iff j name).0 same) refl)
    | inr other ↦ absurd (omega (arith, position-le (suc n) (n + 0) name es (rw other at e)))
  ]
  set_hook_of_position n (suc i) name hook ((j, h) ∷ es) e = elim (Bool-cases (j == name)) [
    | inl same ↦
        let first : n ≡ n + suc i = some_inj (rw same at e) in absurd (omega (arith, first))
    | inr other ↦ rw other (
        ap (λ r. (j, h) ∷ r)
          (set_hook_of_position (suc n) i name hook es (rw other at e ∙ ap some (omega arith))))
  ]

  -- Registering keeps the index right, and refines the ordered map: the entry of a known name is
  -- replaced where it stands, and a new name goes to the end.
  pub add_pre_shutdown_hook-insert :
      (h : Hooks S) (name : Text) (hook : Hook S)
      → IsIndexed h
      → IsIndexed (add_pre_shutdown_hook h name hook)
        × ((add_pre_shutdown_hook h name hook).entries ≡ insert name hook h.entries)
  unfolding add_pre_shutdown_hook
  add_pre_shutdown_hook-insert h name hook indexed = elim (Option-cases (lookup name h.index_of)) [
    | inl new_name ↦
        rw (new_name, add_pre_shutdown_hook)
          (
            λ j.
                lookup-insert j name (length h.entries) h.index_of
                ∙ ap (λ p. if name == j then some (length h.entries) else p) (indexed j)
                ∙ ap (λ n. if name == j then some n else position 0 j h.entries) (omega arith)
                ∙ sym (position-append 0 name j hook h.entries (sym (indexed name) ∙ new_name)),
            append_of_missing 0 name hook h.entries (sym (indexed name) ∙ new_name),
          )
    | inr (i, known) ↦
        rw (known, add_pre_shutdown_hook)
          (
            λ j. indexed j ∙ sym (position-set_hook 0 i j hook h.entries),
            set_hook_of_position 0 i name hook h.entries
                (sym (indexed name) ∙ known ∙ ap some (omega arith)),
          )
  ]

  -- Registrations in order, on the registry and on an ordered map.
  abbrev pub add_all : Hooks S → List (Text × Hook S) → Hooks S
  add_all h [] = h
  add_all h ((name, hook) ∷ rs) = add_all (add_pre_shutdown_hook h name hook) rs

  abbrev pub insert_all : List (Text × Hook S) → List (Text × Hook S) → List (Text × Hook S)
  insert_all es [] = es
  insert_all es ((name, hook) ∷ rs) = insert_all (insert name hook es) rs

  add_all_of_IsIndexed :
      (h : Hooks S) (rs : List (Text × Hook S))
      → IsIndexed h
      → IsIndexed (add_all h rs) × ((add_all h rs).entries ≡ insert_all h.entries rs)
  add_all_of_IsIndexed h [] indexed = (indexed, refl)
  add_all_of_IsIndexed h ((name, hook) ∷ rs) indexed =
      let (still, entries) = add_pre_shutdown_hook-insert h name hook indexed in
      let (kept, all) = add_all_of_IsIndexed (add_pre_shutdown_hook h name hook) rs still in
      (kept, all ∙ ap (λ es. insert_all es rs) entries)

  -- Whatever is registered on a new registry, the index gives each name its position, and the
  -- entries are those of an ordered map: a known name is overwritten where it stands, and a new one
  -- goes to the end.
  pub add_all-insert_all :
      (rs : List (Text × Hook S))
      → IsIndexed (add_all new rs) × ((add_all new rs).entries ≡ insert_all [] rs)
  unfolding position lookup
  add_all-insert_all rs = add_all_of_IsIndexed new rs (λ name. refl)
