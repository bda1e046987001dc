-- ===== src/RequestId/Laws.antt =====
-- The values and the trust of the correlation id of pkg/proxy/requestid.go.
use kube_oidc_proxy.Base.{
  true, ◌↔◌, ◌∙◌, sym, Text, codes, false, Option, List, [], ◌∷◌, ◌≡◌, ◌≢◌, refl, ◌⊎◌, inl, inr,
  ◌≤◌, ◌<◌, arith, length, any, All, Bool-cases, is_space, IsSolid, trim_space_of_IsSolid, ltb,
}
use kube_oidc_proxy.Header.{Header, get}
use kube_oidc_proxy.Request.{Request}
use kube_oidc_proxy.ClientIp.{Net, Network, ip_in_networks, peer_host}
use kube_oidc_proxy.RequestId.{max_request_id_len, refused, valid_request_id}

-- Printable ASCII without spaces.
abbrev pub IsPrintable : Text → Type 0
IsPrintable = All (λ c. (b' ' < c) × (c ≤ b'~'))

accepted-IsPrintable : (v : Text) → any refused v ≡ false → IsPrintable v
unfolding refused
accepted-IsPrintable [] h = tt
accepted-IsPrintable (c ∷ v) h = ground (arith, accepted-IsPrintable v)

accepted-IsSolid : (v : Text) → any refused v ≡ false → IsSolid v
unfolding refused is_space
accepted-IsSolid [] h = tt
accepted-IsSolid (c ∷ v) h = ground (arith, accepted-IsSolid v)

-- An id that may be taken: not empty, at most 64 bytes, printable ASCII without spaces.
abbrev pub IsValid : Text → Type 0
IsValid v = (v ≢ []) × (length v ≤ 64) × IsPrintable v

IsPrintable-accepted : (v : Text) → IsPrintable v → any refused v ≡ false
unfolding refused
IsPrintable-accepted [] h = refl
IsPrintable-accepted (c ∷ v) ((low, high), h) = ground (arith, low, high, IsPrintable-accepted v h)

-- A value is taken as it stands, or it is refused.
valid_request_id_split :
    (v : Text) → (IsValid v × (valid_request_id v ≡ v)) ⊎ (¬ IsValid v × (valid_request_id v ≡ []))
unfolding valid_request_id
valid_request_id_split [] = inr (λ (filled, _, _). filled refl, refl)
valid_request_id_split (c ∷ v) = elim (Bool-cases (ltb max_request_id_len (length (c ∷ v)))) [
  | inl long ↦ inr (λ (_, fits, _). ground (arith, long, fits), rw long refl)
  | inr fits ↦ elim (Bool-cases (any refused (c ∷ v))) [
    | inl bad ↦ inr (
      λ (_, _, good). ground (arith, bad, IsPrintable-accepted (c ∷ v) good),
      rw (fits, bad) refl,
    )
    | inr good ↦ inl (
      (λ e. cc, ground arith, accepted-IsPrintable (c ∷ v) good),
      rw (fits, good) (trim_space_of_IsSolid (c ∷ v) (accepted-IsSolid (c ∷ v) good)),
    )
  ]
]

-- A value is taken as it stands exactly if it is empty or is not empty, has at most 64 bytes and is
-- printable ASCII without spaces; exactly the values that are not such come out empty.
pub valid_request_id_cases :
    (v : Text)
    → ((valid_request_id v ≡ v) ↔ ((v ≡ []) ⊎ IsValid v))
      × ((valid_request_id v ≡ []) ↔ ¬ IsValid v)
valid_request_id_cases v = elim (valid_request_id_split v) [
  | inl (good, same) ↦
      ((λ _. inr good, λ _. same), (λ e. absurd (good.0 (sym same ∙ e)), λ bad. absurd (bad good)))
  | inr (bad, gone) ↦ (
    (λ e. inl (sym e ∙ gone), λ h. elim h [ inl e ↦ gone ∙ sym e | inr good ↦ absurd (bad good) ]),
    (λ _. bad, λ _. gone),
  )
]

module _ (net : Net) (trusted : List (Option Network)) (fresh : Text) (response : Header) where
  -- The authoritative id of a request: from a trusted proxy, the valid one in Audit-ID or else the
  -- valid one in X-Request-ID; otherwise the fresh one.
  pub data IsChosen (req : Request) : Text → Type 0 where
    audit :
        ip_in_networks net (peer_host net req.remote_addr) trusted ≡ true
        → IsValid (get req.header (codes "Audit-ID"))
        → IsChosen req (get req.header (codes "Audit-ID"))
    other :
        ip_in_networks net (peer_host net req.remote_addr) trusted ≡ true
        → ¬ IsValid (get req.header (codes "Audit-ID"))
        → IsValid (get req.header (codes "X-Request-ID"))
        → IsChosen req (get req.header (codes "X-Request-ID"))
    untrusted :
        ip_in_networks net (peer_host net req.remote_addr) trusted ≡ false → IsChosen req fresh
    unsent :
        ¬ IsValid (get req.header (codes "Audit-ID"))
        → ¬ IsValid (get req.header (codes "X-Request-ID"))
        → IsChosen req fresh
