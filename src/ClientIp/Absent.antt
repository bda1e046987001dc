-- ===== src/ClientIp/Absent.antt =====
-- What SanitizeForwardHeaders of pkg/proxy/context/context.go leaves of the two headers.
use kube_oidc_proxy.Base.{
  Text, true, Option, none, some, List, [], ◌∷◌, ◌≡◌, refl, ◌∙◌, ◌⊎◌, inl, inr, ◌==◌, if◌then◌else◌,
  is_empty, Bool-cases, lookup, lookup-insert, lookup-delete,
}
use kube_oidc_proxy.Header.{Header, canonical, get, del, set}
use kube_oidc_proxy.Request.{Request}
use kube_oidc_proxy.ClientIp.{
  Net, Network, peer_host, resolve_client_ip, x_forwarded_for, x_real_ip, forwarded_for, collapse,
  sanitize_forward_headers,
}
use kube_oidc_proxy.ClientIp.Sanitizing.{
  xff_ne_real_ip, real_ip_ne_xff, xff_eq_xff, real_ip_eq_real_ip, sanitize_sent, sanitize-reads,
}

lookup-del :
    (h : Header) (j k : Text)
    → lookup (canonical j) (del h k)
      ≡ (if canonical k == canonical j then none else lookup (canonical j) h)
unfolding del
lookup-del h j k = lookup-delete (canonical j) (canonical k) h

lookup-set :
    (h : Header) (j k v : Text)
    → lookup (canonical j) (set h k v)
      ≡ (if canonical k == canonical j then some (v ∷ []) else lookup (canonical j) h)
unfolding set
lookup-set h j k v = lookup-insert (canonical j) (canonical k) (v ∷ []) h

-- A header that is there has a first line that is not empty.
abbrev pub IsFilled : Header → Text → Type 0
IsFilled h k = is_empty (get h k) ≡ true → lookup (canonical k) h ≡ none

filled :
    (h : Header)
    → IsFilled h x_forwarded_for
    → is_empty (forwarded_for h) ≡ true
    → lookup (canonical x_forwarded_for) h ≡ none
unfolding forwarded_for
filled h chain e = chain e

module _ (net : Net) (trusted : List (Option Network)) where
  collapsed_chain :
      (xff : Text) (req : Request)
      → let ip = resolve_client_ip net req.remote_addr xff trusted in
        let h = (collapse net trusted xff req).header in
        (lookup (canonical x_forwarded_for) h ≡ none)
        ⊎ (lookup (canonical x_forwarded_for) h ≡ some (ip ∷ []))
  unfolding collapse
  collapsed_chain xff req =
      elim (Bool-cases
        (resolve_client_ip net req.remote_addr xff trusted == peer_host net req.remote_addr)) [
          | inl same ↦ rw same (inl (lookup-del req.header _ _ ∙ rw xff_eq_xff refl))
          | inr other ↦ rw other (inr (lookup-set req.header _ _ _ ∙ rw xff_eq_xff refl))
        ]

  collapsed_real_ip :
      (xff : Text) (req : Request)
      → lookup (canonical x_real_ip) (collapse net trusted xff req).header
        ≡ lookup (canonical x_real_ip) req.header
  unfolding collapse
  collapsed_real_ip xff req =
      elim (Bool-cases
        (resolve_client_ip net req.remote_addr xff trusted == peer_host net req.remote_addr)) [
          | inl same ↦ rw same (lookup-del req.header _ _ ∙ rw xff_ne_real_ip refl)
          | inr other ↦ rw other (lookup-set req.header _ _ _ ∙ rw xff_ne_real_ip refl)
        ]

  unsent :
      (req : Request)
      → IsFilled req.header x_real_ip
      → lookup (canonical x_forwarded_for) req.header ≡ none
      → is_empty (forwarded_for req.header) ≡ true
      → let h = (sanitize_forward_headers net trusted req).header in
        (lookup (canonical x_real_ip) h ≡ none) × (lookup (canonical x_forwarded_for) h ≡ none)
  unfolding sanitize_forward_headers
  unsent req real chain e = elim (Bool-cases (is_empty (get req.header x_real_ip))) [
    | inl neither ↦ rw (e, neither) (real neither, chain)
    | inr one ↦
        rw (e, one)
          (
            lookup-del req.header _ _ ∙ rw real_ip_eq_real_ip refl,
            lookup-del req.header _ _ ∙ rw real_ip_ne_xff chain,
          )
  ]

  -- Where each of the two headers, if it is there at all, has a first line that is not empty: after the
  -- sanitiser X-Real-Ip is absent, X-Forwarded-For is absent or has one line, the address that the
  -- resolver gives for the request, and the resolver, reading the new headers, gives the address that
  -- it gave before.
  pub resolve-sanitize :
      (req : Request)
      → IsFilled req.header x_real_ip
      → IsFilled req.header x_forwarded_for
      → let req' = sanitize_forward_headers net trusted req in
        let ip = resolve_client_ip net req.remote_addr (forwarded_for req.header) trusted in
        (lookup (canonical x_real_ip) req'.header ≡ none)
        × ((lookup (canonical x_forwarded_for) req'.header ≡ none)
            ⊎ (lookup (canonical x_forwarded_for) req'.header ≡ some (ip ∷ [])))
        × (resolve_client_ip net req'.remote_addr (forwarded_for req'.header) trusted ≡ ip)
  resolve-sanitize req real chain =
      let (_, _, kept) = sanitize-reads net trusted req in
      elim (Bool-cases (is_empty (forwarded_for req.header))) [
        | inl e ↦
            let (gone, none_left) = unsent req real (filled req.header chain e) e in
            (gone, inl none_left, kept)
        | inr sent ↦ (
          rw (sanitize_sent net trusted req sent)
              (collapsed_real_ip _ _ ∙ lookup-del req.header _ _ ∙ rw real_ip_eq_real_ip refl),
          rw (sanitize_sent net trusted req sent) (collapsed_chain _ _),
          kept,
        )
      ]
