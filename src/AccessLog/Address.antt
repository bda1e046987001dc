-- ===== src/AccessLog/Address.antt =====
-- The two copies of the resolver: pkg/proxy/logging/accesslog.go and pkg/proxy/context/context.go.
use mathlib.Core.List.{reverse-append}
use kube_oidc_proxy.Base.{
  ℕ, zero, suc, ◌≤◌, ◌<◌, Text, Option, none, some, List, [], ◌∷◌, ◌++◌, ◌≡◌, refl, ap, ◌∙◌, arith,
  length, take, reverse, if◌then◌else◌, split_on, trim_space,
}
use kube_oidc_proxy.Request.{Request}
use kube_oidc_proxy.ClientIp.{
  Net, Network, ip_in_networks, peer_host, walk, forwarded_for, sanitize_forward_headers,
}
use kube_oidc_proxy.ClientIp
use kube_oidc_proxy.ClientIp.Sanitizing.{sanitize-reads}
use kube_oidc_proxy.AccessLog.{hop_at, walk_below, resolve_client_ip, source_ip}

module _ (net : Net) (trusted : List (Option Network)) where
  take-suc :
      (i : ℕ) (hops : List Text)
      → i < length hops
      → take (suc i) hops ≡ take i hops ++ hop_at i hops ∷ []
  unfolding hop_at
  take-suc i [] h = absurd (none_below i h)
    where
      none_below : (i : ℕ) → i < 0 → ⊥
      none_below i h = omega (arith, h)
  take-suc zero (hop ∷ hops) h = refl
  take-suc (suc i) (hop ∷ hops) h = ap (λ t. hop ∷ t) (take-suc i hops (omega (arith, h)))

  take_all : (hops : List Text) → take (length hops) hops ≡ hops
  take_all [] = refl
  take_all (hop ∷ hops) = ap (λ t. hop ∷ t) (take_all hops)

  walk_below-walk :
      (i : ℕ) (peer : Text) (hops : List Text)
      → i ≤ length hops
      → walk_below net trusted i peer hops ≡ walk net trusted peer (reverse (take i hops))
  unfolding walk_below walk
  walk_below-walk zero peer hops h = refl
  walk_below-walk (suc i) peer hops h =
      rw (take-suc i hops (omega (arith, h)), reverse-append)
        (ap
          (λ further. elim (net.parse_ip (trim_space (hop_at i hops))) [
            | none ↦ peer
            | some _ ↦
                if ip_in_networks net (trim_space (hop_at i hops)) trusted
                then further
                else trim_space (hop_at i hops)
          ])
          (walk_below-walk i peer hops (omega (arith, h))))

  resolve-same :
      (remote_addr xff : Text)
      → resolve_client_ip net trusted remote_addr xff
        ≡ ClientIp.resolve_client_ip net remote_addr xff trusted
  unfolding resolve_client_ip ClientIp.resolve_client_ip
  resolve-same remote_addr xff =
      rw
        (
          walk_below-walk (length (split_on b',' xff)) (peer_host net remote_addr)
              (split_on b',' xff) (omega arith),
          take_all (split_on b',' xff),
        )
        refl

  -- The access record's own copy of the resolver gives the address that pkg/proxy/context gives, for
  -- a request as it came in and for what the sanitiser of the forwarded headers makes of it.
  pub source_ip-sanitize :
      (req : Request)
      → let ip =
          ClientIp.resolve_client_ip net req.remote_addr (forwarded_for req.header) trusted in
        (source_ip net trusted req ≡ ip)
        × (source_ip net trusted (sanitize_forward_headers net trusted req) ≡ ip)
  unfolding source_ip
  source_ip-sanitize req =
      let (real_ip, chain, kept) = sanitize-reads net trusted req in
      (resolve-same _ _, resolve-same _ _ ∙ kept)
