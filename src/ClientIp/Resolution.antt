-- ===== src/ClientIp/Resolution.antt =====
-- The answers of ResolveClientIP of pkg/proxy/context/context.go: the walk over the hops.
use mathlib.Core.List.{reverse-append}
use kube_oidc_proxy.Base.{
  Text, Bool, true, false, not, Option, none, some, List, [], ◌∷◌, ◌++◌, ◌≡◌, refl, sym, ap, ◌∙◌,
  ◌⊎◌, inl, inr, arith, any, All, All-reverse, any-reverse, ◌||◌, if◌then◌else◌, is_empty, ◌==◌,
  eq_refl, is_some, trim_space, split_on, reverse, Bool-cases, Option-cases, Lacks, split_on-Lacks,
  split_on-append, trim_space-Lacks, drop_runs, trim_space_idempotent,
}
use kube_oidc_proxy.ClientIp.{Ip, Net, Network, ip_in_networks, peer_host, walk, resolve_client_ip}

module _ (net : Net) (trusted : List (Option Network)) where
  -- The hop stops the walk: it is malformed, or an address outside the trusted networks.
  abbrev pub stops : Text → Bool
  stops hop = not (ip_in_networks net (trim_space hop) trusted)

  walk-nil : (peer : Text) → walk net trusted peer [] ≡ peer
  unfolding walk
  walk-nil peer = refl

  walk_malformed :
      (peer hop : Text) (hops : List Text)
      → net.parse_ip (trim_space hop) ≡ none
      → walk net trusted peer (hop ∷ hops) ≡ peer
  unfolding walk
  walk_malformed peer hop hops h = rw (h, walk)

  pub walk_stopped :
      (peer hop : Text) (hops : List Text) {a : Ip}
      → net.parse_ip (trim_space hop) ≡ some a
      → ip_in_networks net (trim_space hop) trusted ≡ false
      → walk net trusted peer (hop ∷ hops) ≡ trim_space hop
  unfolding walk
  walk_stopped peer hop hops h k = rw (h, walk) (rw k)

  walk_passed :
      (peer hop : Text) (hops : List Text) {a : Ip}
      → net.parse_ip (trim_space hop) ≡ some a
      → ip_in_networks net (trim_space hop) trusted ≡ true
      → walk net trusted peer (hop ∷ hops) ≡ walk net trusted peer hops
  unfolding walk
  walk_passed peer hop hops h k = rw (h, walk) (rw k)

  walk-append :
      (peer : Text) (near far : List Text)
      → any stops near ≡ true
      → walk net trusted peer (near ++ far) ≡ walk net trusted peer near
  walk-append peer [] far h = cc
  walk-append peer (hop ∷ near) far h = elim (Option-cases (net.parse_ip (trim_space hop))) [
    | inl bad ↦ walk_malformed peer hop _ bad ∙ sym (walk_malformed peer hop near bad)
    | inr (ip, good) ↦ elim (Bool-cases (ip_in_networks net (trim_space hop) trusted)) [
      | inl passed ↦
          walk_passed peer hop _ good passed
          ∙ walk-append peer near far (rw passed at h)
          ∙ sym (walk_passed peer hop near good passed)
      | inr stopped ↦
          walk_stopped peer hop _ good stopped ∙ sym (walk_stopped peer hop near good stopped)
    ]
  ]

  -- The properties of an address that the walk took from a hop.
  pub record IsBelieved (hops : List Text) (ip : Text) : Type 0 where
    pub listed : any (λ hop. trim_space hop == ip) hops ≡ true
    pub valid : is_some (net.parse_ip ip) ≡ true
    pub untrusted : ip_in_networks net ip trusted ≡ false
    pub single : Lacks b',' ip
    pub trimmed : trim_space ip ≡ ip

  IsBelieved-cons :
      {hop ip : Text} {hops : List Text} → IsBelieved hops ip → IsBelieved (hop ∷ hops) ip
  IsBelieved-cons b = record {
    listed = ground (arith, b.listed);
    valid = b.valid;
    untrusted = b.untrusted;
    single = b.single;
    trimmed = b.trimmed;
  }

  stopped-IsBelieved :
      (hop : Text) (hops : List Text) {a : Ip}
      → Lacks b',' hop
      → net.parse_ip (trim_space hop) ≡ some a
      → ip_in_networks net (trim_space hop) trusted ≡ false
      → IsBelieved (hop ∷ hops) (trim_space hop)
  stopped-IsBelieved hop hops clean good stopped = record {
    listed = rw (eq_refl (trim_space hop));
    valid = rw good;
    untrusted = stopped;
    single = trim_space-Lacks b',' hop clean;
    trimmed = trim_space_idempotent hop;
  }

  walk-IsBelieved :
      (peer : Text) (hops : List Text)
      → All (Lacks b',') hops
      → (walk net trusted peer hops ≡ peer) ⊎ IsBelieved hops (walk net trusted peer hops)
  walk-IsBelieved peer [] h = inl (walk-nil peer)
  walk-IsBelieved peer (hop ∷ hops) (clean, h) =
      elim (Option-cases (net.parse_ip (trim_space hop))) [
        | inl bad ↦ inl (walk_malformed peer hop hops bad)
        | inr (ip, good) ↦ elim (Bool-cases (ip_in_networks net (trim_space hop) trusted)) [
          | inl passed ↦
              rw (walk_passed peer hop hops good passed) (later (walk-IsBelieved peer hops h))
          | inr stopped ↦
              rw (walk_stopped peer hop hops good stopped)
                (inr (stopped-IsBelieved hop hops clean good stopped))
        ]
      ]
    where
      later :
          (walk net trusted peer hops ≡ peer) ⊎ IsBelieved hops (walk net trusted peer hops)
          → (walk net trusted peer hops ≡ peer)
            ⊎ IsBelieved (hop ∷ hops) (walk net trusted peer hops)
      later (inl e) = inl e
      later (inr b) = inr (IsBelieved-cons b)

  IsBelieved-reverse :
      {hops : List Text} {ip : Text} → IsBelieved (reverse hops) ip → IsBelieved hops ip
  IsBelieved-reverse {hops} {ip} b = record {
    listed = sym (any-reverse (λ hop. trim_space hop == ip) hops) ∙ b.listed;
    valid = b.valid;
    untrusted = b.untrusted;
    single = b.single;
    trimmed = b.trimmed;
  }

  -- The test for an empty chain changes no answer: an empty chain is one malformed hop.
  pub resolve_client_ip-walk :
      (remote_addr xff : Text)
      → resolve_client_ip net remote_addr xff trusted ≡ (
          if ip_in_networks net (peer_host net remote_addr) trusted
          then walk net trusted (peer_host net remote_addr) (reverse (split_on b',' xff))
          else peer_host net remote_addr)
  unfolding resolve_client_ip split_on trim_space drop_runs
  resolve_client_ip-walk remote_addr [] = blank (ip_in_networks net _ trusted)
    where
      peer : Text
      peer = peer_host net remote_addr

      blank : (t : Bool) → peer ≡ (if t then walk net trusted peer ([] ∷ []) else peer)
      blank true = sym (walk_malformed peer [] [] net.parse_ip-empty)
      blank false = refl
  resolve_client_ip-walk remote_addr (c ∷ s) = test (ip_in_networks net _ trusted) _
    where
      peer : Text
      peer = peer_host net remote_addr

      test : (t : Bool) (x : Text) → (if false || not t then peer else x) ≡ (if t then x else peer)
      test true x = refl
      test false x = refl

  -- The resolved address is the peer's host, or the peer is a trusted proxy and the address is one
  -- comma-separated hop of the chain, trimmed, that parses and lies outside every trusted network.
  pub resolve_client_ip-IsBelieved :
      (remote_addr xff : Text)
      → let ip = resolve_client_ip net remote_addr xff trusted in
        let peer = peer_host net remote_addr in
        (ip ≡ peer) ⊎ ((ip_in_networks net peer trusted ≡ true) × IsBelieved (split_on b',' xff) ip)
  unfolding resolve_client_ip
  resolve_client_ip-IsBelieved remote_addr xff =
      chosen (is_empty xff) (ip_in_networks net peer trusted) refl
    where
      peer : Text
      peer = peer_host net remote_addr

      hops : List Text
      hops = reverse (split_on b',' xff)

      believed :
          (ip : Text)
          → (ip ≡ peer) ⊎ IsBelieved hops ip
          → (ip ≡ peer) ⊎ ((true ≡ true) × IsBelieved (split_on b',' xff) ip)
      believed ip (inl e) = inl e
      believed ip (inr b) = inr (refl, IsBelieved-reverse b)

      chosen :
          (blank trust : Bool)
          → ip_in_networks net peer trusted ≡ trust
          → let ip = if blank || not trust then peer else walk net trusted peer hops in
            (ip ≡ peer) ⊎ ((trust ≡ true) × IsBelieved (split_on b',' xff) ip)
      chosen true trust e = inl refl
      chosen false false e = inl refl
      chosen false true e =
          believed _
            (walk-IsBelieved peer hops (All-reverse (Lacks b',') _ (split_on-Lacks b',' xff)))

  -- Whatever a client puts in front of a chain changes nothing, once a hop of the chain is not
  -- itself a trusted proxy's address.
  pub resolve_client_ip-append :
      (remote_addr prefix chain : Text)
      → any stops (split_on b',' chain) ≡ true
      → resolve_client_ip net remote_addr (prefix ++ b',' ∷ chain) trusted
        ≡ resolve_client_ip net remote_addr chain trusted
  resolve_client_ip-append remote_addr prefix chain h =
      resolve_client_ip-walk remote_addr (prefix ++ b',' ∷ chain)
      ∙ ap (λ hops. if trust then walk net trusted peer hops else peer) joined
      ∙ prefix_ignored trust
      ∙ sym (resolve_client_ip-walk remote_addr chain)
    where
      peer : Text
      peer = peer_host net remote_addr

      trust : Bool
      trust = ip_in_networks net peer trusted

      joined :
          reverse (split_on b',' (prefix ++ b',' ∷ chain))
          ≡ reverse (split_on b',' chain) ++ reverse (split_on b',' prefix)
      joined =
          rw (split_on-append b',' prefix chain)
            (reverse-append (split_on b',' prefix) (split_on b',' chain))

      prefix_ignored :
          (t : Bool)
          → (if t
              then walk net trusted peer
                  (reverse (split_on b',' chain) ++ reverse (split_on b',' prefix))
              else peer)
            ≡ (if t then walk net trusted peer (reverse (split_on b',' chain)) else peer)
      prefix_ignored true = walk-append peer _ _ (any-reverse stops _ ∙ h)
      prefix_ignored false = refl
