-- ===== src/ClientIp/Sanitizing.antt =====
-- SanitizeForwardHeaders of pkg/proxy/context/context.go, and the resolver on its result.
use mathlib.Core.Bool.{false≢true}
use kube_oidc_proxy.Base.{
  codes, lower, Text, Bool, true, false, Option, none, some, List, [], ◌∷◌, ◌≡◌, refl, sym, ◌∙◌,
  ◌⊎◌, inl, inr, arith, if◌then◌else◌, is_empty, is_empty_iff, ◌==◌, eq_iff, eq_refl, split_on,
  Bool-cases, Option-cases, split_on_of_Lacks,
}
use kube_oidc_proxy.Header.{Header, canonical, capitalise, upper, is_token, is_alnum, get, del}
use kube_oidc_proxy.Header.Laws.{get-set, get-del}
use kube_oidc_proxy.Request.{Request}
use kube_oidc_proxy.ClientIp.{
  Ip, Net, Network, ip_in_networks, peer_host, walk, resolve_client_ip, x_forwarded_for, x_real_ip,
  forwarded_for, collapse, sanitize_forward_headers,
}
use kube_oidc_proxy.ClientIp.Resolution.{
  IsBelieved, resolve_client_ip-IsBelieved, resolve_client_ip-walk, walk_stopped,
}

pub xff_ne_real_ip : (canonical x_forwarded_for == canonical x_real_ip) ≡ false
unfolding canonical capitalise upper is_token is_alnum lower codes ◌==◌
xff_ne_real_ip = refl

pub real_ip_ne_xff : (canonical x_real_ip == canonical x_forwarded_for) ≡ false
unfolding canonical capitalise upper is_token is_alnum lower codes ◌==◌
real_ip_ne_xff = refl

pub xff_eq_xff : (canonical x_forwarded_for == canonical x_forwarded_for) ≡ true
xff_eq_xff = eq_refl (canonical x_forwarded_for)

pub real_ip_eq_real_ip : (canonical x_real_ip == canonical x_real_ip) ≡ true
real_ip_eq_real_ip = eq_refl (canonical x_real_ip)

xff-del-real_ip : (h : Header) → forwarded_for (del h x_real_ip) ≡ forwarded_for h
unfolding forwarded_for
xff-del-real_ip h = rw (get-del, real_ip_ne_xff) refl

module _ (net : Net) (trusted : List (Option Network)) where
  -- An empty chain resolves to the peer.
  resolve_empty :
      (remote_addr : Text)
      → resolve_client_ip net remote_addr [] trusted ≡ peer_host net remote_addr
  unfolding resolve_client_ip
  resolve_empty remote_addr = refl

  -- A believed hop, sent alone, is believed again.
  resolve_again :
      (remote_addr ip : Text) (hops : List Text)
      → ip_in_networks net (peer_host net remote_addr) trusted ≡ true
      → IsBelieved net trusted hops ip
      → resolve_client_ip net remote_addr ip trusted ≡ ip
  resolve_again remote_addr ip hops peer b =
      resolve_client_ip-walk net trusted remote_addr ip
      ∙ rw peer (rw (split_on_of_Lacks b',' ip b.single) (stopped (Option-cases (net.parse_ip ip))))
    where
      stopped :
          ((net.parse_ip ip ≡ none) ⊎ ((a : Ip) × (net.parse_ip ip ≡ some a)))
          → walk net trusted (peer_host net remote_addr) (ip ∷ []) ≡ ip
      stopped (inl bad) = absurd (false≢true (rw bad at b.valid))
      stopped (inr (a, good)) =
          walk_stopped net trusted _ ip [] {a = a} (rw b.trimmed good) (rw b.trimmed b.untrusted)
          ∙ b.trimmed

  collapse-remote_addr :
      (xff : Text) (req : Request) → (collapse net trusted xff req).remote_addr ≡ req.remote_addr
  unfolding collapse
  collapse-remote_addr xff req = ground arith

  collapse-forwarded_for :
      (xff : Text) (req : Request)
      → let ip = resolve_client_ip net req.remote_addr xff trusted in
        forwarded_for (collapse net trusted xff req).header
        ≡ (if ip == peer_host net req.remote_addr then [] else ip)
  unfolding collapse forwarded_for
  collapse-forwarded_for xff req =
      elim (Bool-cases
        (resolve_client_ip net req.remote_addr xff trusted == peer_host net req.remote_addr)) [
          | inl same ↦ rw same (rw (get-del, xff_eq_xff) refl)
          | inr other ↦ rw other (rw (get-set, xff_eq_xff) refl)
        ]

  collapse-real_ip :
      (xff : Text) (req : Request)
      → get (collapse net trusted xff req).header x_real_ip ≡ get req.header x_real_ip
  unfolding collapse
  collapse-real_ip xff req =
      elim (Bool-cases
        (resolve_client_ip net req.remote_addr xff trusted == peer_host net req.remote_addr)) [
          | inl same ↦ rw same (rw (get-del, xff_ne_real_ip) refl)
          | inr other ↦ rw other (rw (get-set, xff_ne_real_ip) refl)
        ]

  resolve_collapsed :
      (remote_addr xff : Text)
      → let ip = resolve_client_ip net remote_addr xff trusted in
        resolve_client_ip net remote_addr
          (if ip == peer_host net remote_addr then [] else ip)
          trusted
        ≡ ip
  resolve_collapsed remote_addr xff =
      by_origin (resolve_client_ip-IsBelieved net trusted remote_addr xff)
    where
      ip : Text
      ip = resolve_client_ip net remote_addr xff trusted

      peer : Text
      peer = peer_host net remote_addr

      by_origin :
          ((ip ≡ peer)
            ⊎ ((ip_in_networks net peer trusted ≡ true)
                × IsBelieved net trusted (split_on b',' xff) ip))
          → resolve_client_ip net remote_addr (if ip == peer then [] else ip) trusted ≡ ip
      by_origin (inl e) = rw ((eq_iff ip peer).1 e) (resolve_empty remote_addr ∙ sym e)
      by_origin (inr (trust, b)) = elim (Bool-cases (ip == peer)) [
        | inl same ↦ rw same (resolve_empty remote_addr ∙ sym ((eq_iff ip peer).0 same))
        | inr other ↦ rw other (resolve_again remote_addr ip _ trust b)
      ]

  -- The request as it is when the chain is collapsed.
  abbrev pub without_real_ip : Request → Request
  without_real_ip req = record req {
    header = del req.header x_real_ip;
    ctx = record req.ctx { original_forwarded_for = some (forwarded_for req.header) };
  }

  sanitize_unsent :
      (req : Request)
      → is_empty (forwarded_for req.header) ≡ true
      → let req' = sanitize_forward_headers net trusted req in
        (forwarded_for req'.header ≡ [])
        × (get req'.header x_real_ip ≡ [])
        × (req'.remote_addr ≡ req.remote_addr)
  unfolding sanitize_forward_headers
  sanitize_unsent req unsent = elim (Bool-cases (is_empty (get req.header x_real_ip))) [
    | inl neither ↦
        rw (unsent, neither) ((is_empty_iff _).0 unsent, (is_empty_iff _).0 neither, refl)
    | inr one ↦ rw (unsent, one) (kept, gone, refl)
  ]
    where
      kept : forwarded_for (del req.header x_real_ip) ≡ []
      kept = xff-del-real_ip req.header ∙ (is_empty_iff _).0 unsent

      gone : get (del req.header x_real_ip) x_real_ip ≡ []
      gone = rw (get-del, real_ip_eq_real_ip) refl

  pub sanitize_sent :
      (req : Request)
      → is_empty (forwarded_for req.header) ≡ false
      → sanitize_forward_headers net trusted req
        ≡ collapse net trusted (forwarded_for req.header) (without_real_ip req)
  unfolding sanitize_forward_headers
  sanitize_sent req sent = rw sent refl

  -- What the first lines of the two headers read after the sanitiser, and the resolver with them.
  pub sanitize-reads :
      (req : Request)
      → let req' = sanitize_forward_headers net trusted req in
        let ip = resolve_client_ip net req.remote_addr (forwarded_for req.header) trusted in
        (get req'.header x_real_ip ≡ [])
        × ((forwarded_for req'.header ≡ []) ⊎ (forwarded_for req'.header ≡ ip))
        × (resolve_client_ip net req'.remote_addr (forwarded_for req'.header) trusted ≡ ip)
  sanitize-reads req = elim (Bool-cases (is_empty (forwarded_for req.header))) [
    | inl unsent ↦
        let (chain, real_ip, peer) = sanitize_unsent req unsent in
        (real_ip, inl chain, rw (chain, peer, (is_empty_iff _).0 unsent) refl)
    | inr sent ↦ rw (sanitize_sent req sent) (
      collapse-real_ip _ _ ∙ rw (get-del, real_ip_eq_real_ip) refl,
      either _ (collapse-forwarded_for _ _),
      rw (collapse-remote_addr, collapse-forwarded_for) (resolve_collapsed _ _),
    )
  ]
    where
      either : (t : Bool) {x y : Text} → x ≡ (if t then [] else y) → (x ≡ []) ⊎ (x ≡ y)
      either true e = inl e
      either false e = inr e
