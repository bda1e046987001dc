-- ===== src/ClientIp.antt =====
-- Client addresses: the resolver and the header sanitiser of pkg/proxy/context/context.go.
-- net.ParseIP and net.SplitHostPort are the fields of `Net`; net.IP is its bytes, and
-- net.IPNet.Contains is modelled. The package variable `trustedProxies` is an argument.
pub mod Resolution
pub mod Sanitizing
pub mod Absent
use Prim.Native.Nat.{bit_and}
use kube_oidc_proxy.Base.{
  ℕ, Text, codes, ◌==◌, Bool, true, false, not, ◌&&◌, ◌||◌, Option, none, some, List, [], ◌∷◌, ◌≡◌,
  length, all, eqb, if◌then◌else◌, is_empty, trim_space, split_on, reverse,
}
use kube_oidc_proxy.Header.{Header, get, set, del}
use kube_oidc_proxy.Request.{Request}

abbrev pub Ip : Type 0
Ip = List ℕ

pub record Network : Type 0 where
  pub ip : Ip
  pub mask : List ℕ

-- The parsers of package net, with the one law that is used: no address is empty.
pub record Net : Type 0 where
  pub parse_ip : Text → Option Ip
  pub split_host_port : Text → Option Text
  pub parse_ip-empty : parse_ip [] ≡ none

-- IP.To4: the four-byte form of an address that has one.
to4 : Ip → Option Ip
to4 (a ∷ b ∷ c ∷ d ∷ []) = some (a ∷ b ∷ c ∷ d ∷ [])
to4 (a ∷ b ∷ c ∷ d ∷ e ∷ f ∷ g ∷ h ∷ i ∷ j ∷ k ∷ l ∷ m ∷ n ∷ o ∷ p ∷ []) =
    if all (eqb 0) (a ∷ b ∷ c ∷ d ∷ e ∷ f ∷ g ∷ h ∷ i ∷ j ∷ []) && eqb k 255 && eqb l 255
    then some (m ∷ n ∷ o ∷ p ∷ [])
    else none
to4 _ = none

abbrev or_else : Option Ip → Ip → Ip
or_else none ip = ip
or_else (some x) ip = x

abbrev drop12 : List ℕ → List ℕ
drop12 (_ ∷ _ ∷ _ ∷ _ ∷ _ ∷ _ ∷ _ ∷ _ ∷ _ ∷ _ ∷ _ ∷ _ ∷ m) = m
drop12 m = m

-- The mask at the length of the network's address; none where the two do not fit.
mask_for : Ip → List ℕ → Option (List ℕ)
mask_for ip m =
    if eqb (length m) 4
    then (if eqb (length ip) 4 then some m else none)
    else (if eqb (length m) 16 then some (if eqb (length ip) 4 then drop12 m else m) else none)

same_under : List ℕ → Ip → Ip → Bool
same_under (m ∷ ms) (a ∷ xs) (b ∷ ys) = eqb (bit_and a m) (bit_and b m) && same_under ms xs ys
same_under _ [] [] = true
same_under _ _ _ = false

-- IPNet.Contains
unfoldable pub contains : Network → Ip → Bool
unfolding to4 mask_for same_under
contains n ip =
    let base = or_else (to4 n.ip) n.ip in
    elim (mask_for base n.mask) [ none ↦ false | some m ↦ same_under m base (or_else (to4 ip) ip) ]

-- The loop of IPInNetworks over networks that may be nil.
unfoldable pub contained : Ip → List (Option Network) → Bool
contained ip [] = false
contained ip (none ∷ ns) = contained ip ns
contained ip (some n ∷ ns) = contains n ip || contained ip ns

unfoldable pub ip_in_networks : Net → Text → List (Option Network) → Bool
ip_in_networks net ip [] = false
ip_in_networks net ip (n ∷ ns) = elim (net.parse_ip ip) [
  | none ↦ false
  | some parsed ↦ contained parsed (n ∷ ns)
]

unfoldable pub peer_host : Net → Text → Text
peer_host net [] = []
peer_host net (c ∷ s) = elim (net.split_host_port (c ∷ s)) [ some host ↦ host | none ↦ c ∷ s ]

-- The loop over the hops, from the one nearest to the proxy.
unfoldable pub walk : Net → List (Option Network) → Text → List Text → Text
walk net trusted peer [] = peer
walk net trusted peer (hop ∷ hops) =
    let ip = trim_space hop in
    let further = walk net trusted peer hops in
    elim (net.parse_ip ip) [
      | none ↦ peer
      | some _ ↦ if ip_in_networks net ip trusted then further else ip
    ]

unfoldable pub resolve_client_ip : Net → Text → Text → List (Option Network) → Text
resolve_client_ip net remote_addr xff trusted =
    let peer = peer_host net remote_addr in
    if is_empty xff || not (ip_in_networks net peer trusted)
    then peer
    else walk net trusted peer (reverse (split_on b',' xff))

abbrev pub x_forwarded_for : Text
x_forwarded_for = codes "X-Forwarded-For"

abbrev pub x_real_ip : Text
x_real_ip = codes "X-Real-Ip"

unfoldable pub forwarded_for : Header → Text
forwarded_for h = get h x_forwarded_for

-- What is done to X-Forwarded-For once X-Real-Ip is gone.
unfoldable pub collapse : Net → List (Option Network) → Text → Request → Request
collapse net trusted xff req =
    let resolved = resolve_client_ip net req.remote_addr xff trusted in
    if resolved == peer_host net req.remote_addr
    then record req { header = del req.header x_forwarded_for }
    else record req { header = set req.header x_forwarded_for resolved }

unfoldable pub sanitize_forward_headers : Net → List (Option Network) → Request → Request
sanitize_forward_headers net trusted req =
    let xff = forwarded_for req.header in
    if is_empty xff && is_empty (get req.header x_real_ip)
    then req
    else (if is_empty xff
        then record req { header = del req.header x_real_ip }
        else collapse net trusted xff (record req {
          header = del req.header x_real_ip;
          ctx = record req.ctx { original_forwarded_for = some xff };
        }))

-- RemoteAddr resolves once and keeps the answer on the context.
unfoldable pub remote_addr : Net → List (Option Network) → Request → Request × Text
remote_addr net trusted req = elim req.ctx.client_address [
  | some address ↦ (req, address)
  | none ↦
      let address = resolve_client_ip net req.remote_addr (forwarded_for req.header) trusted in
      (record req { ctx = record req.ctx { client_address = some address } }, address)
]
