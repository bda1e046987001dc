-- ===== src/Examples/Clients.antt =====
-- Runs of the address resolver, the sanitiser and the correlation id.
use kube_oidc_proxy.Base.{
  ◌↔◌, lookup, lower, none, arith, Text, codes, ◌==◌, true, some, [], ◌∷◌, ◌++◌, ◌≡◌, ◌⊎◌, refl,
  split_on, any, trim_space, trim_left, trim_right, drop_runs, front_space, back_space,
  is_wide_pair, is_wide_triple, is_space,
}
use kube_oidc_proxy.Header.{Header, get, values, canonical, capitalise, upper, is_token, is_alnum}
use kube_oidc_proxy.ClientIp.{
  ip_in_networks, contained, contains, peer_host, walk, resolve_client_ip, sanitize_forward_headers,
  x_real_ip, x_forwarded_for, forwarded_for,
}
use kube_oidc_proxy.ClientIp.Resolution.{
  stops, IsBelieved, resolve_client_ip-IsBelieved, resolve_client_ip-append,
}
use kube_oidc_proxy.ClientIp.Absent.{IsFilled, resolve-sanitize}
use kube_oidc_proxy.RequestId.{valid_request_id}
use kube_oidc_proxy.RequestId.Laws.{IsValid, valid_request_id_cases}
use kube_oidc_proxy.Examples.Addresses.{net, trusted, request}

abbrev peer : Text
peer = codes "10.0.0.1:443"

abbrev chain : Text
chain = codes "1.1.1.1, 9.9.9.9 ,10.0.0.7"

resolved_chain : resolve_client_ip net peer chain trusted ≡ codes "9.9.9.9"
unfolding codes resolve_client_ip peer_host ip_in_networks contained walk split_on trim_space
    trim_left trim_right drop_runs front_space back_space is_wide_pair is_wide_triple is_space ◌==◌
    contains
resolved_chain = refl

resolve_client_ip-IsBelieved_example :
    (resolve_client_ip net peer chain trusted ≡ peer_host net peer)
    ⊎ ((ip_in_networks net (peer_host net peer) trusted ≡ true)
        × IsBelieved net trusted (split_on b',' chain) (resolve_client_ip net peer chain trusted))
resolve_client_ip-IsBelieved_example = resolve_client_ip-IsBelieved net trusted peer chain

chain_not_believed : any (stops net trusted) (split_on b',' chain) ≡ true
unfolding codes ip_in_networks contained split_on trim_space trim_left trim_right drop_runs
    front_space back_space is_wide_pair is_wide_triple is_space ◌==◌ contains
chain_not_believed = refl

resolve_client_ip-append_example :
    resolve_client_ip net peer (codes "7.7.7.7" ++ b',' ∷ chain) trusted
    ≡ resolve_client_ip net peer chain trusted
resolve_client_ip-append_example =
    resolve_client_ip-append net trusted peer (codes "7.7.7.7") chain chain_not_believed

abbrev headers : Header
headers =
    (codes "X-Forwarded-For", chain ∷ [])
    ∷ (codes "X-Real-Ip", codes "6.6.6.6" ∷ [])
    ∷ (codes "Audit-Id", codes "abc-1" ∷ [])
    ∷ []

real_ip_IsFilled : IsFilled headers x_real_ip
unfolding get codes canonical capitalise upper is_token is_alnum lower ◌==◌ lookup values
real_ip_IsFilled e = ground (arith, e)

chain_IsFilled : IsFilled headers x_forwarded_for
unfolding get codes canonical capitalise upper is_token is_alnum lower ◌==◌ lookup values
chain_IsFilled e = ground (arith, e)

resolve-sanitize_example :
    let req = request headers peer in
    let req' = sanitize_forward_headers net trusted req in
    let ip = resolve_client_ip net peer (forwarded_for headers) trusted in
    (lookup (canonical x_real_ip) req'.header ≡ none)
    × ((lookup (canonical x_forwarded_for) req'.header ≡ none)
        ⊎ (lookup (canonical x_forwarded_for) req'.header ≡ some (ip ∷ [])))
    × (resolve_client_ip net req'.remote_addr (forwarded_for req'.header) trusted ≡ ip)
resolve-sanitize_example =
    resolve-sanitize net trusted (request headers peer) real_ip_IsFilled chain_IsFilled

valid_request_id_cases_example :
    ((valid_request_id (codes "abc-1") ≡ codes "abc-1")
      ↔ ((codes "abc-1" ≡ []) ⊎ IsValid (codes "abc-1")))
    × ((valid_request_id (codes "abc-1") ≡ []) ↔ ¬ IsValid (codes "abc-1"))
valid_request_id_cases_example = valid_request_id_cases (codes "abc-1")
