-- ===== src/RequestId.antt =====
-- The correlation id of a request: pkg/proxy/requestid.go. `uuid.NewUUID` gives the `fresh` id.
pub mod Laws
use kube_oidc_proxy.Base.{
  ℕ, Text, codes, Bool, ◌||◌, not, ◌&&◌, Option, some, List, [], ◌∷◌, length, any, ltb, leb,
  if◌then◌else◌, is_empty, trim_space,
}
use kube_oidc_proxy.Header.{Header, get, set, del}
use kube_oidc_proxy.Request.{Request}
use kube_oidc_proxy.ClientIp.{Net, Network, ip_in_networks, peer_host}

abbrev pub header_audit_id : Text
header_audit_id = codes "Audit-ID"

abbrev pub header_request_id : Text
header_request_id = codes "X-Request-ID"

abbrev pub max_request_id_len : ℕ
max_request_id_len = 64

-- A rune that the loop refuses: not ASCII, not printable, or white space. A byte from 128 on
-- begins a rune that is not ASCII.
unfoldable pub refused : ℕ → Bool
refused r = ltb 127 r || not (leb b' ' r && leb r b'~') || leb r b' '

unfoldable pub valid_request_id : Text → Text
valid_request_id v =
    if is_empty v || ltb max_request_id_len (length v)
    then []
    else (if any refused v then [] else trim_space v)

unfoldable pub peer_is_trusted : Net → Text → List (Option Network) → Bool
peer_is_trusted net remote_addr trusted = ip_in_networks net (peer_host net remote_addr) trusted

-- The id that the client sent, from the first of the two headers that holds a valid one.
unfoldable pub inbound_id : Header → Text
inbound_id h =
    let audit = valid_request_id (get h header_audit_id) in
    if is_empty audit then valid_request_id (get h header_request_id) else audit

-- The context and the id for an inbound value that may be empty.
unfoldable pub choose_id : Net → List (Option Network) → Text → Text → Request → Request × Text
choose_id net trusted fresh inbound req = if is_empty inbound then (req, fresh) else (
  record req { ctx = record req.ctx { client_request_id = some inbound } },
  if peer_is_trusted net req.remote_addr trusted then inbound else fresh,
)

-- The filter up to the call of the next handler: the request that goes on, and the headers of the
-- response.
unfoldable pub with_request_id :
    Net → List (Option Network) → Text → Header → Request → Request × Header
with_request_id net trusted fresh response req =
    let (req', id) = choose_id net trusted fresh (inbound_id req.header) req in
    (
      record req' {
        header = del (set req'.header header_audit_id id) header_request_id;
        ctx = record req'.ctx { request_id = some id };
      },
      set response header_audit_id id,
    )
