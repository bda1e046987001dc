-- ===== src/Examples/Addresses.antt =====
-- A small net.ParseIP and net.SplitHostPort, for dotted addresses, and the addresses of the runs.
use kube_oidc_proxy.Base.{
  ℕ, ◌+◌, ◌-◌, ◌*◌, Text, Bool, Option, none, some, List, [], ◌∷◌, ◌≡◌, refl, split_on,
}
use kube_oidc_proxy.Header.{Header}
use kube_oidc_proxy.Request.{Context, Request}
use kube_oidc_proxy.ClientIp.{Ip, Net, Network}

abbrev decimal : ℕ → Text → ℕ
decimal n [] = n
decimal n (c ∷ s) = decimal (n * 10 + (c - b'0')) s

abbrev dotted : List Text → Option Ip
dotted ((a ∷ s) ∷ (b ∷ t) ∷ (c ∷ u) ∷ (d ∷ v) ∷ []) =
    some (decimal 0 (a ∷ s) ∷ decimal 0 (b ∷ t) ∷ decimal 0 (c ∷ u) ∷ decimal 0 (d ∷ v) ∷ [])
dotted _ = none

abbrev before_port : List Text → Option Text
before_port (host ∷ port ∷ []) = some host
before_port _ = none

abbrev parse_dotted : Text → Option Ip
parse_dotted s = dotted (split_on b'.' s)

pub no_address : parse_dotted [] ≡ none
unfolding split_on
no_address = refl

abbrev pub net : Net
net = record {
  parse_ip = parse_dotted;
  split_host_port = λ s. before_port (split_on b':' s);
  parse_ip-empty = no_address;
}

-- 10.0.0.0/8, behind a nil network
abbrev pub trusted : List (Option Network)
trusted = none ∷ some (record { ip = 10 ∷ 0 ∷ 0 ∷ 0 ∷ []; mask = 255 ∷ 0 ∷ 0 ∷ 0 ∷ [] }) ∷ []

abbrev pub no_context : Context
no_context = record {
  no_impersonation = Bool.false;
  impersonation_config = none;
  bearer_token = none;
  client_address = none;
  original_forwarded_for = none;
  request_id = none;
  client_request_id = none;
  issuer_name = none;
  auth_method = none;
  user = none;
}

abbrev pub request : Header → Text → Request
request h peer = record { header = h; remote_addr = peer; ctx = no_context }
