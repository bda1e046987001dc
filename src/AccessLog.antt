-- ===== src/AccessLog.antt =====
-- The access record: pkg/proxy/logging/accesslog.go. An attribute of log/slog is its key and its
-- value; the destination of the record is left out. The request info of k8s.io/apiserver and the
-- path of the request's URL are arguments. A text is the list of its code points.
pub mod Clean
pub mod Address
pub mod Fit
use kube_oidc_proxy.Base.{
  ℕ, zero, suc, Text, codes, Bool, true, false, not, ◌&&◌, ◌||◌, Option, none, some, List, [], ◌∷◌,
  ◌++◌, any, ltb, length, is_empty, if◌then◌else◌, ◌==◌, insert, split_on, trim_space,
}
use kube_oidc_proxy.Header.{get}
use kube_oidc_proxy.Request.{UserInfo, Request}
use kube_oidc_proxy.Sanitize.{
  sanitize, bound, sanitize_list, bounded_list, max_identity, max_request_id, max_groups,
}
use kube_oidc_proxy.ClientIp.{Net, Network, ip_in_networks, peer_host, forwarded_for}
use kube_oidc_proxy.Chain.{Decision}

-- slog.Value, of the kinds that the record has.
pub data Value : Type 0 where
  text : Text → Value
  texts : List Text → Value
  count : ℕ → Value
  table : List (Text × List Text) → Value

pub record Attr : Type 0 where
  pub key : Text
  pub value : Value

-- RequestInfo of k8s.io/apiserver, the fields that are read.
pub record RequestInfo : Type 0 where
  pub is_resource_request : Bool
  pub verb : Text
  pub api_group : Text
  pub resource : Text
  pub subresource : Text
  pub namespace : Text
  pub name : Text

-- What the record takes of the HTTP request besides `Request`; a URL may be nil.
pub record Seen : Type 0 where
  pub path : Option Text
  pub method : Text
  pub info : Option RequestInfo

unfoldable pub loggable_extra_keys : List Text
loggable_extra_keys =
    codes "Remote-Client-IP"
    ∷ codes "originaluser.jetstack.io-user"
    ∷ codes "originaluser.jetstack.io-groups"
    ∷ codes "originaluser.jetstack.io-uid"
    ∷ []

unfoldable pub fixed_impersonation_extra_keys : List Text
fixed_impersonation_extra_keys =
    codes "Remote-Client-IP"
    ∷ codes "originaluser.jetstack.io-user"
    ∷ codes "originaluser.jetstack.io-groups"
    ∷ codes "originaluser.jetstack.io-uid"
    ∷ codes "originaluser.jetstack.io-extra"
    ∷ []

unfoldable pub is_loggable : Text → Bool
is_loggable k = any (λ j. j == k) loggable_extra_keys

-- The loop of loggableExtras, over the entries in some order.
unfoldable pub loggable_extras : List (Text × List Text) → List (Text × List Text) × ℕ
loggable_extras [] = ([], 0)
loggable_extras ((k, v) ∷ extra) =
    let (safe, omitted) = loggable_extras extra in
    if is_loggable k
    then (insert (sanitize k) (sanitize_list v) safe, omitted)
    else (safe, suc omitted)

unfoldable pub attr : Text → Value → Attr
attr key value = record { key = key; value = value }

-- An attribute that is there under a condition.
unfoldable pub attr_if : Bool → Attr → List Attr
attr_if true a = a ∷ []
attr_if false a = []

unfoldable pub sanitize_path : Option Text → Text
sanitize_path none = []
sanitize_path (some path) = sanitize path

-- What a getter of the context gives where nothing was set.
unfoldable pub text_or_empty : Option Text → Text
text_or_empty none = []
text_or_empty (some xff) = xff

unfoldable pub untrusted_forwarded_for : Request → Text
untrusted_forwarded_for req =
    let raw = text_or_empty req.ctx.original_forwarded_for in
    sanitize (if is_empty raw then forwarded_for req.header else raw)

unfoldable pub info_attrs : RequestInfo → List Attr
info_attrs info =
    attr (codes "k8s_verb") (text (sanitize info.verb))
    ∷ attr (codes "k8s_api_group") (text (sanitize info.api_group))
    ∷ attr (codes "k8s_resource") (text (sanitize info.resource))
    ∷ (attr_if (not (is_empty info.subresource))
          (attr (codes "k8s_subresource") (text (sanitize info.subresource)))
        ++ (attr_if (not (is_empty info.namespace))
              (attr (codes "k8s_namespace") (text (sanitize info.namespace)))
            ++ attr_if (not (is_empty info.name))
                (attr (codes "k8s_name") (text (bound info.name max_identity)))))

unfoldable pub kubernetes_attrs : Option RequestInfo → List Attr
kubernetes_attrs none = []
kubernetes_attrs (some info) = if not info.is_resource_request then [] else info_attrs info

unfoldable pub user_attrs : Text → UserInfo → List Attr
user_attrs prefix u =
    let (groups, groups_omitted) = bounded_list u.groups max_groups in
    let (safe, omitted) = loggable_extras u.extra in
    attr (prefix ++ codes "_user") (text (bound u.name max_identity))
    ∷ attr (prefix ++ codes "_groups") (texts groups)
    ∷ (attr_if (ltb 0 groups_omitted)
          (attr (prefix ++ codes "_groups_omitted") (count groups_omitted))
        ++ (attr_if (not (is_empty u.uid))
              (attr (prefix ++ codes "_uid") (text (bound u.uid max_identity)))
            ++ (attr_if (ltb 0 (length safe)) (attr (prefix ++ codes "_extra") (table safe))
                ++ attr_if (ltb 0 omitted)
                    (attr (prefix ++ codes "_extra_omitted") (count omitted)))))

unfoldable pub user_attrs_if : Text → Option UserInfo → List Attr
user_attrs_if prefix none = []
user_attrs_if prefix (some u) = user_attrs prefix u

-- A text of the context that is logged where it is not empty.
unfoldable pub bounded_attr_if : Text → ℕ → Option Text → List Attr
bounded_attr_if key max none = []
bounded_attr_if key max (some s) = attr_if (not (is_empty s)) (attr key (text (bound s max)))

unfoldable pub denial_attrs : Decision → List Attr
denial_attrs d =
    attr_if (not (is_empty d.reason)) (attr (codes "reason") (text d.reason))
    ++ (attr_if (not (is_empty d.target_kind)) (attr (codes "target_kind") (text d.target_kind))
        ++ attr_if (not (is_empty d.target_name))
            (attr (codes "target_name") (text (bound d.target_name max_identity))))

unfoldable pub hop_at : ℕ → List Text → Text
hop_at n [] = []
hop_at zero (hop ∷ hops) = hop
hop_at (suc n) (hop ∷ hops) = hop_at n hops

module _ (net : Net) (trusted : List (Option Network)) where
  -- The loop over the hops below an index, from the last one.
  unfoldable pub walk_below : ℕ → Text → List Text → Text
  walk_below zero peer hops = peer
  walk_below (suc i) peer hops =
      let ip = trim_space (hop_at i hops) in
      let further = walk_below i peer hops in
      elim (net.parse_ip ip) [
        | none ↦ peer
        | some _ ↦ if ip_in_networks net ip trusted then further else ip
      ]

  unfoldable pub resolve_client_ip : Text → Text → Text
  resolve_client_ip remote_addr xff =
      let peer = peer_host net remote_addr in
      let hops = split_on b',' xff in
      if is_empty xff || not (ip_in_networks net peer trusted)
      then peer
      else walk_below (length hops) peer hops

  unfoldable pub source_ip : Request → Text
  source_ip req = resolve_client_ip req.remote_addr (forwarded_for req.header)

  -- The attributes of LogDecision.
  unfoldable pub log_decision : Request → Seen → Decision → List Attr
  log_decision req seen d =
      let fwd = untrusted_forwarded_for req in
      attr (codes "request_id") (text (bound (text_or_empty req.ctx.request_id) max_request_id))
      ∷ (bounded_attr_if (codes "client_request_id") max_request_id req.ctx.client_request_id
          ++ (attr (codes "event") (text (if d.allowed then codes "AuSuccess" else codes "AuFail"))
              ∷ attr (codes "src_ip") (text (source_ip req))
              ∷ attr (codes "path") (text (sanitize_path seen.path))
              ∷ (attr_if (not (is_empty fwd)) (attr (codes "forwarded_for_untrusted") (text fwd))
                  ++ (attr (codes "http_method") (text seen.method)
                      ∷ attr (codes "auth_method") (text d.auth_method)
                      ∷ (bounded_attr_if (codes "issuer_name") max_identity req.ctx.issuer_name
                          ++ (kubernetes_attrs seen.info
                              ++ (attr (codes "decision")
                                    (text (if d.allowed then codes "allow" else codes "deny"))
                                  ∷ ((if not d.allowed then denial_attrs d else [])
                                      ++ (user_attrs_if (codes "inbound") d.inbound
                                          ++ user_attrs_if (codes "outbound") d.outbound)))))))))
