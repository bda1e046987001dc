-- ===== src/AccessLog/Fit.antt =====
-- Which values of the access record of pkg/proxy/logging/accesslog.go may hold a control character.
use kube_oidc_proxy.Base.{
  ℕ, Text, codes, Bool, true, false, not, Option, none, some, List, [], ◌∷◌, ◌++◌, ◌≡◌, refl, inl,
  inr, ◌⊎◌, arith, all, All, All-map, All-append, any, if◌then◌else◌, ◌==◌, Holds, is_empty, ltb,
  length,
}
use kube_oidc_proxy.Request.{UserInfo, Request}
use kube_oidc_proxy.Sanitize.{
  sanitize, bound, bounded_list, is_control, max_identity, max_groups, max_request_id,
}
use kube_oidc_proxy.Sanitize.Laws.{IsClean, sanitize-IsClean, bound_lem, bounded_list_lem}
use kube_oidc_proxy.ClientIp.{Net, Network}
use kube_oidc_proxy.Chain.{Decision}
use kube_oidc_proxy.AccessLog.{
  Value, text, texts, count, table, Attr, RequestInfo, Seen, loggable_extras, attr, attr_if,
  sanitize_path, text_or_empty, untrusted_forwarded_for, info_attrs, kubernetes_attrs, user_attrs,
  user_attrs_if, bounded_attr_if, denial_attrs, log_decision, source_ip,
}
use kube_oidc_proxy.AccessLog.Clean.{loggable_extras_lem}

abbrev pub IsCleanValue : Value → Type 0
IsCleanValue (text s) = IsClean s
IsCleanValue (texts ss) = All IsClean ss
IsCleanValue (count n) = Unit
IsCleanValue (table m) = Holds (λ k vs. IsClean k × All IsClean vs) m

-- The keys whose values are written as they are: an address that was parsed or the peer's, the
-- method that net/http parsed, and words of closed sets.
unfoldable pub is_verbatim : Text → Bool
is_verbatim key =
    any (λ k. k == key)
      (codes "src_ip"
        ∷ codes "http_method"
        ∷ codes "auth_method"
        ∷ codes "reason"
        ∷ codes "target_kind"
        ∷ [])

abbrev pub IsFit : Attr → Type 0
IsFit a = (is_verbatim a.key ≡ true) ⊎ IsCleanValue a.value

attr-IsFit : (key : Text) (v : Value) → IsCleanValue v → IsFit (attr key v)
unfolding attr
attr-IsFit key v c = inr c

verbatim-IsFit : (key : Text) (v : Value) → is_verbatim key ≡ true → IsFit (attr key v)
unfolding attr
verbatim-IsFit key v e = inl e

attr_if-IsFit : (t : Bool) (a : Attr) → IsFit a → All IsFit (attr_if t a)
unfolding attr_if
attr_if-IsFit true a f = (f, tt)
attr_if-IsFit false a f = tt

-- A bounded text, put in where a condition holds.
bounded-IsFit :
    (t : Bool) (key s : Text) (max : ℕ) → All IsFit (attr_if t (attr key (text (bound s max))))
bounded-IsFit t key s max = attr_if-IsFit t _ (attr-IsFit key _ (bound_lem s max).0)

sanitized-IsFit : (t : Bool) (key s : Text) → All IsFit (attr_if t (attr key (text (sanitize s))))
sanitized-IsFit t key s = attr_if-IsFit t _ (attr-IsFit key _ (sanitize-IsClean s))

join-IsFit : (xs ys : List Attr) → All IsFit xs → All IsFit ys → All IsFit (xs ++ ys)
join-IsFit xs ys = All-append IsFit xs ys

bounded_attr_if-IsFit :
    (key : Text) (max : ℕ) (o : Option Text) → All IsFit (bounded_attr_if key max o)
unfolding bounded_attr_if
bounded_attr_if-IsFit key max none = tt
bounded_attr_if-IsFit key max (some s) = bounded-IsFit (not (is_empty s)) key s max

info_attrs-IsFit : (info : RequestInfo) → All IsFit (info_attrs info)
unfolding info_attrs
info_attrs-IsFit info = (
  attr-IsFit (codes "k8s_verb") (text (sanitize info.verb)) (sanitize-IsClean info.verb),
  (
    attr-IsFit (codes "k8s_api_group") (text (sanitize info.api_group))
        (sanitize-IsClean info.api_group),
    (
      attr-IsFit (codes "k8s_resource") (text (sanitize info.resource))
          (sanitize-IsClean info.resource),
      join-IsFit _ _
          (sanitized-IsFit (not (is_empty info.subresource)) (codes "k8s_subresource")
            info.subresource)
          (join-IsFit _ _
            (sanitized-IsFit (not (is_empty info.namespace)) (codes "k8s_namespace") info.namespace)
            (bounded-IsFit (not (is_empty info.name)) (codes "k8s_name") info.name max_identity)),
    ),
  ),
)

kubernetes_attrs-IsFit : (o : Option RequestInfo) → All IsFit (kubernetes_attrs o)
unfolding kubernetes_attrs
kubernetes_attrs-IsFit none = tt
kubernetes_attrs-IsFit (some info) = resource (not info.is_resource_request)
  where
    resource : (t : Bool) → All IsFit (if t then [] else info_attrs info)
    resource true = tt
    resource false = info_attrs-IsFit info

-- A number, put in where it is positive.
count-IsFit : (n : ℕ) (key : Text) → All IsFit (attr_if (ltb 0 n) (attr key (count n)))
count-IsFit n key = attr_if-IsFit (ltb 0 n) (attr key (count n)) (attr-IsFit key (count n) tt)

table-IsFit :
    (m : List (Text × List Text)) (key : Text)
    → IsCleanValue (table m)
    → All IsFit (attr_if (ltb 0 (length m)) (attr key (table m)))
table-IsFit m key c =
    attr_if-IsFit (ltb 0 (length m)) (attr key (table m)) (attr-IsFit key (table m) c)

user_attrs-IsFit : (prefix : Text) (u : UserInfo) → All IsFit (user_attrs prefix u)
unfolding user_attrs
user_attrs-IsFit prefix u =
    let (groups, few, all) = bounded_list_lem u.groups max_groups in
    let (found, number, safe) = loggable_extras_lem u.extra in
    let kept : List Text = (bounded_list u.groups max_groups).0 in
    (
      attr-IsFit (prefix ++ codes "_user") (text (bound u.name max_identity))
          (bound_lem u.name max_identity).0,
      (
        attr-IsFit (prefix ++ codes "_groups") (texts kept) (All-map _ _ (λ v c. c.0) kept groups),
        join-IsFit _ _
            (count-IsFit (bounded_list u.groups max_groups).1 (prefix ++ codes "_groups_omitted"))
            (join-IsFit _ _
              (bounded-IsFit (not (is_empty u.uid)) (prefix ++ codes "_uid") u.uid max_identity)
              (join-IsFit _ _
                (table-IsFit (loggable_extras u.extra).0 (prefix ++ codes "_extra") safe)
                (count-IsFit (loggable_extras u.extra).1 (prefix ++ codes "_extra_omitted")))),
      ),
    )

user_attrs_if-IsFit : (prefix : Text) (o : Option UserInfo) → All IsFit (user_attrs_if prefix o)
unfolding user_attrs_if
user_attrs_if-IsFit prefix none = tt
user_attrs_if-IsFit prefix (some u) = user_attrs-IsFit prefix u

word-IsFit :
    (t : Bool) (key s : Text) → is_verbatim key ≡ true → All IsFit (attr_if t (attr key (text s)))
word-IsFit t key s e = attr_if-IsFit t (attr key (text s)) (verbatim-IsFit key (text s) e)

denial_attrs-IsFit : (d : Decision) → All IsFit (denial_attrs d)
unfolding denial_attrs is_verbatim codes ◌==◌
denial_attrs-IsFit d =
    join-IsFit _ _ (word-IsFit (not (is_empty d.reason)) (codes "reason") d.reason refl) (
      join-IsFit _ _
        (word-IsFit (not (is_empty d.target_kind)) (codes "target_kind") d.target_kind refl)
        (bounded-IsFit (not (is_empty d.target_name)) (codes "target_name") d.target_name
          max_identity))

denial_if-IsFit : (t : Bool) (d : Decision) → All IsFit (if t then denial_attrs d else [])
denial_if-IsFit true d = denial_attrs-IsFit d
denial_if-IsFit false d = tt

all-IsClean : (s : Text) → all (λ r. not (is_control r)) s ≡ true → IsClean s
all-IsClean [] e = tt
all-IsClean (r ∷ s) e = (ground (arith, e), all-IsClean s (ground (arith, e)))

event-IsClean : (t : Bool) → IsClean (if t then codes "AuSuccess" else codes "AuFail")
unfolding codes is_control
event-IsClean true = all-IsClean (codes "AuSuccess") refl
event-IsClean false = all-IsClean (codes "AuFail") refl

decision-IsClean : (t : Bool) → IsClean (if t then codes "allow" else codes "deny")
unfolding codes is_control
decision-IsClean true = all-IsClean (codes "allow") refl
decision-IsClean false = all-IsClean (codes "deny") refl

sanitize_path-IsClean : (o : Option Text) → IsClean (sanitize_path o)
unfolding sanitize_path
sanitize_path-IsClean none = tt
sanitize_path-IsClean (some path) = sanitize-IsClean path

untrusted-IsClean : (req : Request) → IsClean (untrusted_forwarded_for req)
unfolding untrusted_forwarded_for
untrusted-IsClean req = sanitize-IsClean _

are_verbatim :
    (is_verbatim (codes "src_ip") ≡ true)
    × (is_verbatim (codes "http_method") ≡ true)
    × (is_verbatim (codes "auth_method") ≡ true)
unfolding is_verbatim codes ◌==◌
are_verbatim = (refl, refl, refl)

-- Whatever the client sends and whoever it is, no value of the access record holds a control
-- character, but for those under the five keys that are written as they are.
pub log_decision-IsFit :
    (net : Net) (trusted : List (Option Network)) (req : Request) (seen : Seen) (d : Decision)
    → All IsFit (log_decision net trusted req seen d)
unfolding log_decision
log_decision-IsFit net trusted req seen d =
    let fwd : Text = untrusted_forwarded_for req in
    let id : Text = text_or_empty req.ctx.request_id in
    let (ip, method, auth) = are_verbatim in
    (
      attr-IsFit (codes "request_id") (text (bound id max_request_id))
          (bound_lem id max_request_id).0,
      join-IsFit _ _
          (bounded_attr_if-IsFit (codes "client_request_id") max_request_id
            req.ctx.client_request_id)
          (
            attr-IsFit (codes "event") (text _) (event-IsClean d.allowed),
            (
              verbatim-IsFit (codes "src_ip") (text (source_ip net trusted req)) ip,
              (
                attr-IsFit (codes "path") (text (sanitize_path seen.path))
                    (sanitize_path-IsClean seen.path),
                join-IsFit _ _
                    (attr_if-IsFit (not (is_empty fwd))
                      (attr (codes "forwarded_for_untrusted") (text fwd))
                      (attr-IsFit (codes "forwarded_for_untrusted") (text fwd)
                        (untrusted-IsClean req)))
                    (
                      verbatim-IsFit (codes "http_method") (text seen.method) method,
                      (
                        verbatim-IsFit (codes "auth_method") (text d.auth_method) auth,
                        join-IsFit _ _
                            (bounded_attr_if-IsFit (codes "issuer_name") max_identity
                              req.ctx.issuer_name)
                            (join-IsFit _ _ (kubernetes_attrs-IsFit seen.info) (
                              attr-IsFit (codes "decision") (text _) (decision-IsClean d.allowed),
                              join-IsFit _ _ (denial_if-IsFit (not d.allowed) d) (
                                  join-IsFit _ _ (user_attrs_if-IsFit (codes "inbound") d.inbound)
                                    (user_attrs_if-IsFit (codes "outbound") d.outbound)),
                            )),
                      ),
                    ),
              ),
            ),
          ),
    )
