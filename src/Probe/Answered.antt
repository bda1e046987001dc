-- ===== src/Probe/Answered.antt =====
-- Where the initialized issuers of pkg/probe/probe.go come from, and what their gauges say.
use kube_oidc_proxy.Base.{
  arith, ◌⊎◌, inl, inr, ◌||◌, codes, ◌==◌, has_substring, any, Text, Bool, true, false, not, Option,
  none, some, List, [], ◌∷◌, ◌≡◌, refl, ◌∙◌, sym, subst, All, All_of_Member, Member, if◌then◌else◌,
}
use kube_oidc_proxy.Probe.{
  Issuer, Answer, ProbeError, HealthCheck, Round, set_serving, is_initialized, to_probe, add_result,
  probe, holds_back, pending_reason, is_not_initialized, is_transient, transient_markers, mark_all,
  mark, record_probe_results, conclude, with_metrics, new_server,
}
use kube_oidc_proxy.Probe.Recording.{mark-initialized, report_change-initialized}
use kube_oidc_proxy.Probe.Evaluating.{conclude-kept}
use kube_oidc_proxy.Probe.Picking.{IsPicked, take_round-IsPicked}
use kube_oidc_proxy.Probe.Rounds.{
  System, Move, serve, begin, finish, take_round, record_round, step, run, start,
}

module _ (parse_host : Text → Option Text) where
  record_round-issuers :
      (o : Option (Round × List Round)) (s : System)
      → (record_round parse_host o s).health.issuers ≡ s.health.issuers
  unfolding record_round
  record_round-issuers none s = refl
  record_round-issuers (some (r, rest)) s = (conclude-kept parse_host r s.health).0

  begun-issuers :
      (t : Bool) (rs : List Round) (s : System)
      → (if t then record s { rounds = rs } else s).health.issuers ≡ s.health.issuers
  begun-issuers true rs s = refl
  begun-issuers false rs s = refl

  -- The issuers are those of the start.
  pub step-issuers :
      (m : Move) (s : System) → (step parse_host m s).health.issuers ≡ s.health.issuers
  unfolding step set_serving
  step-issuers serve s = refl
  step-issuers (begin authenticate) s = begun-issuers s.health.serving _ s
  step-issuers (finish n) s = record_round-issuers (take_round n s.rounds) s

module _ (P : Text → Type 0) where
  -- The answers of a move vouch for the issuers that they find initialized.
  unfoldable pub Allows : List Issuer → Move → Type 0
  Allows issuers serve = Unit
  Allows issuers (finish n) = Unit
  Allows issuers (begin authenticate) =
      All (λ i. holds_back (authenticate i.fake_jwt).error ≡ none → P i.issuer_url) issuers

  abbrev pub Vouched : HealthCheck → List Round → Type 0
  Vouched h rounds = All P h.initialized × All (λ r. All P r.newly) rounds

  either_list : (t : Bool) (xs ys : List Text) → All P xs → All P ys → All P (if t then xs else ys)
  either_list true xs ys p q = p
  either_list false xs ys p q = q

  module _ (parse_host : Text → Option Text) where
    mark_all-Vouched :
        (urls : List Text) (h : HealthCheck)
        → All P urls
        → All P h.initialized
        → All P (mark_all parse_host urls h).initialized
    unfolding mark_all
    mark_all-Vouched [] h p q = q
    mark_all-Vouched (url ∷ urls) h (p, ps) q = mark_all-Vouched urls (mark parse_host url h) ps (
        subst (All P) (sym (mark-initialized parse_host url h))
          (either_list (is_initialized h.initialized url) _ _ q (p, q)))

    conclude-Vouched :
        (r : Round) (h : HealthCheck)
        → All P r.newly
        → All P h.initialized
        → All P (conclude parse_host r h).1.initialized
    unfolding record_probe_results
    conclude-Vouched r h p q =
        let (issuers, mode, serving, urls) = conclude-kept parse_host r h in
        subst (All P) (sym (urls ∙ report_change-initialized parse_host _ _))
          (mark_all-Vouched r.newly h p q)

    probe-Vouched :
        (authenticate : Text → Answer) (urls : List Text) (is : List Issuer)
        → All (λ i. holds_back (authenticate i.fake_jwt).error ≡ none → P i.issuer_url) is
        → All P (probe authenticate (to_probe urls is)).newly
    unfolding probe to_probe add_result
    probe-Vouched authenticate urls [] a = tt
    probe-Vouched authenticate urls (i ∷ is) (p, a) =
        step (is_initialized urls i.issuer_url) (holds_back (authenticate i.fake_jwt).error) refl
          (to_probe urls is) (probe-Vouched authenticate urls is a)
      where
        step :
            (t : Bool) (held : Option Text)
            → holds_back (authenticate i.fake_jwt).error ≡ held
            → (js : List Issuer) → All P (probe authenticate js).newly
            → All P (probe authenticate (if not t then i ∷ js else js)).newly
        step true held e js h = h
        step false none e js h = rw e (p e, h)
        step false (some reason) e js h = rw e h

    begun-Vouched :
        (t : Bool) (r : Round) (s : System)
        → All P r.newly
        → Vouched s.health s.rounds
        → Vouched
            (if t then record s { rounds = r ∷ s.rounds } else s).health
            (if t then record s { rounds = r ∷ s.rounds } else s).rounds
    begun-Vouched true r s a (b, c) = (b, (a, c))
    begun-Vouched false r s a b = b

    recorded-Vouched :
        (o : Option (Round × List Round)) (s : System)
        → IsPicked (λ r. All P r.newly) o
        → Vouched s.health s.rounds
        → Vouched (record_round parse_host o s).health (record_round parse_host o s).rounds
    unfolding record_round IsPicked
    recorded-Vouched none s p h = h
    recorded-Vouched (some (r, rest)) s (p, q) (a, b) = (conclude-Vouched r s.health p a, q)

    pub step-Vouched :
        (m : Move) (s : System)
        → Allows s.health.issuers m
        → Vouched s.health s.rounds
        → Vouched (step parse_host m s).health (step parse_host m s).rounds
    unfolding step set_serving Allows
    step-Vouched serve s a h = h
    step-Vouched (begin authenticate) s a h =
        begun-Vouched s.health.serving _ s
          (probe-Vouched authenticate s.health.initialized s.health.issuers a) h
    step-Vouched (finish n) s a (b, c) =
        recorded-Vouched (take_round n s.rounds) s
          (take_round-IsPicked (λ r. All P r.newly) n s.rounds c) (b, c)

    run-Vouched :
        (ms : List Move) (s : System)
        → All (Allows s.health.issuers) ms
        → Vouched s.health s.rounds
        → Vouched (run parse_host ms s).health (run parse_host ms s).rounds
    unfolding run
    run-Vouched [] s a h = h
    run-Vouched (m ∷ ms) s (a, b) h =
        run-Vouched ms (step parse_host m s)
          (subst (λ is. All (Allows is) ms) (sym (step-issuers parse_host m s)) b)
          (step-Vouched m s a h)

-- What the message of a network failure contains.
abbrev pub network_markers : List Text
network_markers =
    codes "context deadline exceeded"
    ∷ codes "connection refused"
    ∷ codes "no such host"
    ∷ codes "i/o timeout"
    ∷ []

-- The authenticator reached the verification of the token: it returned no error, or one that neither
-- says that it is not initialized, nor is of the context, timed out or of the network.
abbrev pub IsVerified : Answer → Type 0
IsVerified a =
    (a.error ≡ none)
    ⊎ ((e : ProbeError) × (a.error ≡ some e)
        × (has_substring e.message (codes "not initialized") ≡ false)
        × (e.is_context_error ≡ false)
        × (e.timed_out ≡ false)
        × (any (λ marker. has_substring e.message marker) network_markers ≡ false))

reasons_differ :
    ((codes "not_initialized" == codes "error") ≡ false)
    × ((codes "transient" == codes "error") ≡ false)
unfolding codes ◌==◌
reasons_differ = (refl, refl)

kept :
    (reason : Text)
    → (reason == codes "error") ≡ false
    → (if not (reason == codes "error") then some reason else none) ≡ none
    → ⊥
kept reason other h = ground (arith, other, h)

holds_back-IsVerified : (a : Answer) → holds_back a.error ≡ none → IsVerified a
unfolding holds_back pending_reason is_not_initialized is_transient transient_markers
holds_back-IsVerified a = verified a.error refl
  where
    clear :
        (e : ProbeError) (n c t m : Bool)
        → let reason =
            if n
            then codes "not_initialized"
            else (if c || (t || m) then codes "transient" else codes "error") in
          (if not (reason == codes "error") then some reason else none) ≡ none
          → (n ≡ false) × (c ≡ false) × (t ≡ false) × (m ≡ false)
    clear e true c t m h = absurd (kept _ reasons_differ.0 h)
    clear e false true t m h = absurd (kept _ reasons_differ.1 h)
    clear e false false true m h = absurd (kept _ reasons_differ.1 h)
    clear e false false false true h = absurd (kept _ reasons_differ.1 h)
    clear e false false false false h = (refl, refl, refl, refl)

    verified : (o : Option ProbeError) → a.error ≡ o → holds_back o ≡ none → IsVerified a
    verified none e h = inl e
    verified (some x) e h =
        let (n, c, t, m) =
          clear x _ x.is_context_error x.timed_out
            (any (λ marker. has_substring x.message marker) network_markers) h in
        inr (x, e, n, c, t, m)

-- A check was begun in which the authenticator answered for the issuer and reached verification.
abbrev pub IsAnswered : List Issuer → List Move → Text → Type 0
IsAnswered issuers ms url =
    (authenticate : Text → Answer) × (i : Issuer) × Member (begin authenticate) ms
    × Member i issuers
    × (i.issuer_url ≡ url)
    × IsVerified (authenticate i.fake_jwt)

IsAnswered-Allows :
    (issuers : List Issuer) (ms : List Move) (m : Move)
    → Member m ms
    → Allows (IsAnswered issuers ms) issuers m
unfolding Allows
IsAnswered-Allows issuers ms serve at = tt
IsAnswered-Allows issuers ms (finish n) at = tt
IsAnswered-Allows issuers ms (begin authenticate) at = All_of_Member _ issuers (λ i listed e.
    (authenticate, i, at, listed, refl, holds_back-IsVerified (authenticate i.fake_jwt) e))

-- However checks overlap, an issuer counts as initialized only if it is configured and in some check
-- the call of the authenticator with its token returned no error (whether it accepted the token or
-- declined it), or an error other than the transient ones and the one that says not initialized.
pub run-initialized-IsAnswered :
    (parse_host : Text → Option Text) (issuers : List Issuer) (require_all : Bool) (ms : List Move)
    → let h = (run parse_host ms (start parse_host issuers require_all)).health in
      All (IsAnswered issuers ms) h.initialized
unfolding start with_metrics new_server
run-initialized-IsAnswered parse_host issuers require_all ms =
    (run-Vouched (IsAnswered issuers ms) parse_host ms (start parse_host issuers require_all)
      (All_of_Member _ ms (IsAnswered-Allows issuers ms)) (tt, tt)).0
