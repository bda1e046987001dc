-- ===== src/Chain/Deciding.antt =====
-- How many access decisions a request's run records: recordDecision and logDenied through the
-- whole chain of pkg/proxy/handlers.go and pkg/proxy/proxy.go.
use kube_oidc_proxy.Base.{
  ◌||◌, ℕ, Bool, true, false, List, [], ◌∷◌, ◌≡◌, ◌⊎◌, if◌then◌else◌, ◌≢◌, suc,
}
use kube_oidc_proxy.Base.Result.{Result}
use kube_oidc_proxy.Header.{Header}
use kube_oidc_proxy.Request.{Request}
use kube_oidc_proxy.Chain.{TransportError, ProxyError, transport, Record, decided, Run, Proxy}

-- How many access decisions the records hold.
unfoldable pub decisions : List Record → ℕ
decisions [] = 0
decisions (decided d ∷ rs) = suc (decisions rs)
decisions (_ ∷ rs) = decisions rs

module _ {World : Type 0} (p : Proxy World) where
  -- The holder says whether the decision is written, and it is written at most once.
  abbrev Stage : Bool → Run World → Type 0
  Stage b r =
      (r.recorded ≡ b)
      × (decisions r.records ≡ (if b then 1 else 0))
      × ((r.panicked || r.stopped) ≡ false)

  -- An error of the proxy's own, as opposed to one of the transport.
  abbrev IsRefusal : ProxyError → Type 0
  IsRefusal e = (t : TransportError) → e ≢ transport t

  -- A filter of the audit chain does not let some request on.
  abbrev pub IsBlocked : Type 0
  IsBlocked =
      ((req : Request) × (p.resolves req ≡ false))
      ⊎ ((req : Request) × (w : World) × ((p.audits req w).0 ≡ false))

  -- The end of a run: decided once, or broken off with no decision.
  abbrev IsSettled : Run World → Type 0
  IsSettled r =
      Stage true r
      ⊎ (((r.panicked || r.stopped) ≡ true)
          × (decisions r.records ≡ 0)
          × ((r.stopped ≡ false) ⊎ IsBlocked))
