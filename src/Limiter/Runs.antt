-- ===== src/Limiter/Runs.antt =====
-- Sequences of the operations of pkg/logging/ratelimit.go, and what they say of one reason.
use kube_oidc_proxy.Base.{
  ℕ, suc, ◌+◌, Text, Bool, true, false, List, [], ◌∷◌, ◌++◌, if◌then◌else◌, ◌==◌, lookup,
}
use kube_oidc_proxy.Limiter.{Rate, Suppressed, Entries, entry_or_new, allow, drain}

module _ (r : Text) where
  -- The verdicts on one reason.
  abbrev pub verdicts_on : List (Text × Bool) → List Bool
  verdicts_on [] = []
  verdicts_on ((reason, v) ∷ vs) =
      let rest = verdicts_on vs in if reason == r then v ∷ rest else rest

  -- What is reported for one reason.
  abbrev pub reported : List Suppressed → ℕ
  reported [] = 0
  reported (s ∷ ss) = (if s.reason == r then s.dropped else 0) + reported ss

abbrev pub refusals : List Bool → ℕ
refusals [] = 0
refusals (true ∷ vs) = refusals vs
refusals (false ∷ vs) = suc (refusals vs)

module _ (rate : Rate) where
  pub data Event : Type 0 where
    ask : Text → rate.Time → Event
    drained : Event

  -- The verdicts of a run, the reports of its drains, and the state at its end.
  unfoldable pub run :
      List Event → Entries rate → List (Text × Bool) × List Suppressed × Entries rate
  run [] entries = ([], [], entries)
  run (ask reason now ∷ es) entries =
      let (verdict, after) = allow rate reason now entries in
      let (verdicts, reports, last) = run es after in ((reason, verdict) ∷ verdicts, reports, last)
  run (drained ∷ es) entries =
      let (out, after) = drain rate entries in
      let (verdicts, reports, last) = run es after in (verdicts, out ++ reports, last)

  module _ (r : Text) where
    -- The times at which one reason is asked for.
    abbrev pub times_of : List Event → List rate.Time
    times_of [] = []
    times_of (ask reason now ∷ es) =
        let rest = times_of es in if reason == r then now ∷ rest else rest
    times_of (drained ∷ es) = times_of es

    -- What is counted for one reason and not reported yet.
    abbrev pub counted : Entries rate → ℕ
    counted [] = 0
    counted ((reason, e) ∷ es) = (if reason == r then e.dropped else 0) + counted es

  -- One bucket, asked at the times of a list.
  abbrev pub solo : List rate.Time → rate.Bucket → List Bool
  solo [] bucket = []
  solo (now ∷ times) bucket =
      let (verdict, after) = rate.allow_n now bucket in verdict ∷ solo times after

  abbrev pub bucket_of : Text → Entries rate → rate.Bucket
  bucket_of r entries = (entry_or_new rate (lookup r entries)).limiter
