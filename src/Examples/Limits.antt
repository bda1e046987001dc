-- ===== src/Examples/Limits.antt =====
-- A bucket of two tokens that never fills up, asked for two reasons.
use kube_oidc_proxy.Base.{
  ℕ, zero, suc, ◌+◌, Text, codes, Bool, true, false, List, [], ◌∷◌, ◌≡◌, refl, ◌==◌, lookup, insert,
}
use kube_oidc_proxy.Limiter.{
  Rate, is_less, place, sort, entry_or_new, after_ask, allow, collect, reset, drain,
}
use kube_oidc_proxy.Limiter.Runs.{
  Event, ask, drained, run, verdicts_on, times_of, reported, counted, refusals, solo, bucket_of,
}
use kube_oidc_proxy.Limiter.Reports.{run_lem}

abbrev take_token : ℕ → ℕ → Bool × ℕ
take_token now zero = (false, 0)
take_token now (suc n) = (true, n)

abbrev rate : Rate
rate = record { Bucket = ℕ; Time = ℕ; fresh = 2; allow_n = take_token }

abbrev loop : Text
loop = codes "loop"

abbrev events : List (Event rate)
events =
    ask loop 1
    ∷ ask loop 2
    ∷ ask loop 3
    ∷ ask (codes "other") 3
    ∷ drained
    ∷ ask loop 4
    ∷ drained
    ∷ drained
    ∷ []

run_lem_example :
    let (verdicts, reports, last) = run rate events [] in
    (verdicts_on loop verdicts ≡ solo rate (times_of rate loop events) (bucket_of rate loop []))
    × (refusals (verdicts_on loop verdicts) + 0 ≡ reported loop reports + counted rate loop last)
run_lem_example = run_lem rate loop events []

-- Each drain reports its own drop, and the drains do not fill the bucket.
reports :
    (run rate events []).1
    ≡ record { reason = loop; dropped = 1 } ∷ record { reason = loop; dropped = 1 } ∷ []
unfolding run allow drain collect reset sort place is_less entry_or_new after_ask lookup insert ◌==◌
    codes
reports = refl
