-- ===== src/Limiter.antt =====
-- The limiter of warnings: pkg/logging/ratelimit.go. The bucket of golang.org/x/time/rate is a
-- parameter: how one is made, and what AllowN(now, 1) says and leaves. The lock makes each operation
-- one step.
pub mod Runs
pub mod Reports
use kube_oidc_proxy.Base.{
  ℕ, suc, ◌+◌, Text, codes, Bool, true, false, Option, none, some, List, [], ◌∷◌, eqb, ltb,
  if◌then◌else◌, lookup, insert, map,
}
use kube_oidc_proxy.Sanitize.{sanitize}

-- rate.Limiter at a limit and a burst, with the clock's values.
pub record Rate : Type 1 where
  pub Bucket : Type 0
  pub Time : Type 0
  pub fresh : Bucket
  pub allow_n : Time → Bucket → Bool × Bucket

-- limiterEntry
pub record Entry (Bucket : Type 0) : Type 0 where
  pub limiter : Bucket
  pub dropped : ℕ

pub record Suppressed : Type 0 where
  pub reason : Text
  pub dropped : ℕ

-- The record log.warning.suppressed.
pub record Summary : Type 0 where
  pub warning_reason : Text
  pub suppressed_count : ℕ
  pub interval_seconds : ℕ

-- The order of Go's strings.
unfoldable pub is_less : Text → Text → Bool
is_less [] [] = false
is_less [] (b ∷ t) = true
is_less (a ∷ s) [] = false
is_less (a ∷ s) (b ∷ t) = if ltb a b then true else (if eqb a b then is_less s t else false)

-- sort.Slice, by insertion.
unfoldable pub place : Suppressed → List Suppressed → List Suppressed
place x [] = x ∷ []
place x (y ∷ ys) =
    let rest = place x ys in if is_less y.reason x.reason then y ∷ rest else x ∷ y ∷ ys

unfoldable pub sort : List Suppressed → List Suppressed
sort [] = []
sort (x ∷ xs) = place x (sort xs)

module _ (rate : Rate) where
  abbrev pub Entries : Type 0
  Entries = List (Text × Entry rate.Bucket)

  unfoldable pub entry_or_new : Option (Entry rate.Bucket) → Entry rate.Bucket
  entry_or_new none = record { limiter = rate.fresh; dropped = 0 }
  entry_or_new (some e) = e

  unfoldable pub after_ask : Bool × rate.Bucket → Entry rate.Bucket → Entry rate.Bucket
  after_ask (true, bucket) e = record e { limiter = bucket }
  after_ask (false, bucket) e = record { limiter = bucket; dropped = suc e.dropped }

  unfoldable pub allow : Text → rate.Time → Entries → Bool × Entries
  allow reason now entries =
      let entry = entry_or_new (lookup reason entries) in
      let verdict = rate.allow_n now entry.limiter in
      (verdict.0, insert reason (after_ask verdict entry) entries)

  -- The loop of drain, before the sort.
  unfoldable pub collect : Entries → List Suppressed
  collect [] = []
  collect ((reason, e) ∷ entries) =
      let rest = collect entries in
      if eqb e.dropped 0 then rest else record { reason = reason; dropped = e.dropped } ∷ rest

  unfoldable pub reset : Entries → Entries
  reset [] = []
  reset ((reason, e) ∷ entries) = (reason, record e { dropped = 0 }) ∷ reset entries

  unfoldable pub drain : Entries → List Suppressed × Entries
  drain entries = (sort (collect entries), reset entries)

  unfoldable pub summaries : ℕ → List Suppressed → List Summary
  summaries seconds out =
      map
        (λ s. record {
          warning_reason = sanitize s.reason;
          suppressed_count = s.dropped;
          interval_seconds = seconds;
        })
        out

  -- A limiter that may be nil.
  unfoldable pub allow_warning : Text → rate.Time → Option Entries → Bool × Option Entries
  allow_warning reason now none = (true, none)
  allow_warning reason now (some entries) =
      let (verdict, after) = allow reason now entries in (verdict, some after)

  -- Flush of a limiter that may be nil to a logger that may be nil.
  unfoldable pub flush : Bool → ℕ → Option Entries → List Summary × Option Entries
  flush logger seconds none = ([], none)
  flush false seconds (some entries) = ([], some entries)
  flush true seconds (some entries) =
      let (out, after) = drain entries in (summaries seconds out, some after)
