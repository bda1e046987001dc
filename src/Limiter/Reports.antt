-- ===== src/Limiter/Reports.antt =====
-- What pkg/logging/ratelimit.go admits and what it reports, over a sequence of its operations.
use kube_oidc_proxy.Base.{
  ℕ, ◌+◌, Text, Bool, true, false, Option, some, List, [], ◌∷◌, ◌++◌, ◌≡◌, refl, ap, ◌∙◌, arith,
  inl, inr, if◌then◌else◌, ◌==◌, eq_iff, Bool-cases, lookup, insert, lookup-insert,
}
use kube_oidc_proxy.Limiter.{
  Rate, Entry, Suppressed, place, sort, Entries, entry_or_new, after_ask, allow, collect, reset,
  drain,
}
use kube_oidc_proxy.Limiter.Runs.{
  Event, ask, drained, run, verdicts_on, times_of, reported, counted, refusals, solo, bucket_of,
}

module _ (rate : Rate) where
  module _ (r : Text) where
    reported-place :
        (x : Suppressed) (ys : List Suppressed) → reported r (place x ys) ≡ reported r (x ∷ ys)
    unfolding place
    reported-place x [] = refl
    reported-place x (y ∷ ys) = ground (arith, reported-place x ys)

    reported-sort : (xs : List Suppressed) → reported r (sort xs) ≡ reported r xs
    unfolding sort
    reported-sort [] = refl
    reported-sort (x ∷ xs) =
        reported-place x (sort xs)
        ∙ ap (λ n. (if x.reason == r then x.dropped else 0) + n) (reported-sort xs)

    reported-append :
        (xs ys : List Suppressed) → reported r (xs ++ ys) ≡ reported r xs + reported r ys
    reported-append [] ys = omega arith
    reported-append (x ∷ xs) ys = omega (arith, reported-append xs ys)

    reported-collect : (es : Entries rate) → reported r (collect rate es) ≡ counted rate r es
    unfolding collect
    reported-collect [] = refl
    reported-collect ((reason, e) ∷ es) = ground (arith, reported-collect es)

    counted-reset : (es : Entries rate) → counted rate r (reset rate es) ≡ 0
    unfolding reset
    counted-reset [] = refl
    counted-reset ((reason, e) ∷ es) = ground (arith, counted-reset es)

    bucket_of-reset : (es : Entries rate) → bucket_of rate r (reset rate es) ≡ bucket_of rate r es
    unfolding reset lookup entry_or_new
    bucket_of-reset [] = refl
    bucket_of-reset ((reason, e) ∷ es) = either (reason == r) _ _ (bucket_of-reset es)
      where
        either :
            (t : Bool) (o p : Option (Entry rate.Bucket))
            → (entry_or_new rate o).limiter ≡ (entry_or_new rate p).limiter
            → (entry_or_new rate (if t then some (record e { dropped = 0 }) else o)).limiter
              ≡ (entry_or_new rate (if t then some e else p)).limiter
        either true o p h = refl
        either false o p h = h

    counted-insert :
        (reason : Text) (e : Entry rate.Bucket) (es : Entries rate)
        → counted rate r (insert reason e es)
            + (if reason == r then (entry_or_new rate (lookup reason es)).dropped else 0)
          ≡ counted rate r es + (if reason == r then e.dropped else 0)
    unfolding insert lookup entry_or_new
    counted-insert reason e [] = ground arith
    counted-insert reason e ((j, f) ∷ es) = elim (Bool-cases (j == reason)) [
      | inl same ↦ rw same (
          swap _ _ (counted rate r es) f.dropped e.dropped
            (ap (λ k. k == r) ((eq_iff j reason).0 same)))
      | inr other ↦ rw other (omega (arith, counted-insert reason e es))
    ]
      where
        swap :
            (t u : Bool) (n m k : ℕ)
            → t ≡ u
            → (if u then k else 0) + n + (if u then m else 0)
              ≡ (if t then m else 0) + n + (if u then k else 0)
        swap true true n m k h = omega arith
        swap true false n m k h = ground (arith, h)
        swap false true n m k h = ground (arith, h)
        swap false false n m k h = omega arith

    bucket_of-insert :
        (reason : Text) (e : Entry rate.Bucket) (es : Entries rate)
        → bucket_of rate r (insert reason e es)
          ≡ (if reason == r then e.limiter else bucket_of rate r es)
    unfolding entry_or_new
    bucket_of-insert reason e es =
        ap (λ o. (entry_or_new rate o).limiter) (lookup-insert r reason e es)
        ∙ either (reason == r) (lookup r es)
      where
        either :
            (t : Bool) (o : Option (Entry rate.Bucket))
            → (entry_or_new rate (if t then some e else o)).limiter
              ≡ (if t then e.limiter else (entry_or_new rate o).limiter)
        either true o = refl
        either false o = refl

    after_ask-limiter :
        (v : Bool × rate.Bucket) (e : Entry rate.Bucket) → (after_ask rate v e).limiter ≡ v.1
    unfolding after_ask
    after_ask-limiter (true, b) e = refl
    after_ask-limiter (false, b) e = refl

    after_ask-dropped :
        (v : Bool × rate.Bucket) (e : Entry rate.Bucket)
        → (after_ask rate v e).dropped ≡ refusals (v.0 ∷ []) + e.dropped
    unfolding after_ask
    after_ask-dropped (true, b) e = omega arith
    after_ask-dropped (false, b) e = omega arith

    bucket_of-allow :
        (reason : Text) (now : rate.Time) (es : Entries rate)
        → bucket_of rate r (allow rate reason now es).1 ≡ (
            if reason == r
            then (rate.allow_n now (bucket_of rate reason es)).1
            else bucket_of rate r es)
    unfolding allow
    bucket_of-allow reason now es =
        bucket_of-insert reason _ es
        ∙ ap (λ b. if reason == r then b else bucket_of rate r es) (after_ask-limiter _ _)

    run-solo :
        (es : List (Event rate)) (entries : Entries rate)
        → verdicts_on r (run rate es entries).0
          ≡ solo rate (times_of rate r es) (bucket_of rate r entries)
    unfolding run allow drain
    run-solo [] entries = refl
    run-solo (drained ∷ es) entries =
        run-solo es _ ∙ ap (solo rate (times_of rate r es)) (bucket_of-reset entries)
    run-solo (ask reason now ∷ es) entries =
        let rest : verdicts_on r (run rate es (allow rate reason now entries).1).0
            ≡ solo rate (times_of rate r es) (
                if reason == r
                then (rate.allow_n now (bucket_of rate reason entries)).1
                else bucket_of rate r entries) =
          run-solo es _
          ∙ ap (solo rate (times_of rate r es)) (bucket_of-allow reason now entries) in
        elim (Bool-cases (reason == r)) [
          | inl same ↦ rw same (
              ap (λ vs. (rate.allow_n now (bucket_of rate reason entries)).0 ∷ vs) (rw same at rest)
              ∙ ap
                  (λ k.
                    (rate.allow_n now (bucket_of rate k entries)).0
                    ∷ solo rate (times_of rate r es)
                        (rate.allow_n now (bucket_of rate k entries)).1)
                  ((eq_iff reason r).0 same))
          | inr other ↦ rw other (rw other at rest)
        ]

    refusals_cons :
        (v : Bool) (vs : List Bool) → refusals (v ∷ vs) ≡ refusals (v ∷ []) + refusals vs
    refusals_cons true vs = omega arith
    refusals_cons false vs = omega arith

    counted-allow :
        (reason : Text) (now : rate.Time) (es : Entries rate)
        → counted rate r (allow rate reason now es).1
          ≡ (if reason == r then refusals ((allow rate reason now es).0 ∷ []) else 0)
            + counted rate r es
    unfolding allow
    counted-allow reason now es =
        let old : Entry rate.Bucket = entry_or_new rate (lookup reason es) in
        let v : Bool × rate.Bucket = rate.allow_n now old.limiter in
        balance (reason == r) _ _ _ _ _ (counted-insert reason (after_ask rate v old) es)
          (after_ask-dropped v old)
      where
        balance :
            (t : Bool) (after before old_count new_count more : ℕ)
            → after + (if t then old_count else 0) ≡ before + (if t then new_count else 0)
            → new_count ≡ more + old_count
            → after ≡ (if t then more else 0) + before
        balance true a b o n m h k = omega (arith, h, k)
        balance false a b o n m h k = omega (arith, h, k)

    run-reported :
        (es : List (Event rate)) (entries : Entries rate)
        → let (verdicts, reports, last) = run rate es entries in
          refusals (verdicts_on r verdicts) + counted rate r entries
          ≡ reported r reports + counted rate r last
    unfolding run drain
    run-reported [] entries = refl
    run-reported (drained ∷ es) entries = omega (
      arith,
      run-reported es (reset rate entries),
      counted-reset entries,
      reported-append (sort (collect rate entries)) (run rate es (reset rate entries)).1,
      reported-sort (collect rate entries),
      reported-collect entries,
    )
    run-reported (ask reason now ∷ es) entries =
        asked (reason == r) _ _ _ _ _ (run-reported es (allow rate reason now entries).1)
          (counted-allow reason now entries)
      where
        asked :
            (t v : Bool) (vs : List Bool) (before after all : ℕ)
            → refusals vs + after ≡ all
            → after ≡ (if t then refusals (v ∷ []) else 0) + before
            → refusals (if t then v ∷ vs else vs) + before ≡ all
        asked true v vs b a l h k = omega (arith, h, k, refusals_cons v vs)
        asked false v vs b a l h k = omega (arith, h, k)

    -- Whatever is asked and drained, the verdicts on a reason are those of one bucket that is asked
    -- at that reason's times alone, and its refusals and what was counted rate before are what the drains
    -- report for it and what is counted rate at the end.
    pub run_lem :
        (es : List (Event rate)) (entries : Entries rate)
        → let (verdicts, reports, last) = run rate es entries in
          (verdicts_on r verdicts ≡ solo rate (times_of rate r es) (bucket_of rate r entries))
          × (refusals (verdicts_on r verdicts) + counted rate r entries
              ≡ reported r reports + counted rate r last)
    run_lem es entries = (run-solo es entries, run-reported es entries)
