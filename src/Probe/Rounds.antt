-- ===== src/Probe/Rounds.antt =====
-- Checks of pkg/probe/probe.go that run at the same time. A check holds the lock while it takes its
-- snapshot and while it records, so those parts are single moves; its calls of the authenticator,
-- whose answers are a function of the token, lie between the two.
use kube_oidc_proxy.Base.{
  ℕ, zero, suc, Text, Option, none, some, List, [], ◌∷◌, Bool, if◌then◌else◌,
}
use kube_oidc_proxy.Probe.{
  Issuer, Answer, HealthCheck, Round, set_serving, to_probe, probe, conclude, with_metrics,
  new_server,
}

pub record System : Type 0 where
  pub health : HealthCheck
  -- The rounds whose results are still to be recorded.
  pub rounds : List Round

pub data Move : Type 0 where
  serve : Move
  begin : (Text → Answer) → Move
  -- The number of the round that is recorded.
  finish : ℕ → Move

unfoldable pub keep_round : Round → Option (Round × List Round) → Option (Round × List Round)
keep_round r none = none
keep_round r (some (found, rest)) = some (found, r ∷ rest)

unfoldable pub take_round : ℕ → List Round → Option (Round × List Round)
take_round n [] = none
take_round zero (r ∷ rs) = some (r, rs)
take_round (suc n) (r ∷ rs) = keep_round r (take_round n rs)

module _ (parse_host : Text → Option Text) where
  unfoldable pub record_round : Option (Round × List Round) → System → System
  record_round none s = s
  record_round (some (r, rest)) s = record {
    health = (conclude parse_host r s.health).1;
    rounds = rest;
  }

  unfoldable pub step : Move → System → System
  step serve s = record s { health = set_serving s.health }
  step (begin authenticate) s =
      if s.health.serving
      then record s {
        rounds = probe authenticate (to_probe s.health.initialized s.health.issuers) ∷ s.rounds;
      }
      else s
  step (finish n) s = record_round (take_round n s.rounds) s

  unfoldable pub run : List Move → System → System
  run [] s = s
  run (m ∷ ms) s = run ms (step m s)

  unfoldable pub start : List Issuer → Bool → System
  start issuers require_all = record {
    health = with_metrics parse_host (new_server issuers require_all);
    rounds = [];
  }
