-- ===== src/Examples/Probes.antt =====
-- Two issuers, of which the second answers only in the second of two checks that overlap.
use kube_oidc_proxy.Base.{
  Text, codes, true, false, Option, none, some, List, [], ◌∷◌, ◌≡◌, refl, ◌↔◌, if◌then◌else◌, ◌==◌,
  lookup, insert, has_substring, has_prefix, Member, All,
}
use kube_oidc_proxy.Sanitize.{bound, sanitize, is_line_space, is_control}
use kube_oidc_proxy.Probe.{
  Issuer, Answer, HealthCheck, check, is_initialized, holds_back, pending_reason, new_server,
  with_metrics, seed_gauges, set_serving, probe, to_probe, add_result, is_not_initialized,
  is_transient, transient_markers, conclude, evaluate, record_probe_results, mark, mark_all,
  drop_stale, report_change, report, pending_key, join, become_ready, readiness_mode,
}
use kube_oidc_proxy.Probe.Names.{
  issuer_name, name_of_host, trim_start, trim_end, keep_rune, or_unknown, is_white,
}
use kube_oidc_proxy.Probe.Rounds.{
  Move, serve, begin, finish, run, start, step, record_round, take_round, keep_round,
}
use kube_oidc_proxy.Probe.Evaluating.{IsEarned}
use kube_oidc_proxy.Probe.Ready.{run-ready-IsEarned}
use kube_oidc_proxy.Probe.Answered.{IsAnswered, run-initialized-IsAnswered}
use kube_oidc_proxy.Probe.Progress.{IsEnough, IsLater, run-IsLater}
use kube_oidc_proxy.Probe.Repeating.{check_again}
use kube_oidc_proxy.Probe.Gauges.{AreShown}
use kube_oidc_proxy.Startup.{
  duplicate_issuer_name, duplicate_after, duplicate_or, issuer_names, issuer_probes,
}
use kube_oidc_proxy.Startup.Names.{AreDistinct, accepted-AreShown, duplicate_issuer_name_lem}
use kube_oidc_proxy.Probe.Server.{handler, readiness, handler-readiness}

abbrev hosts : Text → Option Text
hosts url = some url

abbrev google : Issuer
google = record { issuer_url = b'g' ∷ []; fake_jwt = b'1' ∷ [] }

abbrev dex : Issuer
dex = record { issuer_url = b'd' ∷ []; fake_jwt = b'2' ∷ [] }

abbrev issuers : List Issuer
issuers = google ∷ dex ∷ []

abbrev early : Text → Answer
early jwt =
    if jwt == dex.fake_jwt
    then record {
      accepted = false;
      error = some (record { message = []; is_context_error = true; timed_out = false });
    }
    else record { accepted = false; error = none }

abbrev late : Text → Answer
late jwt = record { accepted = false; error = none }

-- The check that was begun last is recorded first.
abbrev moves : List Move
moves = serve ∷ begin early ∷ begin late ∷ finish 0 ∷ finish 0 ∷ []

-- The second check latches readiness; the first one, recorded later, is stale and holds nothing back.
latches : (run hosts moves (start hosts issuers true)).health.ready ≡ true
unfolding run step record_round take_round keep_round start with_metrics new_server seed_gauges
    set_serving probe to_probe add_result is_initialized holds_back pending_reason
    is_not_initialized is_transient transient_markers has_substring has_prefix codes ◌==◌ conclude
    evaluate record_probe_results mark mark_all drop_stale report_change report pending_key join
    become_ready readiness_mode issuer_name name_of_host bound sanitize trim_start trim_end
    keep_rune or_unknown is_white is_line_space is_control insert
latches = refl

run-ready-IsEarned_example :
    let h = (run hosts moves (start hosts issuers true)).health in
    (h.serving ≡ true) × IsEarned issuers true h.initialized
run-ready-IsEarned_example = run-ready-IsEarned issuers true hosts moves latches

run-initialized-IsAnswered_example :
    All (IsAnswered issuers moves) (run hosts moves (start hosts issuers true)).health.initialized
run-initialized-IsAnswered_example = run-initialized-IsAnswered hosts issuers true moves

run-IsLater_example :
    IsLater (run hosts moves (start hosts issuers true)).health (start hosts issuers true).health
run-IsLater_example = run-IsLater hosts moves (start hosts issuers true)

abbrev served : HealthCheck
served = record (start hosts issuers true).health { serving = true }

check_again_example : check hosts early (check hosts early served).1 ≡ check hosts early served
check_again_example = check_again hosts early served

abbrev jwt_of : Text → Text
jwt_of url = url

abbrev urls : List Text
urls = google.issuer_url ∷ dex.issuer_url ∷ []

two_names : duplicate_issuer_name hosts urls ≡ none
unfolding duplicate_issuer_name duplicate_after duplicate_or lookup insert ◌==◌ issuer_name
    name_of_host bound sanitize trim_start trim_end keep_rune or_unknown is_white is_line_space
    is_control
two_names = refl

accepted-AreShown_example :
    let probes = issuer_probes hosts jwt_of urls in
    let h = (run hosts moves (start hosts probes true)).health in
    AreShown hosts probes h.initialized h.issuer_gauges
accepted-AreShown_example = accepted-AreShown hosts jwt_of urls true moves two_names

duplicate_issuer_name_lem_example :
    ((duplicate_issuer_name hosts urls ≡ none) ↔ AreDistinct (issuer_names hosts urls))
    × ((name first other : Text)
        → duplicate_issuer_name hosts urls ≡ some (name, first, other)
        → (issuer_name hosts first ≡ name)
          × (issuer_name hosts other ≡ name)
          × Member first urls
          × Member other urls)
duplicate_issuer_name_lem_example = duplicate_issuer_name_lem hosts urls

enough : IsEnough hosts late served served.require_all
unfolding start with_metrics new_server is_initialized holds_back
enough = (refl, (refl, tt))

handler-readiness_example :
    ((handler hosts late readiness (codes "GET") served).0 ≡ 200)
    × ((handler hosts late readiness (codes "GET") served).1.ready ≡ true)
handler-readiness_example = handler-readiness hosts late served refl enough
