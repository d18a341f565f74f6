-- ===== src/Examples/Gsc.antt =====
-- The theorems on the Search Console signals at a site with one page that Google dropped.
use rabbot_seo.Base.{◌≡◌, refl, sym, true, false, some, [], contains_string, ◌∷◌, arith, str_eq}
use mathlib.Core.Path.{subst}
use rabbot_seo.Base.Result.{ok}
use rabbot_seo.Alerts.Event.{group_fingerprint, fingerprint, fingerprint_input}
use rabbot_seo.Alerts.Pipeline.Tables.{affected}
use rabbot_seo.Scheduler.Process.{severity_for_field}
use rabbot_seo.Scheduler.GscSignals.States.{IndexStatus, gsc_indexed}
use rabbot_seo.Scheduler.GscSignals.{
  Reader, Site, Judged, index_discrepancy, canonical_mismatch, inspection_too_stale, evaluate,
  eval_signal1,
}
use rabbot_seo.Scheduler.GscSignals.Membership.{IsCalm, incident_of, act-Effect}
use rabbot_seo.Scheduler.GscSignals.Decisions.{decide1, eval_signal1-act}
use rabbot_seo.Alerts.Calls.{World}
use rabbot_seo.Scheduler.GscSignals.Ticks
use rabbot_seo.Scheduler.GscSignals.Silence
use rabbot_seo.Scheduler.GscSignals.Silence.{SameOutput}
use rabbot_seo.Examples.Alerts.{env, world, world-IsWellFormed, named, toy_hash}

abbrev dropped : IndexStatus
dropped = record {
  coverage_state = "Crawled - currently not indexed";
  indexing_state = "";
  verdict = "NEUTRAL";
  user_canonical = "";
  google_canonical = "";
  inspected_at = 1000;
}

abbrev judged : Judged
judged = record { indexable = true; indexability_reason = ""; fetched_at = 900 }

abbrev reader : Reader
reader = record {
  latest_url_index_status = λ url. ok (some dropped);
  get_url = λ url. ok (some 3);
  latest_snapshot = λ id. ok (some judged);
  candidates = ok ("/a" ∷ []);
  canonical_key = λ url. url;
}

abbrev site : Site
site = record { id = 1; base_url = "https://a.example" }

calm : IsCalm world
calm = record { quiet_world = refl; tables = world-IsWellFormed }

known : gsc_indexed dropped ≡ some false
unfolding gsc_indexed
known = refl

mem : contains_string ("/a" ∷ []) "/a" ≡ true
unfolding contains_string
mem = refl

apart :
    str_eq (incident_of env site canonical_mismatch) (incident_of env site index_discrepancy)
    ≡ false
unfolding group_fingerprint fingerprint fingerprint_input toy_hash severity_for_field
apart = refl

fresh : inspection_too_stale dropped.inspected_at judged.fetched_at 2000 ≡ false
unfolding inspection_too_stale
fresh = refl

discrepancy_followed_example :
    affected
      (incident_of env site index_discrepancy)
      "/a"
      (evaluate reader env 2000 site (λ u. false) world).1.db
    ≡ true
unfolding contains_string
discrepancy_followed_example =
    Ticks.discrepancy_followed reader env 2000 site (λ u. false) ("/a" ∷ []) "/a" world dropped
      false 3 judged calm refl (named "/a" refl, tt) (refl, tt) mem apart (λ x. refl) refl known
      refl refl fresh

abbrev after : World
after = (eval_signal1 reader env 2000 site "/a" world).1

after-IsCalm : IsCalm after
after-IsCalm =
    subst (λ out. IsCalm out.1) (sym (eval_signal1-act env 2000 site "/a" reader world))
      ((act-Effect env 2000 site "/a" index_discrepancy (decide1 reader 2000 "/a") world calm
        (named "/a" refl)).0)

later_tick_silent_example : SameOutput after (eval_signal1 reader env 9000 site "/a" after).1
later_tick_silent_example =
    Silence.later_tick_silent reader env 2000 9000 site "/a" world after calm after-IsCalm
      (named "/a" refl) (omega arith) refl
