-- ===== src/Examples/Alerts.antt =====
-- The alert pipeline's theorems at one site with two pages.
use rabbot_seo.Base.{
  ℕ, suc, ◌≤◌, ◌≡◌, ◌≢◌, ◌↔◌, refl, String, true, false, not, ◌||◌, none, some, List, [], ◌∷◌,
  arith, str_eq, eq_iff, ◌<>◌,
}
use rabbot_seo.Base.Result.{ok}
use rabbot_seo.Model.{Severity, critical, warning, Alert, open_status, hard_block}
use rabbot_seo.Notify.{NotifyAlert, RouteConfig, Registry, route_target}
use rabbot_seo.Notify.Routing
use rabbot_seo.Notify.Routing.{Chosen, targets}
use rabbot_seo.Store.Incidents
use rabbot_seo.Store.Incidents.{Db, payload_or_empty}
use rabbot_seo.Store.Incidents.Rows.{IsWellFormed}
use rabbot_seo.Alerts.Throttle.{Throttle, new_throttle, Call, grants}
use rabbot_seo.Alerts.Throttle.Window
use rabbot_seo.Alerts.Throttle.Window.{granted_in_hour}
use rabbot_seo.Alerts.Event.{Event}
use rabbot_seo.Alerts.Calls.{World}
use rabbot_seo.Alerts.Pipeline.{Env, new_incident, to_notify_alert, ingest, resolve}
use rabbot_seo.Alerts.Pipeline.Laws.{quiet, fp_of}
use rabbot_seo.Alerts.Pipeline.Tables.{affected}
use rabbot_seo.Alerts.Pipeline.Resolving
use rabbot_seo.Alerts.Pipeline.Notifying
use rabbot_seo.Alerts.Pipeline.Notifying.{delivered, is_allowed}
use rabbot_seo.Alerts.Pipeline.History
use rabbot_seo.Alerts.Pipeline.History.{Op, fires, recovers, run, last_word}
use rabbot_seo.Alerts.Access.{AccessContext, handle_fetch_class, operational_change_type}
use rabbot_seo.Alerts.Access.Gate
use rabbot_seo.Alerts.Access.Gate.{is_ok, gate_affected}

-- A hash that tells texts of different length apart.
unfoldable pub toy_hash : List ℕ → String
toy_hash [] = ""
toy_hash (c ∷ cs) = "x" <> toy_hash cs

abbrev slack_route : RouteConfig
slack_route = record {
  match_keys = ("severity", "critical") ∷ ("site", "https://a.example") ∷ [];
  notifier = "slack";
}

abbrev slack : Registry
slack = record { by_name = "slack" ∷ []; routes = slack_route ∷ [] }

abbrev pub env : Env
env = record {
  dedup_window = 3600;
  incident_auto_close = 86400;
  digest_sink = true;
  digest_severities = some (warning ∷ []);
  registry = slack;
  sha256_hex = toy_hash;
  marshal_change_type = λ t. some t;
}

abbrev pub event : String → Severity → Event
event url sev = record {
  site_id = 1;
  site = "https://a.example";
  url = url;
  url_id = 1;
  change_type = "http_status";
  severity = sev;
  before = "200";
  after = "500";
  operational = false;
  deep_link = url;
  segments = [];
}

abbrev incident : Alert
incident = record {
  id = 1;
  site_id = 1;
  fingerprint = fp_of env (event "/a" critical);
  group_key = "https://a.example|http_status";
  severity = critical;
  status = open_status;
  affected_count = 2;
  first_detected_at = 100;
  last_updated_at = 100;
  last_notified_at = some 100;
  auto_closed_at = none;
  payload_summary = "{}";
}

abbrev pub world : World
world = record {
  db = record { alerts = []; members = []; next_id = 1 };
  throttle = record { cap = 2; counts = [] };
  digest = [];
  sent = [];
  faults = [];
}

abbrev pub open_world : World
open_world = record world {
  db = record { alerts = incident ∷ []; members = (1, "/a") ∷ (1, "/b") ∷ []; next_id = 2 };
}

pub world-IsWellFormed : IsWellFormed world.db
world-IsWellFormed = record { fresh = tt; unique = tt; owned = tt }

pub open_world-IsWellFormed : IsWellFormed open_world.db
open_world-IsWellFormed = record {
  fresh = (omega arith, tt);
  unique = ((λ o. unfold Incidents.find_open in refl), tt);
  owned = (omega arith, (omega arith, tt));
}

open_world-found :
    Incidents.get_open_incident (fp_of env (event "/a" critical)) open_world.db ≡ some incident
unfolding Incidents.get_open_incident
open_world-found =
    ground (arith, eq_iff (fp_of env (event "/a" critical)) (fp_of env (event "/a" critical)))

abbrev history : List (ℕ × Op)
history =
    (1, fires (event "/a" critical))
    ∷ (2, fires (event "/b" critical))
    ∷ (3, recovers (event "/a" critical))
    ∷ []

pub named : (s : String) → str_eq s "" ≡ false → s ≢ ""
named s h e = ground (arith, eq_iff s "")

affected-run_example :
    affected (fp_of env (event "/b" critical)) "/b" (run env history world).db
    ≡ last_word env
        (fp_of env (event "/b" critical))
        "/b"
        history
        (affected (fp_of env (event "/b" critical)) "/b" world.db)
affected-run_example =
    History.affected-run env history world (fp_of env (event "/b" critical)) "/b" world-IsWellFormed
      (named "/a" refl, (named "/b" refl, (named "/a" refl, tt)))

resolve_closes_iff_example :
    (Incidents.get_open_incident
        (fp_of env (event "/a" critical))
        (resolve env 200 (event "/a" critical) (quiet open_world)).1.db
      ≡ none)
    ↔ ((u : String) → u ≢ "/a" → affected (fp_of env (event "/a" critical)) u open_world.db ≡ false)
resolve_closes_iff_example =
    Resolving.resolve_closes_iff env 200 (event "/a" critical) open_world open_world-IsWellFormed
      incident open_world-found

abbrev calls : List Call
calls =
    record { at = 10; recipient = "slack"; severity = warning }
    ∷ record { at = 20; recipient = "slack"; severity = warning }
    ∷ record { at = 30; recipient = "slack"; severity = warning }
    ∷ []

hourly_cap_example : granted_in_hour "slack" 40 (grants (new_throttle 2) [] calls) ≤ 2
hourly_cap_example =
    Window.hourly_cap 2 calls (omega arith) (omega arith, (omega arith, (omega arith, tt))) "slack"
      40

abbrev full : Throttle
full = record { cap = 1; counts = ("slack", 10 ∷ []) ∷ [] }

gate_effect_example :
    let ac : AccessContext = record {
      site_id = 1;
      site = "https://a.example";
      url = "/a";
      url_id = 1;
      fetch_class = hard_block;
      detector = "waf";
      deep_link = "/a";
    } in
    let out = handle_fetch_class env 300 ac (quiet open_world) in
    (out.0 ≡ ok (not (is_ok hard_block)))
    × ((k u : String)
        → affected k u out.1.db
          ≡ gate_affected env 300 ac open_world (operational_change_type hard_block) k u)
    × IsWellFormed out.1.db
gate_effect_example =
    Gate.gate_effect env 300
      (record {
        site_id = 1;
        site = "https://a.example";
        url = "/a";
        url_id = 1;
        fetch_class = hard_block;
        detector = "waf";
        deep_link = "/a";
      })
      open_world (named "/a" refl) open_world-IsWellFormed

dedup_silent_example :
    let out = ingest env 200 (event "/a" critical) (quiet open_world) in
    (out.0 ≡ ok tt)
    × (out.1.sent ≡ [])
    × (out.1.digest ≡ [])
    × (out.1.throttle ≡ open_world.throttle)
    × (Incidents.get_open_incident (fp_of env (event "/a" critical)) out.1.db
        ≡ some (record incident {
          affected_count = suc incident.affected_count;
          last_updated_at = 200;
          last_notified_at = some 100;
          payload_summary = payload_or_empty incident.payload_summary;
        }))
    × ((str_eq "/a" "" || affected (fp_of env (event "/a" critical)) "/a" out.1.db) ≡ true)
dedup_silent_example =
    Notifying.dedup_silent env 200 (event "/a" critical) open_world open_world-IsWellFormed incident
      100 open_world-found refl (omega arith)

critical_delivered_example :
    let na = to_notify_alert (event "/a" critical) (new_incident env 50 (event "/a" critical)) 50 in
    (ingest env 50 (event "/a" critical) (quiet world)).1.sent
    ≡ delivered (route_target env.registry na) na []
critical_delivered_example =
    Notifying.critical_delivered env 50 (event "/a" critical) world world-IsWellFormed refl
      (unfold Incidents.get_open_incident in refl)

abbrev sample : NotifyAlert
sample = to_notify_alert (event "/a" critical) incident 300

route_target_iff_example :
    (route_target slack sample ≡ some "slack")
    ↔ Chosen ("slack" ∷ []) sample "slack" (slack_route ∷ [])
route_target_iff_example = Routing.route_target_iff slack sample "slack"
