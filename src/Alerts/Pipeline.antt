-- ===== src/Alerts/Pipeline.antt =====
-- internal/alerts/pipeline.go: one event in, at most one delivery out. A handler is an action on
-- the world: the incident tables, the throttle, the digest buffer, the deliveries that notifiers
-- accepted, and the faults that the database and the notifiers will show. What was written before
-- an error stays written. The per-fingerprint lock makes each handler one step.
pub mod Chained
pub mod Marking
pub mod Clearing
pub mod Laws
pub mod Tables
pub mod Ingesting
pub mod Removal
pub mod Resolving
pub mod Notifying
pub mod History
use rabbot_seo.Base.{
  ℕ, suc, ◌+◌, ◌-◌, String, Bool, true, false, Option, none, some, List, [], ◌∷◌, ◌++◌, ltb,
  if◌then◌else◌, str_eq,
}
use rabbot_seo.Base.Result.{Result, ok, err}
use rabbot_seo.Model.{Severity, severity_eq, severity_string, Alert, open_status}
use rabbot_seo.Notify.{NotifyAlert, Registry, route, route_target}
use rabbot_seo.Store.Incidents
use rabbot_seo.Store.Incidents.{Db}
use rabbot_seo.Alerts.Throttle.{Throttle, allow}
use rabbot_seo.Alerts.Event.{Event, group_key, group_fingerprint}
use rabbot_seo.Alerts.Calls.{
  Error, store_failed, unique_violation, notify_failed, World, Action, continue, ◌>>=◌, ◌>>◌, pure,
  attempt, read_db, write_db, get_open_incident, insert_alert, open_incident, update_incident,
  close_incident, add_alert_member, remove_alert_member, has_open_incident_member, notify,
  first_error, dispatch_to,
}

-- `options`, with the dispatcher's registry, and what the handlers take from the standard library:
-- the hash, and `json.Marshal` of a change type, which may fail.
pub record Env : Type 0 where
  pub dedup_window : ℕ
  pub incident_auto_close : ℕ
  pub digest_sink : Bool
  pub digest_severities : Option (List Severity)
  pub registry : Registry
  pub sha256_hex : List ℕ → String
  pub marshal_change_type : String → Option String

pub dispatch : Env → NotifyAlert → Action (Unit {0})
unfolding dispatch_to
dispatch env a = dispatch_to (route env.registry a) a

pub payload_summary : Env → String → String
payload_summary env change_type = elim (env.marshal_change_type change_type) [
  | none ↦ "{}"
  | some b ↦ b
]

abbrev pub to_notify_alert : Event → Alert → ℕ → NotifyAlert
to_notify_alert e inc now = record {
  site = e.site;
  url = e.url;
  change_type = e.change_type;
  severity = e.severity;
  before = e.before;
  after = e.after;
  detected_at = now;
  group_key = inc.group_key;
  related_count = inc.affected_count - 1;
  deep_link = e.deep_link;
  operational = e.operational;
  items = [];
  segments = e.segments;
}

pub throttle_key : Env → Event → NotifyAlert → String
throttle_key env e na = elim (route_target env.registry na) [
  | some name ↦ name
  | none ↦ group_key e.site (severity_string e.severity)
]

-- A nil set buffers every severity.
pub digests : Option (List Severity) → Severity → Bool
digests none sev = true
digests (some []) sev = false
digests (some (s ∷ ss)) sev = if severity_eq s sev then true else digests (some ss) sev

-- What becomes of an alert that the cap refused.
over_cap : Env → Event → NotifyAlert → Action (Unit {0})
unfolding dispatch digests
over_cap env e na w =
    if env.digest_sink
    then (
      ok tt,
      if digests env.digest_severities e.severity
          then record w { digest = w.digest ++ na ∷ [] }
          else w,
    )
    else dispatch env na w

pub maybe_dispatch : Env → Event → Alert → ℕ → Action (Unit {0})
unfolding dispatch over_cap throttle_key
maybe_dispatch env e inc now w =
    let na = to_notify_alert e inc now in
    let (t, allowed) = allow w.throttle (throttle_key env e na) e.severity now in
    let w' = record w { throttle = t } in
    if allowed then dispatch env na w' else over_cap env e na w'

pub add_member : ℕ → String → Action (Unit {0})
unfolding pure
add_member i url = if str_eq url "" then pure tt else add_alert_member i url

-- `cur.LastNotifiedAt != nil && now.Sub(*cur.LastNotifiedAt) < DedupWindow`
unfoldable pub within_window : Env → ℕ → Option ℕ → Bool
within_window env now none = false
within_window env now (some t) = ltb now (t + env.dedup_window)

abbrev pub accrued : Alert → ℕ → Alert
accrued cur now = record cur { affected_count = suc cur.affected_count; last_updated_at = now }

abbrev pub renotified : Alert → ℕ → Alert
renotified cur now = record (accrued cur now) { last_notified_at = some now }

-- The branch of `Ingest` for an incident that is open.
accrue : Env → ℕ → Event → Alert → Action (Unit {0})
unfolding within_window
accrue env now e cur = do
  add_member cur.id e.url
  if within_window env now cur.last_notified_at
      then update_incident (accrued cur now)
      else do update_incident (renotified cur now); maybe_dispatch env e (renotified cur now) now

abbrev pub new_incident : Env → ℕ → Event → Alert
new_incident env now e = record {
  id = 0;
  site_id = e.site_id;
  fingerprint = group_fingerprint env.sha256_hex e;
  group_key = group_key e.site e.change_type;
  severity = e.severity;
  status = open_status;
  affected_count = 1;
  first_detected_at = now;
  last_updated_at = now;
  last_notified_at = some now;
  auto_closed_at = none;
  payload_summary = payload_summary env e.change_type;
}

-- The branch of `Ingest` that opens one.
raise_incident : Env → ℕ → Event → Action (Unit {0})
raise_incident env now e = do
  i ← open_incident (new_incident env now e)
  add_member i e.url
  maybe_dispatch env e (record (new_incident env now e) { id = i }) now

ingest_found : Env → ℕ → Event → Option Alert → Action (Unit {0})
unfolding accrue raise_incident
ingest_found env now e (some cur) = accrue env now e cur
ingest_found env now e none = raise_incident env now e

pub ingest : Env → ℕ → Event → Action (Unit {0})
unfolding ingest_found
ingest env now e = do
  found ← get_open_incident (group_fingerprint env.sha256_hex e)
  ingest_found env now e found

resolve_found : ℕ → Event → Option Alert → Action (Unit {0})
unfolding pure
resolve_found now e none = pure tt
resolve_found now e (some cur) = do
  remaining ← remove_alert_member cur.id e.url
  if ltb 0 remaining then pure tt else close_incident cur.id now false

pub resolve : Env → ℕ → Event → Action (Unit {0})
unfolding resolve_found
resolve env now e = do
  found ← get_open_incident (group_fingerprint env.sha256_hex e)
  resolve_found now e found

pub has_open_member : Env → Event → Action Bool
unfolding pure
has_open_member env e =
    if str_eq e.url ""
    then pure false
    else has_open_incident_member (group_fingerprint env.sha256_hex e) e.url
