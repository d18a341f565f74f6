-- ===== src/Alerts/Access.antt =====
-- internal/alerts/access.go: the access gate. A fetch that is not ok raises one operational
-- incident and suppresses the page's other events; an ok fetch resolves the operational incidents.
pub mod Gate
use rabbot_seo.Base.{ℕ, String, Bool, true, false, Option, none, some, []}
use rabbot_seo.Model.{
  FetchClass, ok, soft_block, hard_block, unreachable, fetch_class_string, critical,
}
use rabbot_seo.Alerts.Event.{Event}
use rabbot_seo.Alerts.Pipeline.{Env, ingest, resolve}
use rabbot_seo.Alerts.Calls.{Action, ◌>>=◌, ◌>>◌, pure}

pub record AccessContext : Type 0 where
  pub site_id : ℕ
  pub site : String
  pub url : String
  pub url_id : ℕ
  pub fetch_class : FetchClass
  pub detector : String
  pub deep_link : String

abbrev pub monitoring_blocked : String
monitoring_blocked = "monitoring_blocked"

abbrev pub monitoring_unreachable : String
monitoring_unreachable = "monitoring_unreachable"

pub operational_change_type : FetchClass → Option String
operational_change_type ok = none
operational_change_type soft_block = some monitoring_blocked
operational_change_type hard_block = some monitoring_blocked
operational_change_type unreachable = some monitoring_unreachable

abbrev pub resolve_event : AccessContext → String → Event
resolve_event ac change_type = record {
  site_id = ac.site_id;
  site = ac.site;
  url = ac.url;
  url_id = 0;
  change_type = change_type;
  severity = critical;
  before = "";
  after = "";
  operational = true;
  deep_link = "";
  segments = [];
}

abbrev pub operational_event : AccessContext → String → Event
operational_event ac change_type = record {
  site_id = ac.site_id;
  site = ac.site;
  url = ac.url;
  url_id = ac.url_id;
  change_type = change_type;
  severity = critical;
  before = "ok";
  after = fetch_class_string ac.fetch_class;
  operational = true;
  deep_link = ac.deep_link;
  segments = [];
}

-- Past the choice of the operational change type.
gate : Env → ℕ → AccessContext → Option String → Action Bool
gate env now ac none = do
  resolve env now (resolve_event ac monitoring_blocked)
  resolve env now (resolve_event ac monitoring_unreachable)
  pure false
gate env now ac (some change_type) = do ingest env now (operational_event ac change_type); pure true

-- The result says whether the caller skips its own events.
pub handle_fetch_class : Env → ℕ → AccessContext → Action Bool
unfolding gate
handle_fetch_class env now ac = gate env now ac (operational_change_type ac.fetch_class)
