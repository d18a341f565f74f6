-- ===== src/Alerts/AutoClose.antt =====
-- internal/alerts/timers.go: the sweep that closes incidents which were not updated for long.
pub mod Sweep
use rabbot_seo.Base.{ℕ, ◌+◌, List, [], ◌∷◌, Bool, true, false, leb, if◌then◌else◌}
use rabbot_seo.Model.{Alert}
use rabbot_seo.Store.Incidents
use rabbot_seo.Alerts.Calls.{
  Action, ◌>>=◌, ◌>>◌, pure, attempt, store_failed, read_db, close_incident,
}
use rabbot_seo.Alerts.Pipeline.{Env}

-- `IncidentLister`
pub list_open_incidents : Action (List Alert)
list_open_incidents = do attempt store_failed; read_db Incidents.list_open_incidents

-- `now.Sub(inc.LastUpdatedAt) >= IncidentAutoClose`
abbrev pub is_stale : Env → ℕ → Alert → Bool
is_stale env now inc = leb (inc.last_updated_at + env.incident_auto_close) now

pub close_stale : Env → ℕ → List Alert → Action (Unit {0})
close_stale env now [] = pure tt
close_stale env now (inc ∷ rest) =
    let others = close_stale env now rest in
    if is_stale env now inc then close_incident inc.id now true >> others else others

pub auto_close_stale : Env → ℕ → Action (Unit {0})
unfolding list_open_incidents close_stale
auto_close_stale env now = do incidents ← list_open_incidents; close_stale env now incidents
