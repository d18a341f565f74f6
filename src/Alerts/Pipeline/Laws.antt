-- ===== src/Alerts/Pipeline/Laws.antt =====
-- The handlers in a quiet world, where no database call and no notifier fails: one equation for
-- each branch, with the tables that it leaves.
use rabbot_seo.Base.{
  ℕ, suc, ◌≡◌, refl, String, true, false, none, some, List, [], ◌∷◌, ltb, if◌then◌else◌, arith,
  str_eq, eq_iff, ◌≢◌,
}
use rabbot_seo.Base.Result.{ok}
use rabbot_seo.Model.{Alert}
use rabbot_seo.Notify.{NotifyAlert, route}
use rabbot_seo.Alerts.Throttle.{allow}
use rabbot_seo.Store.Incidents
use rabbot_seo.Store.Incidents.{Db}
use rabbot_seo.Alerts.Event.{Event, group_fingerprint}
use rabbot_seo.Alerts.Pipeline.{
  Env, add_member, within_window, accrued, renotified, new_incident, maybe_dispatch, ingest,
  resolve, to_notify_alert, throttle_key, has_open_member,
}
use rabbot_seo.Alerts.Calls.{
  World, ◌>>=◌, get_open_incident, open_incident, update_incident, close_incident, add_alert_member,
  remove_alert_member, dispatch_to, notify, pure, has_open_incident_member, attempt, read_db,
}

abbrev pub quiet : World → World
quiet w = record w { faults = [] }

abbrev pub with_db : World → Db → World
with_db w db = record w { db = db; faults = [] }

abbrev pub fp_of : Env → Event → String
fp_of env e = group_fingerprint env.sha256_hex e

abbrev pub member_db : ℕ → String → Db → Db
member_db i url db = if str_eq url "" then db else Incidents.add_alert_member i url db

-- The tables after `OpenIncident` of a new incident.
abbrev pub inserted_db : Env → ℕ → Event → Db → Db
inserted_db env now e db =
    let inc = new_incident env now e in
    record db {
      alerts =
          record inc {
            id = db.next_id;
            payload_summary = Incidents.payload_or_empty inc.payload_summary;
          }
          ∷ db.alerts;
      next_id = suc db.next_id;
    }

add_member-quiet :
    (i : ℕ) (url : String) (w : World)
    → add_member i url (quiet w) ≡ (ok tt, with_db w (member_db i url w.db))
unfolding add_member add_alert_member ◌>>=◌
add_member-quiet i url w = ground arith

module _ (env : Env) (now : ℕ) (e : Event) (w : World) where
  pub ingest_new :
      Incidents.get_open_incident (fp_of env e) w.db ≡ none
      → ingest env now e (quiet w)
        ≡ maybe_dispatch env e
            (record (new_incident env now e) { id = w.db.next_id })
            now
            (with_db w (member_db w.db.next_id e.url (inserted_db env now e w.db)))
  unfolding ingest get_open_incident open_incident ◌>>=◌ Incidents.open_incident
      Incidents.get_open_incident
  ingest_new h =
      ground (arith, add_member-quiet w.db.next_id e.url (with_db w (inserted_db env now e w.db)))

  pub ingest_deduped :
      (cur : Alert)
      → Incidents.get_open_incident (fp_of env e) w.db ≡ some cur
      → within_window env now cur.last_notified_at ≡ true
      → ingest env now e (quiet w) ≡ (
        ok tt,
        with_db w (Incidents.update_incident (accrued cur now) (member_db cur.id e.url w.db)),
      )
  unfolding ingest get_open_incident update_incident ◌>>=◌
  ingest_deduped cur h k = ground (arith, add_member-quiet cur.id e.url w)

  pub ingest-renotified :
      (cur : Alert)
      → Incidents.get_open_incident (fp_of env e) w.db ≡ some cur
      → within_window env now cur.last_notified_at ≡ false
      → ingest env now e (quiet w)
        ≡ maybe_dispatch env e (renotified cur now) now (
            with_db w
              (Incidents.update_incident (renotified cur now) (member_db cur.id e.url w.db)))
  unfolding ingest get_open_incident update_incident ◌>>=◌
  ingest-renotified cur h k = ground (arith, add_member-quiet cur.id e.url w)

  pub resolve_absent :
      Incidents.get_open_incident (fp_of env e) w.db ≡ none
      → resolve env now e (quiet w) ≡ (ok tt, quiet w)
  unfolding resolve get_open_incident ◌>>=◌
  resolve_absent h = ground arith

  pub resolve_open :
      (cur : Alert)
      → Incidents.get_open_incident (fp_of env e) w.db ≡ some cur
      → let (remaining, db) = Incidents.remove_alert_member cur.id e.url w.db in
        resolve env now e (quiet w) ≡ (
          ok tt,
          with_db w (if ltb 0 remaining then db else Incidents.close_incident cur.id now false db),
        )
  unfolding resolve get_open_incident close_incident remove_alert_member ◌>>=◌
  resolve_open cur h = ground arith

-- Deliveries leave the tables alone, whatever fails.
dispatch_to-db : (ns : List String) (a : NotifyAlert) (w : World) → (dispatch_to ns a w).1.db ≡ w.db
unfolding dispatch_to ◌>>=◌
dispatch_to-db [] a w = refl
dispatch_to-db (n ∷ ns) a w = ground (arith, dispatch_to-db ns a (notify n a w).1)

pub maybe_dispatch-db :
    (env : Env) (e : Event) (inc : Alert) (now : ℕ) (w : World)
    → (maybe_dispatch env e inc now w).1.db ≡ w.db
unfolding maybe_dispatch
maybe_dispatch-db env e inc now w =
    let na = to_notify_alert e inc now in
    let w' = record w { throttle = (allow w.throttle (throttle_key env e na) e.severity now).0 } in
    ground (arith, dispatch_to-db (route env.registry na) na w')

-- With no fault to come, a delivery succeeds and leaves the world quiet.
dispatch_to-quiet :
    (ns : List String) (a : NotifyAlert) (w : World)
    → w.faults ≡ []
    → ((dispatch_to ns a w).0 ≡ ok tt) × ((dispatch_to ns a w).1.faults ≡ [])
unfolding dispatch_to ◌>>=◌
dispatch_to-quiet [] a w h = (refl, h)
dispatch_to-quiet (n ∷ ns) a w h = ground (arith, dispatch_to-quiet ns a (notify n a w).1)

pub maybe_dispatch-quiet :
    (env : Env) (e : Event) (inc : Alert) (now : ℕ) (w : World)
    → w.faults ≡ []
    → ((maybe_dispatch env e inc now w).0 ≡ ok tt)
      × ((maybe_dispatch env e inc now w).1.faults ≡ [])
unfolding maybe_dispatch
maybe_dispatch-quiet env e inc now w h =
    let na = to_notify_alert e inc now in
    let w' = record w { throttle = (allow w.throttle (throttle_key env e na) e.severity now).0 } in
    ground (arith, dispatch_to-quiet (route env.registry na) na w')

pub has_open_member-quiet :
    (env : Env) (e : Event) (w : World)
    → e.url ≢ ""
    → has_open_member env e (quiet w)
      ≡ (ok (Incidents.has_open_incident_member (fp_of env e) e.url w.db), quiet w)
unfolding has_open_member pure has_open_incident_member ◌>>=◌ attempt read_db
has_open_member-quiet env e w ne = ground (arith, eq_iff e.url "")
