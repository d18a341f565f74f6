-- ===== src/Alerts/Pipeline/Notifying.antt =====
-- When `Ingest` notifies: deduplication, the cap, the digest, and critical alerts.
use rabbot_seo.Base.{
  ℕ, ◌+◌, ◌<◌, ◌≡◌, refl, ◌∙◌, String, Bool, true, not, ◌||◌, Option, none, some, List, [], ◌∷◌,
  ◌++◌, if◌then◌else◌, arith, lt→ltb, suc, str_eq, eq_iff, eq_refl, Bool-cases, inl, inr,
}
use rabbot_seo.Base.Result.{ok}
use rabbot_seo.Model.{Alert, critical}
use rabbot_seo.Notify.{NotifyAlert, Registry, route, route_target}
use rabbot_seo.Notify.Routing.{targets, route-route_target}
use rabbot_seo.Store.Incidents
use rabbot_seo.Store.Incidents.{Db, written, payload_or_empty}
use rabbot_seo.Store.Incidents.Rows.{IsWellFormed}
use rabbot_seo.Store.Incidents.Statements.{get-open}
use rabbot_seo.Alerts.Throttle.{allow}
use rabbot_seo.Alerts.Throttle.Window.{critical_bypasses}
use rabbot_seo.Alerts.Event.{Event}
use rabbot_seo.Alerts.Pipeline.{
  Env, within_window, accrued, new_incident, to_notify_alert, throttle_key, digests, maybe_dispatch,
  ingest,
}
use rabbot_seo.Alerts.Calls.{World, dispatch_to, ◌>>=◌}
use rabbot_seo.Alerts.Pipeline.Laws.{quiet, fp_of, member_db, ingest_new, ingest_deduped}
use rabbot_seo.Alerts.Pipeline.Tables.{accrued_db, get-accrued_self, affected, affected-accrued}

-- The deliveries after an alert went to a target, if there is one.
abbrev pub delivered :
    Option String → NotifyAlert → List (String × NotifyAlert) → List (String × NotifyAlert)
delivered none na sent = sent
delivered (some n) na sent = (n, na) ∷ sent

dispatch_to-targets :
    (o : Option String) (na : NotifyAlert) (w : World)
    → w.faults ≡ []
    → dispatch_to (targets o) na w ≡ (ok tt, record w { sent = delivered o na w.sent })
unfolding dispatch_to ◌>>=◌
dispatch_to-targets none na w h = refl
dispatch_to-targets (some n) na w h = ground arith

dispatch_to-route :
    (reg : Registry) (na : NotifyAlert) (w : World)
    → w.faults ≡ []
    → dispatch_to (route reg na) na w
      ≡ (ok tt, record w { sent = delivered (route_target reg na) na w.sent })
dispatch_to-route reg na w h =
    rw (route-route_target reg na) (dispatch_to-targets (route_target reg na) na w h)

-- What the throttle says of an incident's notification.
abbrev pub is_allowed : Env → Event → Alert → ℕ → World → Bool
is_allowed env e inc now w =
    (allow w.throttle (throttle_key env e (to_notify_alert e inc now)) e.severity now).1

module _ (env : Env) (e : Event) (inc : Alert) (now : ℕ) (w : World) (h : w.faults ≡ []) where
  abbrev pub na : NotifyAlert
  na = to_notify_alert e inc now

  abbrev pub out : World
  out = (maybe_dispatch env e inc now w).1

  abbrev pub throttled : World
  throttled = record w { throttle = (allow w.throttle (throttle_key env e na) e.severity now).0 }

  -- In a quiet world an alert under the cap, or one that has no digest sink, goes to its route's target, if there
  -- is one; over the cap it goes to the digest if its severity is in the digest set.
  pub alert_accounted :
      (out.sent ≡ (
        if is_allowed env e inc now w || not env.digest_sink
        then delivered (route_target env.registry na) na w.sent
        else w.sent))
      × (out.digest ≡ (
          if is_allowed env e inc now w || not env.digest_sink
          then w.digest
          else if digests env.digest_severities e.severity
          then w.digest ++ na ∷ []
          else w.digest))
  unfolding maybe_dispatch
  alert_accounted = ground (arith, dispatch_to-route env.registry na throttled h)

module _ (env : Env) (now : ℕ) (e : Event) (w : World) (v : IsWellFormed w.db) where
  counted :
      (cur : Alert) (t : ℕ)
      → cur.last_notified_at ≡ some t
      → some (written (accrued cur now) cur)
        ≡ some (record cur {
          affected_count = suc cur.affected_count;
          last_updated_at = now;
          last_notified_at = some t;
          payload_summary = payload_or_empty cur.payload_summary;
        })
  counted cur t last = rw last refl

  joined :
      (cur : Alert) (found : Incidents.get_open_incident (fp_of env e) w.db ≡ some cur)
      → (str_eq e.url ""
          || affected
              (fp_of env e)
              e.url
              (Incidents.update_incident (accrued cur now) (member_db cur.id e.url w.db)))
        ≡ true
  unfolding accrued_db
  joined cur found = elim (Bool-cases (str_eq e.url "")) [
    | inl blank ↦ rw blank refl
    | inr named ↦ ground (
      arith,
      affected-accrued env now e w.db v cur (accrued cur now) found refl
          (get-open (fp_of env e) w.db cur found) (fp_of env e) e.url
          (λ p. ground (arith, eq_iff e.url "")),
      eq_refl (fp_of env e),
      eq_refl e.url,
    )
  ]

  -- From well-formed tables, an open incident accrues in silence within the dedup window of its last notification:
  -- in a quiet world `Ingest` succeeds, delivers and buffers nothing and spends nothing of any cap. The incident is
  -- open after that, with one more event in its count, this time as that of its last update, the time of its last
  -- notification as it was, and the event's page, if it has one, as a member.
  pub dedup_silent :
      (cur : Alert) (t : ℕ)
      → Incidents.get_open_incident (fp_of env e) w.db ≡ some cur
      → cur.last_notified_at ≡ some t
      → now < t + env.dedup_window
      → let out = ingest env now e (quiet w) in
        (out.0 ≡ ok tt)
        × (out.1.sent ≡ w.sent)
        × (out.1.digest ≡ w.digest)
        × (out.1.throttle ≡ w.throttle)
        × (Incidents.get_open_incident (fp_of env e) out.1.db
            ≡ some (record cur {
              affected_count = suc cur.affected_count;
              last_updated_at = now;
              last_notified_at = some t;
              payload_summary = payload_or_empty cur.payload_summary;
            }))
        × ((str_eq e.url "" || affected (fp_of env e) e.url out.1.db) ≡ true)
  unfolding accrued_db
  dedup_silent cur t found last recent =
      let within : within_window env now cur.last_notified_at ≡ true =
        unfold within_window in
        rw (last, within_window) (lt→ltb now (t + env.dedup_window) recent) in
      rw (ingest_deduped env now e w cur found within) (
        refl,
        refl,
        refl,
        refl,
        get-accrued_self env now e w.db v cur (accrued cur now) found refl
              (get-open (fp_of env e) w.db cur found)
            ∙ counted cur t last,
        joined cur found,
      )

  critical_sent :
      (inc : Alert) (w' : World)
      → e.severity ≡ critical
      → w'.faults ≡ []
      → (maybe_dispatch env e inc now w').1.sent
        ≡ delivered
            (route_target env.registry (to_notify_alert e inc now))
            (to_notify_alert e inc now)
            w'.sent
  critical_sent inc w' crit h = ground (
    arith,
    alert_accounted env e inc now w' h,
    critical_bypasses w'.throttle (throttle_key env e (to_notify_alert e inc now)) now,
  )

  -- A critical event that opens an incident is delivered to its route's target at once, whatever
  -- was sent before: no cap and no digest stands in its way.
  pub critical_delivered :
      e.severity ≡ critical
      → Incidents.get_open_incident (fp_of env e) w.db ≡ none
      → let na = to_notify_alert e (new_incident env now e) now in
        (ingest env now e (quiet w)).1.sent ≡ delivered (route_target env.registry na) na w.sent
  critical_delivered crit absent =
      rw (ingest_new env now e w absent)
        (critical_sent (record (new_incident env now e) { id = w.db.next_id }) _ crit refl)
