-- ===== src/Alerts/Pipeline/Marking.antt =====
-- What `Ingest` does to the pages of every identity, whatever fails.
use rabbot_seo.Base.{
  ℕ, ◌≡◌, ◌≢◌, refl, ◌∙◌, String, Bool, true, false, not, ◌&&◌, ◌||◌, none, some, List,
  if◌then◌else◌, arith, str_eq, Bool-cases, Option-cases, inl, inr,
}
use rabbot_seo.Base.Result.{Result, err}
use rabbot_seo.Model.{Alert, is_open}
use rabbot_seo.Store.Incidents
use rabbot_seo.Store.Incidents.{Db}
use rabbot_seo.Store.Incidents.Rows.{IsWellFormed}
use rabbot_seo.Store.Incidents.Statements.{get-open}
use rabbot_seo.Alerts.Event.{Event}
use rabbot_seo.Alerts.Calls.{Error, store_failed, World, ◌>>◌, update_incident}
use rabbot_seo.Alerts.Pipeline.{
  Env, within_window, accrued, renotified, new_incident, accrue, raise_incident, ingest_found,
  ingest, maybe_dispatch,
}
use rabbot_seo.Alerts.Pipeline.Laws.{fp_of, member_db, inserted_db, maybe_dispatch-db}
use rabbot_seo.Alerts.Pipeline.Tables.{
  affected, accrued_db, affected-inserted, affected-opened, affected-member, affected-accrued,
}
use rabbot_seo.Alerts.Pipeline.Chained.{
  is_success, collides, get-then, add-then, open-then, update-then, update-last,
  maybe_dispatch-collides, marked_or_failed,
}

-- Which pages are affected by which identities, after the page of an event was marked or not.
abbrev pub Joins : String → String → Bool → Db → Db → Type 0
Joins fp url b db db' =
    (k u : String) → affected k u db' ≡ (affected k u db || (b && (str_eq fp k && str_eq url u)))

-- What there is to say of an outcome: at most the event's own page was marked, it was if there is no error, and no
-- error is that of the unique index.
abbrev pub Marks : String → String → Db → Result Error (Unit {0}) × World → Type 0
Marks fp url db out =
    (b : Bool) × Joins fp url b db out.1.db
    × ((not (is_success out.0) || b) ≡ true)
    × (collides out.0 ≡ false)

module _ (env : Env) (now : ℕ) (e : Event) (w : World) (v : IsWellFormed w.db)
    (ne : e.url ≢ "") where
  abbrev MarkedThen : (out : Result Error (Unit {0}) × World) → Type 0
  MarkedThen out = Joins (fp_of env e) e.url true w.db out.1.db × (collides out.0 ≡ false)

  -- Once the page is marked, what comes after it may fail.
  marked-Marks :
      (out : Result Error (Unit {0}) × World) → MarkedThen out → Marks (fp_of env e) e.url w.db out
  marked-Marks out m = (true, m.0, marked_or_failed out.0, m.1)

  failed-Marks :
      (w' : World)
      → ((k u : String) → affected k u w'.db ≡ affected k u w.db)
      → Marks (fp_of env e) e.url w.db (err store_failed, w')
  failed-Marks w' same = (false, λ k u. same k u ∙ ground arith, refl, refl)

  dispatched :
      (inc : Alert) (w' : World)
      → Joins (fp_of env e) e.url true w.db w'.db
      → MarkedThen (maybe_dispatch env e inc now w')
  dispatched inc w' j = (
    λ k u. rw (maybe_dispatch-db env e inc now w') (j k u),
    maybe_dispatch-collides env e inc now w',
  )

  module _ (cur : Alert) (found : Incidents.get_open_incident (fp_of env e) w.db ≡ some cur) where
    member-Joins : Joins (fp_of env e) e.url true w.db (member_db cur.id e.url w.db)
    member-Joins k u =
        affected-member env now e w.db v cur cur found refl (get-open (fp_of env e) w.db cur found)
          k u ne
        ∙ ground arith

    update-Joins :
        (a : Alert)
        → a.id ≡ cur.id
        → is_open a.status ≡ true
        → Joins
            (fp_of env e)
            e.url
            true
            w.db
            (Incidents.update_incident a (member_db cur.id e.url w.db))
    unfolding accrued_db
    update-Joins a same opened k u =
        affected-accrued env now e w.db v cur a found same opened k u ne ∙ ground arith

    abbrev member_world : List Bool → World
    member_world fs = record w { db = member_db cur.id e.url w.db; faults = fs }

    updated :
        (a : Alert) (fs : List Bool)
        → a.id ≡ cur.id
        → is_open a.status ≡ true
        → MarkedThen (update_incident a (member_world fs))
    updated a fs same opened =
        update-last MarkedThen a (member_world fs) (λ fs'. (member-Joins, refl))
          (λ fs'. (update-Joins a same opened, refl))

    accrue-Marks :
        (fs : List Bool)
        → Marks (fp_of env e) e.url w.db (accrue env now e cur (record w { faults = fs }))
    unfolding accrue
    accrue-Marks fs =
        let opened = get-open (fp_of env e) w.db cur found in
        add-then (Marks (fp_of env e) e.url w.db) cur.id e.url _ (record w { faults = fs }) ne
          (λ fs'. failed-Marks (record w { faults = fs' }) (λ k u. refl))
          (λ fs'.
            marked-Marks
              ((if within_window env now cur.last_notified_at
                  then update_incident (accrued cur now)
                  else do
                    update_incident (renotified cur now)
                    maybe_dispatch env e (renotified cur now) now)
                (member_world fs'))
              (elim (Bool-cases (within_window env now cur.last_notified_at)) [
                | inl recent ↦ rw recent (updated (accrued cur now) fs' refl opened)
                | inr old ↦ rw old (
                    update-then MarkedThen (renotified cur now) _ (member_world fs')
                      (λ fs2. (member-Joins, refl))
                      (λ fs2.
                        dispatched (renotified cur now) _
                          (update-Joins (renotified cur now) refl opened)))
              ]))

  module _ (absent : Incidents.get_open_incident (fp_of env e) w.db ≡ none) where
    opens :
        Incidents.open_incident (new_incident env now e) w.db
        ≡ some (w.db.next_id, inserted_db env now e w.db)
    unfolding Incidents.open_incident Incidents.get_open_incident
    opens = ground (arith, absent)

    abbrev raised : Alert
    raised = record (new_incident env now e) { id = w.db.next_id }

    abbrev raised_world : List Bool → World
    raised_world fs = record w {
      db = member_db w.db.next_id e.url (inserted_db env now e w.db);
      faults = fs;
    }

    raise_incident-Marks :
        (fs : List Bool)
        → Marks (fp_of env e) e.url w.db (raise_incident env now e (record w { faults = fs }))
    unfolding raise_incident
    raise_incident-Marks fs =
        open-then (Marks (fp_of env e) e.url w.db) (new_incident env now e) _
          (record w { faults = fs }) w.db.next_id (inserted_db env now e w.db) opens
          (λ fs1. failed-Marks (record w { faults = fs1 }) (λ k u. refl))
          (λ fs1.
            add-then (Marks (fp_of env e) e.url w.db) w.db.next_id e.url _
              (record w { db = inserted_db env now e w.db; faults = fs1 }) ne
              (λ fs2.
                failed-Marks (record w { db = inserted_db env now e w.db; faults = fs2 })
                  (affected-inserted env now e w.db v absent))
              (λ fs2. marked-Marks (maybe_dispatch env e raised now (raised_world fs2)) (
                dispatched raised (raised_world fs2)
                  (λ k u. affected-opened env now e w.db v absent k u ne ∙ ground arith))))

  -- From well-formed tables, for a page with a URL, and whatever database call or delivery fails on the way: `Ingest`
  -- changes whether a page is affected by an identity for no page and identity but its own, and it takes none away;
  -- if it succeeds, its page is affected by its identity; and it never meets the error of the unique index on open
  -- incidents.
  pub ingest-Marks : Marks (fp_of env e) e.url w.db (ingest env now e w)
  unfolding ingest ingest_found
  ingest-Marks =
      get-then (Marks (fp_of env e) e.url w.db) (fp_of env e) _ w
        (λ fs. failed-Marks (record w { faults = fs }) (λ k u. refl))
        (λ fs. elim (Option-cases (Incidents.get_open_incident (fp_of env e) w.db)) [
          | inl absent ↦ rw absent (raise_incident-Marks absent fs)
          | inr (cur, found) ↦ rw found (accrue-Marks cur found fs)
        ])
