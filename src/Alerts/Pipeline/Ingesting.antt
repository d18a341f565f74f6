-- ===== src/Alerts/Pipeline/Ingesting.antt =====
-- What `Ingest` does to the incidents: which URLs the open incident of an identity holds, how it
-- counts, and when it notifies.
use rabbot_seo.Base.{
  ℕ, ◌≡◌, ◌≢◌, refl, String, true, none, some, ◌&&◌, if◌then◌else◌, str_eq, Bool-cases,
  Option-cases, inl, inr,
}
use rabbot_seo.Model.{Alert, is_open}
use rabbot_seo.Store.Incidents
use rabbot_seo.Store.Incidents.{Db, written}
use rabbot_seo.Store.Incidents.Rows.{IsWellFormed}
use rabbot_seo.Store.Incidents.Statements.{get-open}
use rabbot_seo.Alerts.Event.{Event}
use rabbot_seo.Alerts.Pipeline.{Env, within_window, accrued, renotified, ingest}
use rabbot_seo.Alerts.Calls.{World}
use rabbot_seo.Alerts.Pipeline.Laws.{
  quiet, fp_of, member_db, inserted_db, ingest_new, ingest_deduped, ingest-renotified,
  maybe_dispatch-db,
}
use rabbot_seo.Alerts.Pipeline.Tables.{
  affected, accrued_db, accrued-IsWellFormed, affected-accrued, opened-IsWellFormed,
  affected-opened,
}

module _ (env : Env) (now : ℕ) (e : Event) (w : World) (v : IsWellFormed w.db) where
  -- The tables after `Ingest` are those of one of its branches.
  ingest-tables {ℓ} :
      (P : Db → Type ℓ)
      → (Incidents.get_open_incident (fp_of env e) w.db ≡ none
          → P (member_db w.db.next_id e.url (inserted_db env now e w.db)))
      → ((cur a : Alert) (h : Incidents.get_open_incident (fp_of env e) w.db ≡ some cur)
            (same : a.id ≡ cur.id) (o : is_open a.status ≡ true)
          → P (accrued_db env now e w.db v cur a h same o))
      → P (ingest env now e (quiet w)).1.db
  unfolding accrued_db
  ingest-tables P opens accrues =
      elim (Option-cases (Incidents.get_open_incident (fp_of env e) w.db)) [
        | inl absent ↦ rw (ingest_new env now e w absent, maybe_dispatch-db) (opens absent)
        | inr (cur, found) ↦
            let o = get-open (fp_of env e) w.db cur found in
            elim (Bool-cases (within_window env now cur.last_notified_at)) [
              | inl recent ↦
                  rw (ingest_deduped env now e w cur found recent)
                    (accrues cur (accrued cur now) found refl o)
              | inr old ↦
                  rw (ingest-renotified env now e w cur found old, maybe_dispatch-db)
                    (accrues cur (renotified cur now) found refl o)
            ]
      ]

  -- In a quiet world `Ingest` succeeds and adds exactly one pair to what the open incidents hold:
  -- the event's identity with the event's URL, which is not empty. No other pair changes.
  pub affected-ingest :
      (k u : String)
      → e.url ≢ ""
      → affected k u (ingest env now e (quiet w)).1.db
        ≡ (if str_eq (fp_of env e) k && str_eq e.url u then true else affected k u w.db)
  affected-ingest k u ne =
      ingest-tables
        (λ db.
          affected k u db
          ≡ (if str_eq (fp_of env e) k && str_eq e.url u then true else affected k u w.db))
        (λ absent. affected-opened env now e w.db v absent k u ne)
        (λ cur a h same o. affected-accrued env now e w.db v cur a h same o k u ne)

  pub ingest-IsWellFormed : IsWellFormed (ingest env now e (quiet w)).1.db
  ingest-IsWellFormed =
      ingest-tables IsWellFormed (opened-IsWellFormed env now e w.db v)
        (accrued-IsWellFormed env now e w.db v)
