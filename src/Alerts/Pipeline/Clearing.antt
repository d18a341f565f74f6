-- ===== src/Alerts/Pipeline/Clearing.antt =====
-- What `Resolve` does to the pages of every identity, whatever fails.
use mathlib.Core.Path.{subst}
use rabbot_seo.Base.{
  ℕ, ◌≡◌, refl, ◌∙◌, String, Bool, true, false, not, ◌&&◌, ◌||◌, none, some, List, ltb,
  if◌then◌else◌, arith, str_eq, eq_iff, Bool-cases, Option-cases, inl, inr,
}
use rabbot_seo.Base.Result.{Result, err}
use rabbot_seo.Model.{Alert}
use rabbot_seo.Store.Incidents
use rabbot_seo.Store.Incidents.{Db}
use rabbot_seo.Store.Incidents.Rows.{IsWellFormed}
use rabbot_seo.Store.Incidents.Members.{has_open_member_none}
use rabbot_seo.Alerts.Event.{Event}
use rabbot_seo.Alerts.Calls.{Error, store_failed, World, close_incident, pure}
use rabbot_seo.Alerts.Pipeline.{Env, resolve_found, resolve}
use rabbot_seo.Alerts.Pipeline.Laws.{fp_of}
use rabbot_seo.Alerts.Pipeline.Tables.{affected}
use rabbot_seo.Alerts.Pipeline.Removal.{removed_db, remaining, affected-removed, affected-closed}
use rabbot_seo.Alerts.Pipeline.Chained.{
  close_incident-db, is_success, get-then, remove-then, marked_or_failed,
}

-- Which pages are affected by which identities, after the page of an event was taken out or not.
abbrev pub Leaves : String → String → Bool → Db → Db → Type 0
Leaves fp url b db db' =
    (k u : String)
    → affected k u db' ≡ (affected k u db && not (b && (str_eq fp k && str_eq url u)))

-- At most the event's own page was taken out, and it was if there is no error.
abbrev pub Clears : String → String → Db → Result Error (Unit {0}) × World → Type 0
Clears fp url db out =
    (b : Bool) × Leaves fp url b db out.1.db × ((not (is_success out.0) || b) ≡ true)

module _ (env : Env) (now : ℕ) (e : Event) (w : World) (v : IsWellFormed w.db) where
  failed-Clears :
      (fs : List Bool)
      → Clears (fp_of env e) e.url w.db (err store_failed, record w { faults = fs })
  failed-Clears fs = (false, λ k u. ground arith, refl)

  cleared :
      (out : Result Error (Unit {0}) × World)
      → Leaves (fp_of env e) e.url true w.db out.1.db
      → Clears (fp_of env e) e.url w.db out
  cleared out l = (true, l, marked_or_failed out.0)

  module _ (cur : Alert) (found : Incidents.get_open_incident (fp_of env e) w.db ≡ some cur) where
    abbrev db1 : Db
    db1 = removed_db (fp_of env e) e.url w.db v cur found

    removed-Leaves : Leaves (fp_of env e) e.url true w.db db1
    removed-Leaves k u = affected-removed (fp_of env e) e.url w.db v cur found k u ∙ ground arith

    abbrev gone_world : List Bool → World
    gone_world fs = record w { db = db1; faults = fs }

    found-Clears :
        (fs : List Bool)
        → Clears
            (fp_of env e)
            e.url
            w.db
            (resolve_found now e (some cur) (record w { faults = fs }))
    unfolding resolve_found pure
    found-Clears fs =
        remove-then (Clears (fp_of env e) e.url w.db) cur.id e.url _ (record w { faults = fs })
          failed-Clears
          (λ fs1.
            cleared
              ((if ltb 0 (remaining (fp_of env e) e.url w.db v cur found)
                  then pure tt
                  else close_incident cur.id now false)
                (gone_world fs1))
              (elim (Bool-cases (ltb 0 (remaining (fp_of env e) e.url w.db v cur found))) [
                | inl more ↦ rw more removed-Leaves
                | inr last ↦ rw last (
                    close_incident-db (Leaves (fp_of env e) e.url true w.db) cur.id now false
                      (gone_world fs1) removed-Leaves
                      (λ k u.
                        affected-closed (fp_of env e) e.url w.db v cur found now k u (ground arith)
                        ∙ removed-Leaves k u))
              ]))

  none_there :
      Incidents.get_open_incident (fp_of env e) w.db ≡ none
      → Leaves (fp_of env e) e.url true w.db w.db
  none_there absent k u = elim (Bool-cases (str_eq (fp_of env e) k)) [
    | inl same ↦
        let nothing : affected k u w.db ≡ false =
          has_open_member_none k u w.db
            (subst (λ x. Incidents.get_open_incident x w.db ≡ none) ((eq_iff _ _).0 same) absent) in
        rw nothing refl
    | inr other ↦ rw other (ground arith)
  ]

  -- From well-formed tables, and whatever database call fails on the way: `Resolve` changes whether a page is affected
  -- by an identity for no page and identity but its own, also where it closes the incident; and if it succeeds,
  -- its page is not affected by its identity.
  pub resolve-Clears : Clears (fp_of env e) e.url w.db (resolve env now e w)
  unfolding resolve
  resolve-Clears = get-then (Clears (fp_of env e) e.url w.db) (fp_of env e) _ w failed-Clears (λ fs.
      elim (Option-cases (Incidents.get_open_incident (fp_of env e) w.db)) [
        | inl absent ↦ rw absent (true, none_there absent, refl)
        | inr (cur, found) ↦ rw found (found-Clears cur found fs)
      ])
