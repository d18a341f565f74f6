-- ===== src/Scheduler/GscSignals/Silence.antt =====
-- A signal that nothing has changed about sends nothing again.
use mathlib.Core.Path.{subst}
use rabbot_seo.Base.{
  ℕ, ◌≤◌, ◌≡◌, ◌≢◌, ◌⊎◌, refl, ◌∙◌, String, Bool, true, false, not, ◌&&◌, Option, none, some, arith,
  Bool-cases, Option-cases, inl, inr,
}
use rabbot_seo.Base.Result.{Result, ok, err}
use rabbot_seo.Store.Incidents
use rabbot_seo.Alerts.Event.{Event}
use rabbot_seo.Alerts.Pipeline.{Env, resolve}
use rabbot_seo.Alerts.Calls.{Error, World, ◌>>=◌, pure}
use rabbot_seo.Alerts.Pipeline.Laws.{fp_of, resolve_absent, resolve_open}
use rabbot_seo.Alerts.Pipeline.Tables.{affected}
use rabbot_seo.Scheduler.GscSignals.States.{IndexStatus, gsc_indexed}
use rabbot_seo.Scheduler.GscSignals.{
  Reader, Site, Judged, index_discrepancy, inspection_too_stale, clearing, ingest_on_state_change,
  resolve_signal, resolve_if_open, eval_signal1,
}
use rabbot_seo.Scheduler.GscSignals.Decisions.{
  Decision, skips, clears_if_open, fails, fires, clears, says, act, decide1, on_verdicts,
  on_snapshot, on_url, on_google, on_status, eval_signal1-act,
}
use rabbot_seo.Scheduler.GscSignals.Membership.{
  IsCalm, incident_of, act-Effect, open_member, quiet-eq,
}
use rabbot_seo.Scheduler.GscSignals.Ticks.{marked_self}

-- The second world has sent and kept for the digest what the first has.
abbrev pub SameOutput : World → World → Type 0
SameOutput w w' = (w'.sent ≡ w.sent) × (w'.digest ≡ w.digest)

resolve-SameOutput :
    (env : Env) (now : ℕ) (e : Event) (w : World) → IsCalm w → SameOutput w (resolve env now e w).1
resolve-SameOutput env now e w c =
    subst (λ x. SameOutput w (resolve env now e x).1) (quiet-eq w c.quiet_world)
      (elim (Option-cases (Incidents.get_open_incident (fp_of env e) w.db)) [
        | inl absent ↦ rw (resolve_absent env now e w absent) (refl, refl)
        | inr (cur, found) ↦ rw (resolve_open env now e w cur found) (refl, refl)
      ])

module _ (env : Env) (site : Site) (url t : String) (ne : url ≢ "") where
  told :
      (now : ℕ) (d : Decision) (b : Bool) (w : World)
      → IsCalm w
      → says d ≡ some b
      → affected (incident_of env site t) url (act env now site url t d w).1.db ≡ b
  told now d b w c h =
      (act-Effect env now site url t d w c ne).1 (incident_of env site t) url
      ∙ marked_self (incident_of env site t) url (says d)
          (affected (incident_of env site t) url w.db)
      ∙ rw h refl

  act_twice :
      (now now' : ℕ) (d : Decision) (w w' : World)
      → IsCalm w
      → IsCalm w'
      → affected (incident_of env site t) url w'.db
        ≡ affected (incident_of env site t) url (act env now site url t d w).1.db
      → SameOutput w' (act env now' site url t d w').1
  unfolding ingest_on_state_change resolve_signal resolve_if_open ◌>>=◌ pure
  act_twice now now' skips w w' c c' kept = (refl, refl)
  act_twice now now' (fails e) w w' c c' kept = (refl, refl)
  act_twice now now' (clears id) w w' c c' kept =
      resolve-SameOutput env now' (clearing site url t id) w' c'
  act_twice now now' (fires id b a) w w' c c' kept =
      rw (open_member env now' site url t w' c' ne, kept, told now (fires id b a) true w c refl)
        (refl, refl)
  act_twice now now' clears_if_open w w' c c' kept =
      rw (open_member env now' site url t w' c' ne, kept, told now clears_if_open false w c refl)
        (refl, refl)

late_later :
    (i f now now' : ℕ)
    → now ≤ now'
    → inspection_too_stale i f now ≡ true
    → inspection_too_stale i f now' ≡ true
unfolding inspection_too_stale
late_later i f now now' le h = ground arith

-- Later a decision is the same, or the inspection has become too old for it.
abbrev Waits : Decision → Decision → Type 0
Waits d d' = (d' ≡ d) ⊎ (d' ≡ skips)

module _ (now now' : ℕ) (le : now ≤ now') where
  verdicts_wait :
      (idx : IndexStatus) (g : Bool) (id : ℕ) (v : Judged)
      → Waits (on_verdicts now idx g id v) (on_verdicts now' idx g id v)
  verdicts_wait idx g id v =
      elim (Bool-cases (inspection_too_stale idx.inspected_at v.fetched_at now')) [
        | inr fresh ↦
            let early : inspection_too_stale idx.inspected_at v.fetched_at now ≡ false =
              ground (arith, late_later idx.inspected_at v.fetched_at now now' le) in
            inl (rw (fresh, early) refl)
        | inl late ↦ elim (Bool-cases (v.indexable && not g)) [
          | inl first ↦ inr (rw (first, late) refl)
          | inr a ↦ elim (Bool-cases (not v.indexable && g)) [
            | inl second ↦ inr (rw (a, second, late) refl)
            | inr b ↦ inl (rw (a, b) refl)
          ]
        ]
      ]

  snapshot-Waits :
      (idx : IndexStatus) (g : Bool) (id : ℕ) (res : Result Error (Option Judged))
      → Waits (on_snapshot now idx g id res) (on_snapshot now' idx g id res)
  snapshot-Waits idx g id (err e) = inl refl
  snapshot-Waits idx g id (ok none) = inl refl
  snapshot-Waits idx g id (ok (some v)) = verdicts_wait idx g id v

  url-Waits :
      (r : Reader) (idx : IndexStatus) (g : Bool) (res : Result Error (Option ℕ))
      → Waits (on_url r now idx g res) (on_url r now' idx g res)
  url-Waits r idx g (err e) = inl refl
  url-Waits r idx g (ok none) = inl refl
  url-Waits r idx g (ok (some id)) = snapshot-Waits idx g id (r.latest_snapshot id)

  google-Waits :
      (r : Reader) (url : String) (idx : IndexStatus) (o : Option Bool)
      → Waits (on_google r now url idx o) (on_google r now' url idx o)
  google-Waits r url idx none = inl refl
  google-Waits r url idx (some g) = url-Waits r idx g (r.get_url url)

  status-Waits :
      (r : Reader) (url : String) (res : Result Error (Option IndexStatus))
      → Waits (on_status r now url res) (on_status r now' url res)
  status-Waits r url (err e) = inl refl
  status-Waits r url (ok none) = inl refl
  status-Waits r url (ok (some idx)) = google-Waits r url idx (gsc_indexed idx)

-- For a page with a URL, in two quiet worlds with well-formed tables, the second one at the same time or later:
-- where the snapshots and Google's statements that are read are the same, and the page is in the second world a
-- member of the site's open discrepancy exactly if the evaluation in the first one left it a member, an evaluation of
-- the page's index discrepancy in the second world notifies no one and adds nothing to the digest.
pub later_tick_silent :
    (r : Reader) (env : Env) (now now' : ℕ) (site : Site) (url : String) (w w' : World)
    → IsCalm w
    → IsCalm w'
    → url ≢ ""
    → now ≤ now'
    → affected (incident_of env site index_discrepancy) url w'.db
      ≡ affected
          (incident_of env site index_discrepancy)
          url
          (eval_signal1 r env now site url w).1.db
    → SameOutput w' (eval_signal1 r env now' site url w').1
later_tick_silent r env now now' site url w w' c c' ne le same_member =
    let d = decide1 r now url in
    let kept : affected (incident_of env site index_discrepancy) url w'.db
        ≡ affected (incident_of env site index_discrepancy) url
            (act env now site url index_discrepancy d w).1.db =
      rw (eval_signal1-act env now site url r w) at same_member in
    rw (eval_signal1-act env now' site url r w')
      (elim (status-Waits now now' le r url (r.latest_url_index_status url)) [
        | inl same ↦ rw same (act_twice env site url index_discrepancy ne now now' d w w' c c' kept)
        | inr quiet_now ↦ rw quiet_now (refl, refl)
      ])
