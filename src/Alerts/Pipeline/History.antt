-- ===== src/Alerts/Pipeline/History.antt =====
-- The incidents after any history of the pipeline in a quiet world.
use rabbot_seo.Base.{
  ℕ, ◌≡◌, ◌≢◌, refl, String, Bool, true, false, List, [], ◌∷◌, ◌&&◌, ◌∙◌, if◌then◌else◌, str_eq,
  Option-cases, Bool-cases, inl, inr, All,
}
use rabbot_seo.Base.Result.{ok}
use rabbot_seo.Store.Incidents
use rabbot_seo.Store.Incidents.Rows.{IsWellFormed}
use rabbot_seo.Alerts.Event.{Event}
use rabbot_seo.Alerts.Pipeline.{Env, within_window, ingest, resolve}
use rabbot_seo.Alerts.Calls.{World}
use rabbot_seo.Alerts.Pipeline.Laws.{
  quiet, fp_of, ingest_new, ingest_deduped, ingest-renotified, resolve_absent, resolve_open,
  maybe_dispatch-quiet,
}
use rabbot_seo.Alerts.Pipeline.Tables.{affected}
use rabbot_seo.Alerts.Pipeline.Ingesting.{affected-ingest, ingest-IsWellFormed}
use rabbot_seo.Alerts.Pipeline.Resolving.{affected-resolve, resolve-IsWellFormed}

-- In a quiet world neither handler fails, and the world stays quiet.
pub ingest-quiet :
    (env : Env) (now : ℕ) (e : Event) (w : World)
    → ((ingest env now e (quiet w)).0 ≡ ok tt) × ((ingest env now e (quiet w)).1.faults ≡ [])
ingest-quiet env now e w = elim (Option-cases (Incidents.get_open_incident (fp_of env e) w.db)) [
  | inl absent ↦ rw (ingest_new env now e w absent) (maybe_dispatch-quiet env e _ now _ refl)
  | inr (cur, found) ↦ elim (Bool-cases (within_window env now cur.last_notified_at)) [
    | inl recent ↦ rw (ingest_deduped env now e w cur found recent) (refl, refl)
    | inr old ↦
        rw (ingest-renotified env now e w cur found old) (maybe_dispatch-quiet env e _ now _ refl)
  ]
]

pub resolve-quiet :
    (env : Env) (now : ℕ) (e : Event) (w : World)
    → ((resolve env now e (quiet w)).0 ≡ ok tt) × ((resolve env now e (quiet w)).1.faults ≡ [])
resolve-quiet env now e w = elim (Option-cases (Incidents.get_open_incident (fp_of env e) w.db)) [
  | inl absent ↦ rw (resolve_absent env now e w absent) (refl, refl)
  | inr (cur, found) ↦ rw (resolve_open env now e w cur found) (refl, refl)
]

-- What the crawler tells the pipeline of a signal of a page: that it fires, or has recovered.
pub data Op : Type 0 where
  fires recovers : Event → Op

abbrev pub event_of : Op → Event
event_of (fires e) = e
event_of (recovers e) = e

abbrev pub is_firing : Op → Bool
is_firing (fires e) = true
is_firing (recovers e) = false

pub step : Env → ℕ → Op → World → World
step env now (fires e) w = (ingest env now e (quiet w)).1
step env now (recovers e) w = (resolve env now e (quiet w)).1

pub run : Env → List (ℕ × Op) → World → World
run env [] w = w
run env ((now, op) ∷ ops) w = run env ops (step env now op w)

-- The specification: the last word on a pair decides, and `start` where nothing was said.
pub last_word : Env → String → String → List (ℕ × Op) → Bool → Bool
last_word env k u [] start = start
last_word env k u ((now, op) ∷ ops) start = last_word env k u ops (
    if str_eq (fp_of env (event_of op)) k && str_eq (event_of op).url u
    then is_firing op
    else start)

affected-step :
    (env : Env) (now : ℕ) (op : Op) (w : World) (k u : String)
    → IsWellFormed w.db
    → (event_of op).url ≢ ""
    → affected k u (step env now op w).db ≡ (
        if str_eq (fp_of env (event_of op)) k && str_eq (event_of op).url u
        then is_firing op
        else affected k u w.db)
unfolding step
affected-step env now (fires e) w k u v ne = affected-ingest env now e w v k u ne
affected-step env now (recovers e) w k u v ne = affected-resolve env now e w v k u

pub step-IsWellFormed :
    (env : Env) (now : ℕ) (op : Op) (w : World)
    → IsWellFormed w.db
    → IsWellFormed (step env now op w).db
unfolding step
step-IsWellFormed env now (fires e) w v = ingest-IsWellFormed env now e w v
step-IsWellFormed env now (recovers e) w v = resolve-IsWellFormed env now e w v

-- After any history of events with URLs, the open incident of an identity holds a URL exactly if
-- the last event about that identity and URL was a firing one. A recovery of one page never
-- silences another, and repeated firings count once.
pub affected-run :
    (env : Env) (ops : List (ℕ × Op)) (w : World) (k u : String)
    → IsWellFormed w.db
    → All (λ op. (event_of op.1).url ≢ "") ops
    → affected k u (run env ops w).db ≡ last_word env k u ops (affected k u w.db)
unfolding run last_word
affected-run env [] w k u v named = refl
affected-run env ((now, op) ∷ ops) w k u v named =
    affected-run env ops (step env now op w) k u (step-IsWellFormed env now op w v) named.1
    ∙ rw (affected-step env now op w k u v named.0)
