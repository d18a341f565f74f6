-- ===== src/Scheduler/Process/Select.antt =====
-- Which events a fetch sends: the loops, seen as one list of events that are sent in turn.
use rabbot_seo.Base.{
  ◌≡◌, refl, String, Bool, List, [], ◌∷◌, ◌++◌, ◌==◌, if◌then◌else◌, Bool-cases, inl, inr,
}
use rabbot_seo.Diff.{Change, Snapshot}
use rabbot_seo.Alerts.Event.{Event}
use rabbot_seo.Rules.Bridge.{NewFinding}
use rabbot_seo.Scheduler.Process.{
  Page, ProcessorDeps, Seams, Flags, flags_of, change_is_silent, change_event, finding_is_silent,
  finding_event,
}
use rabbot_seo.Scheduler.Process.Flow.{Progress, send, ingest_changes, bridge_findings}

module _ (s : Seams) (page : Page) (new : Snapshot) (fl : Flags) where
  -- The events of the change stream.
  unfoldable pub change_events : List Change → List Event
  change_events [] = []
  change_events (c ∷ cs) =
      let rest = change_events cs in
      if change_is_silent fl c then rest else change_event s page new fl c ∷ rest

  -- The events of the findings, given the types that were sent before.
  unfoldable pub finding_events : List Change → Bool → List String → List NewFinding → List Event
  finding_events changes first types [] = []
  finding_events changes first types (f ∷ fs) =
      let skipped = finding_events changes first types fs in
      let later = finding_events changes first (f.field ∷ types) fs in
      if finding_is_silent fl changes first types f
      then skipped
      else finding_event s page new f ∷ later

-- The types of some events, the last one first, before those that were there.
unfoldable pub add_types : List Event → List String → List String
add_types [] types = types
add_types (e ∷ es) types = add_types es (e.change_type ∷ types)

unfoldable pub emitted :
    Seams → Page → Snapshot → Snapshot → List Change → List NewFinding → List Event
emitted s page new old changes findings =
    let fl = flags_of changes new in
    let first_loop = change_events s page new fl changes in
    first_loop
    ++ finding_events s page new fl changes (old.id == 0) (add_types first_loop []) findings

module _ {W E : Type 0} (deps : ProcessorDeps W E) where
  -- Every event is sent, whatever became of those before it.
  pub send_all : List Event → Progress E × W → Progress E × W
  send_all [] st = st
  send_all (e ∷ es) st = send_all es (send deps e st)

  send_all-append :
      (xs ys : List Event) (st : Progress E × W)
      → send_all (xs ++ ys) st ≡ send_all ys (send_all xs st)
  unfolding send_all
  send_all-append [] ys st = refl
  send_all-append (x ∷ xs) ys st = send_all-append xs ys (send deps x st)

  send-types :
      (es : List Event) (st : Progress E × W) → (send_all es st).0.types ≡ add_types es st.0.types
  unfolding send_all add_types send
  send-types [] st = refl
  send-types (e ∷ es) st = send-types es (send deps e st)

  ingest_changes-send_all :
      (s : Seams) (page : Page) (new : Snapshot) (fl : Flags) (cs : List Change)
      (st : Progress E × W)
      → ingest_changes deps s page new fl cs st ≡ send_all (change_events s page new fl cs) st
  unfolding ingest_changes send_all change_events
  ingest_changes-send_all s page new fl [] st = refl
  ingest_changes-send_all s page new fl (c ∷ cs) st = elim (Bool-cases (change_is_silent fl c)) [
    | inl skip ↦ rw skip (ingest_changes-send_all s page new fl cs st)
    | inr sends ↦
        rw sends
          (ingest_changes-send_all s page new fl cs (send deps (change_event s page new fl c) st))
  ]

  bridge_findings-send_all :
      (s : Seams) (page : Page) (new : Snapshot) (fl : Flags) (changes : List Change) (first : Bool)
      (fs : List NewFinding) (st : Progress E × W)
      → bridge_findings deps s page new fl changes first fs st
        ≡ send_all (finding_events s page new fl changes first st.0.types fs) st
  unfolding bridge_findings send_all finding_events
  bridge_findings-send_all s page new fl changes first [] st = refl
  bridge_findings-send_all s page new fl changes first (f ∷ fs) st =
      elim (Bool-cases (finding_is_silent fl changes first st.0.types f)) [
        | inl skip ↦ rw skip (bridge_findings-send_all s page new fl changes first fs st)
        | inr sends ↦ rw sends (
            bridge_findings-send_all s page new fl changes first fs
              (send deps (finding_event s page new f) st))
      ]

  -- The two loops of a fetch send exactly the emitted events, in that order. Each is tried once: an
  -- event that fails does not keep a later one from being sent.
  pub loops-send_all :
      (s : Seams) (page : Page) (new old : Snapshot) (changes : List Change)
      (findings : List NewFinding) (w : W)
      → let start : Progress E × W = (record { types = []; errors = [] }, w) in
        let fl = flags_of changes new in
        bridge_findings deps s page new fl changes
          (old.id == 0)
          findings
          (ingest_changes deps s page new fl changes start)
        ≡ send_all (emitted s page new old changes findings) start
  unfolding emitted send_all
  loops-send_all s page new old changes findings w =
      let start : Progress E × W = (record { types = []; errors = [] }, w) in
      let fl = flags_of changes new in
      let first_loop = change_events s page new fl changes in
      let second_loop =
        finding_events s page new fl changes (old.id == 0) (add_types first_loop []) findings in
      rw
        (
          ingest_changes-send_all s page new fl changes start,
          bridge_findings-send_all s page new fl changes (old.id == 0) findings
              (send_all first_loop start),
          send-types first_loop start,
          send_all-append first_loop second_loop start,
        )
        refl
