-- ===== src/Scheduler/Process/Flow.antt =====
-- `ProcessFetch` and `resolveHealthyFields` of internal/scheduler/process.go: the calls in their
-- order, with the early returns.
use rabbot_seo.Base.{
  ℕ, String, Bool, true, false, not, ◌&&◌, ◌||◌, Option, none, some, List, [], ◌∷◌, ◌++◌, ltb, leb,
  ◌==◌, if◌then◌else◌, str_eq,
}
use rabbot_seo.Base.Result.{Result, ok, err}
use rabbot_seo.Model
use rabbot_seo.Model.{Severity, critical, warning, FetchClass}
use rabbot_seo.Diff.{Change, Snapshot, compare}
use rabbot_seo.Alerts.Event.{Event}
use rabbot_seo.Alerts.Access.{AccessContext}
use rabbot_seo.Rules.RedirectChain.{redirect_chain_info}
use rabbot_seo.Rules.Bridge.{NewFinding}
use rabbot_seo.Scheduler.Process.{
  Page, ProcessorDeps, Seams, Flags, flags_of, change_is_silent, change_event, finding_is_silent,
  finding_event, drop_content_changes, has_substantive,
}

abbrev pub errors_of : {A E : Type 0} → Result E A → List E
errors_of (ok a) = []
errors_of (err e) = e ∷ []

-- The change types sent so far, newest first, and the joined errors.
pub record Progress (E : Type 0) : Type 0 where
  pub types : List String
  pub errors : List E

module _ {W E : Type 0} (deps : ProcessorDeps W E) where
  -- One event is sent: its error is joined, and its type is noted whether or not it failed.
  unfoldable pub send : Event → Progress E × W → Progress E × W
  send ev (p, w) =
      let (r, w') = deps.ingest_event ev w in
      (record { types = ev.change_type ∷ p.types; errors = p.errors ++ errors_of r }, w')

  unfoldable pub ingest_changes :
      Seams → Page → Snapshot → Flags → List Change → Progress E × W → Progress E × W
  unfolding send
  ingest_changes s page new fl [] st = st
  ingest_changes s page new fl (c ∷ cs) st =
      ingest_changes s page new fl cs
        (if change_is_silent fl c then st else send (change_event s page new fl c) st)

  unfoldable pub bridge_findings :
      Seams
      → Page
      → Snapshot
      → Flags
      → List Change
      → Bool
      → List NewFinding
      → Progress E × W
      → Progress E × W
  unfolding send
  bridge_findings s page new fl changes first_crawl [] st = st
  bridge_findings s page new fl changes first_crawl (f ∷ fs) st =
      bridge_findings s page new fl changes first_crawl fs (
        if finding_is_silent fl changes first_crawl st.0.types f
        then st
        else send (finding_event s page new f) st)

  -- The events in turn, up to the first that fails.
  resolve_all : List Event → W → List E × W
  resolve_all [] w = ([], w)
  resolve_all (ev ∷ evs) w =
      let (r, w') = deps.resolve_event ev w in
      let rest = resolve_all evs w' in elim r [ ok u ↦ rest | err e ↦ (e ∷ [], w') ]

-- An event that `resolveHealthyFields` may send.
abbrev pub resolving : Page → String → Severity → Event
resolving page change_type severity = record {
  site_id = page.site_id;
  site = page.base_url;
  url = page.url;
  url_id = page.url_id;
  change_type = change_type;
  severity = severity;
  before = "";
  after = "";
  operational = false;
  deep_link = "";
  segments = [];
}

abbrev loop_recovered : Option (ℕ × String) → Option (ℕ × String) → Bool
loop_recovered none new = false
loop_recovered (some old) none = false
loop_recovered (some old) (some new) = not (str_eq old.1 "") && str_eq new.1 ""

-- `RenderMode.IsShell`
abbrev pub is_shell : String → Bool
is_shell m = str_eq m "head_only_shell" || str_eq m "client_shell"

abbrev when : Bool → Event → List Event → List Event
when b ev rest = if b then ev ∷ rest else rest

-- The signals that have recovered, in the order of the code.
unfoldable pub recovered : Seams → Page → Snapshot → Snapshot → List Event
recovered s page new old =
    when (not old.indexable && new.indexable) (resolving page "indexable" critical) (
      when (leb 400 old.http_status && leb 200 new.http_status && ltb new.http_status 300)
        (resolving page "http_status" critical)
        (when
          (loop_recovered (redirect_chain_info s.decode_chain old.redirect_chain)
            (redirect_chain_info s.decode_chain new.redirect_chain))
          (resolving page "redirect_loop" critical)
          (when (is_shell old.render_mode && not (is_shell new.render_mode))
            (resolving page "render_mode" warning) [])))

abbrev pub is_ok_class : FetchClass → Bool
is_ok_class Model.ok = true
is_ok_class _ = false

unfoldable pub changes_of : ℕ → ℕ → Snapshot → Snapshot → Bool → List Change
changes_of threshold now new old truncated =
    let changes = compare new old threshold now in
    if truncated then drop_content_changes changes else changes

module _ {W E : Type 0} (deps : ProcessorDeps W E) (s : Seams) (page : Page) where
  unfoldable pub resolve_healthy_fields : Snapshot → Snapshot → W → List E × W
  unfolding resolve_all recovered
  resolve_healthy_fields new old w =
      if old.id == 0 then ([], w) else resolve_all deps (recovered s page new old) w

  -- From the findings on.
  unfoldable pub alert : Snapshot → Snapshot → List Change → List NewFinding → W → List E × W
  unfolding ingest_changes bridge_findings resolve_healthy_fields
  alert new old changes findings w =
      let fl = flags_of changes new in
      let sent =
        ingest_changes deps s page new fl changes (record { types = []; errors = [] }, w) in
      let (p, w1) = bridge_findings deps s page new fl changes (old.id == 0) findings sent in
      let (unresolved, w2) = resolve_healthy_fields new old w1 in
      let (scored, w3) = deps.record_health_score page.site_id page.url_id w2 in
      (p.errors ++ (unresolved ++ errors_of scored), w3)

  -- From the rules on.
  unfoldable pub evaluate : Snapshot → Snapshot → List Change → Bool → W → (Bool × List E) × W
  unfolding alert
  evaluate new old changes truncated w =
      let changed = has_substantive changes in
      let (r, w1) = deps.apply_rules page new old changes truncated w in
      elim r [
        | err e ↦ ((changed, e ∷ []), w1)
        | ok findings ↦
            let (errors, w2) = alert new old changes findings w1 in ((changed, errors), w2)
      ]

  unfoldable pub record_and_evaluate :
      Snapshot → Snapshot → List Change → Bool → W → (Bool × List E) × W
  unfolding evaluate
  record_and_evaluate new old [] truncated w = evaluate new old [] truncated w
  record_and_evaluate new old (c ∷ cs) truncated w =
      let (r, w1) = deps.record_changes (c ∷ cs) w in
      elim r [ err e ↦ ((false, e ∷ []), w1) | ok u ↦ evaluate new old (c ∷ cs) truncated w1 ]

  abbrev access_of : FetchClass → String → AccessContext
  access_of fetch_class detector = record {
    site_id = page.site_id;
    site = page.base_url;
    url = page.url;
    url_id = page.url_id;
    fetch_class = fetch_class;
    detector = detector;
    deep_link = page.url;
  }

  -- Whether a substantive change was seen, and the joined errors.
  pub process_fetch :
      ℕ → ℕ → Snapshot → Snapshot → FetchClass → String → Bool → W → (Bool × List E) × W
  unfolding record_and_evaluate changes_of
  process_fetch threshold now new old fetch_class detector truncated w =
      let (r, w1) = deps.handle_fetch_class (access_of fetch_class detector) w in
      if is_ok_class fetch_class && (new.id == 0) then ((false, errors_of r), w1) else elim r [
        | err e ↦ ((false, e ∷ []), w1)
        | ok handled ↦
            if handled
            then ((false, []), w1)
            else record_and_evaluate new old (changes_of threshold now new old truncated) truncated
                w1
      ]
