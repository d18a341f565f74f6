-- ===== src/Scheduler/GscSignals.antt =====
-- internal/scheduler/gscsignals.go: the two signals that compare the crawler's view of a page with
-- Google's, on the alert pipeline of the daemon. The reads of the database and the canonical keys
-- (internal/urlx and net/url) are arguments; a time is in seconds, and 0 is the zero time. `ErrNotFound`
-- is `none`.
pub mod States
pub mod Decisions
pub mod Membership
pub mod Ticks
pub mod Silence
use rabbot_seo.Base.{
  ℕ, ◌+◌, ◌*◌, String, Bool, true, false, not, ◌&&◌, ◌||◌, Option, none, some, List, [], ◌∷◌, ltb,
  ◌==◌, if◌then◌else◌, str_eq, ◌<>◌, trim_space,
}
use rabbot_seo.Base.Result.{Result, ok, err}
use rabbot_seo.Alerts.Event.{Event}
use rabbot_seo.Alerts.Pipeline.{Env, ingest, resolve, has_open_member}
use rabbot_seo.Alerts.Calls.{Error, World, Action, ◌>>=◌, ◌>>◌, pure}
use rabbot_seo.Scheduler.Process.{severity_for_field}
use rabbot_seo.Scheduler.GscSignals.States.{IndexStatus, gsc_indexed, google_state_label}

abbrev pub index_discrepancy : String
index_discrepancy = "index_status_discrepancy"

abbrev pub canonical_mismatch : String
canonical_mismatch = "google_canonical_mismatch"

-- The fields of model.Snapshot that the signals read.
pub record Judged : Type 0 where
  pub indexable : Bool
  pub indexability_reason : String
  pub fetched_at : ℕ

-- `GSCVerdictReader`, the candidates and the key of a canonical link.
pub record Reader : Type 0 where
  pub latest_url_index_status : String → Result Error (Option IndexStatus)
  pub get_url : String → Result Error (Option ℕ)
  pub latest_snapshot : ℕ → Result Error (Option Judged)
  pub candidates : Result Error (List String)
  pub canonical_key : String → String

pub record Site : Type 0 where
  pub id : ℕ
  pub base_url : String

-- 30 days.
abbrev pub max_inspection_age : ℕ
max_inspection_age = 30 * 24 * 3600

unfoldable pub inspection_too_stale : ℕ → ℕ → ℕ → Bool
inspection_too_stale inspected fetched now =
    if not (inspected == 0) && not (fetched == 0) && ltb inspected fetched
    then true
    else not (inspected == 0) && ltb (inspected + max_inspection_age) now

abbrev pub suppressed : Judged → String
suppressed v =
    if str_eq v.indexability_reason ""
    then "noindex"
    else "noindex (" <> v.indexability_reason <> ")"

abbrev pub read : {A : Type 0} → Result Error A → Action A
read r w = (r, w)

abbrev pub probe : Site → String → String → Event
probe site url change_type = record {
  site_id = site.id;
  site = site.base_url;
  url = url;
  url_id = 0;
  change_type = change_type;
  severity = severity_for_field change_type;
  before = "";
  after = "";
  operational = false;
  deep_link = "";
  segments = [];
}

abbrev pub firing : Site → String → ℕ → String → String → String → Event
firing site url id change_type before after = record (probe site url change_type) {
  url_id = id;
  before = before;
  after = after;
  deep_link = url;
}

abbrev pub clearing : Site → String → String → ℕ → Event
clearing site url change_type id = record (probe site url change_type) {
  url_id = id;
  deep_link = url;
}

module _ (env : Env) (now : ℕ) (site : Site) where
  unfoldable pub ingest_on_state_change : String → ℕ → String → String → String → Action (Unit {0})
  unfolding pure
  ingest_on_state_change url id change_type before after = do
    already ← has_open_member env (probe site url change_type)
    if already then pure tt else ingest env now (firing site url id change_type before after)

  unfoldable pub resolve_signal : String → String → ℕ → Action (Unit {0})
  resolve_signal url change_type id = resolve env now (clearing site url change_type id)

  unfoldable pub resolve_if_open : String → String → Action (Unit {0})
  unfolding pure resolve_signal
  resolve_if_open url change_type = do
    open_member ← has_open_member env (probe site url change_type)
    if open_member then resolve_signal url change_type 0 else pure tt

  -- The comparison of the two verdicts.
  pub compare_verdicts : String → IndexStatus → Bool → ℕ → Judged → Action (Unit {0})
  unfolding pure ingest_on_state_change resolve_signal
  compare_verdicts url idx indexed id v =
      let too_stale = inspection_too_stale idx.inspected_at v.fetched_at now in
      if v.indexable && not indexed
      then if too_stale
        then pure tt
        else ingest_on_state_change url id index_discrepancy "indexable"
            ("Rabbot says indexable; Google: " <> google_state_label idx)
      else if not v.indexable && indexed
      then if too_stale
        then pure tt
        else ingest_on_state_change url id index_discrepancy (suppressed v)
            ("Rabbot says " <> suppressed v <> "; Google indexed it")
      else resolve_signal url index_discrepancy id

  pub with_snapshot : String → IndexStatus → Bool → ℕ → Option Judged → Action (Unit {0})
  unfolding pure compare_verdicts
  with_snapshot url idx indexed id none = pure tt
  with_snapshot url idx indexed id (some v) = compare_verdicts url idx indexed id v

pub url_id_for : Reader → String → ℕ
url_id_for r url = elim (r.get_url url) [
  | err e ↦ 0
  | ok found ↦ elim found [ none ↦ 0 | some id ↦ id ]
]

module _ (r : Reader) (env : Env) (now : ℕ) (site : Site) where
  pub with_url : String → IndexStatus → Bool → Option ℕ → Action (Unit {0})
  unfolding pure with_snapshot
  with_url url idx indexed none = pure tt
  with_url url idx indexed (some id) = do
    snap ← read (r.latest_snapshot id)
    with_snapshot env now site url idx indexed id snap

  pub with_google : String → IndexStatus → Option Bool → Action (Unit {0})
  unfolding resolve_signal with_url
  with_google url idx none = resolve_signal env now site url index_discrepancy 0
  with_google url idx (some indexed) = do
    found ← read (r.get_url url)
    with_url url idx indexed found

  pub with_status : String → Option IndexStatus → Action (Unit {0})
  unfolding pure with_google gsc_indexed
  with_status url none = pure tt
  with_status url (some idx) = with_google url idx (gsc_indexed idx)

  pub eval_signal1 : String → Action (Unit {0})
  unfolding with_status
  eval_signal1 url = do status ← read (r.latest_url_index_status url); with_status url status

  pub canonicals : String → Option IndexStatus → Action (Unit {0})
  unfolding pure resolve_if_open resolve_signal ingest_on_state_change url_id_for
  canonicals url none = pure tt
  canonicals url (some idx) =
      if str_eq idx.user_canonical "" || str_eq idx.google_canonical ""
      then resolve_if_open env now site url canonical_mismatch
      else if str_eq (r.canonical_key idx.user_canonical) (r.canonical_key idx.google_canonical)
      then resolve_signal env now site url canonical_mismatch 0
      else ingest_on_state_change env now site url (url_id_for r url) canonical_mismatch
          idx.user_canonical idx.google_canonical

  pub eval_signal2 : String → Action (Unit {0})
  unfolding canonicals
  eval_signal2 url = do status ← read (r.latest_url_index_status url); canonicals url status

  abbrev pub joined : Result Error (Unit {0}) → List Error → List Error
  joined (ok u) es = es
  joined (err e) es = e ∷ es

  -- The loop over the candidates: `done` says whether the context is done when a candidate's turn comes.
  pub eval_candidates : (String → Bool) → List String → World → List Error × World
  unfolding eval_signal1 eval_signal2
  eval_candidates done [] w = ([], w)
  eval_candidates done (url ∷ urls) w =
      let (r1, w1) = eval_signal1 url w in
      let (r2, w2) = eval_signal2 url w1 in
      let (later, w3) = eval_candidates done urls w2 in
      if done url then ([], w) else (joined r1 (joined r2 later), w3)

  pub evaluate : (String → Bool) → World → List Error × World
  unfolding eval_candidates
  evaluate done w = elim r.candidates [
    | err e ↦ (e ∷ [], w)
    | ok urls ↦ eval_candidates done urls w
  ]
