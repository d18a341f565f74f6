-- ===== src/Scheduler/GscSignals/Decisions.antt =====
-- What a signal decides of a page, apart from what it does about it.
use rabbot_seo.Base.{
  ℕ, ◌≡◌, refl, String, Bool, true, false, not, ◌&&◌, ◌||◌, Option, none, some, ◌<>◌, if◌then◌else◌,
  str_eq, arith,
}
use rabbot_seo.Base.Result.{Result, ok, err}
use rabbot_seo.Alerts.Pipeline.{Env}
use rabbot_seo.Alerts.Calls.{Error, World, Action, continue, ◌>>=◌, pure}
use rabbot_seo.Scheduler.GscSignals.States.{IndexStatus, gsc_indexed, google_state_label}
use rabbot_seo.Scheduler.GscSignals.{
  Reader, Site, Judged, index_discrepancy, canonical_mismatch, inspection_too_stale, suppressed,
  ingest_on_state_change, resolve_signal, resolve_if_open, compare_verdicts, with_snapshot,
  with_url, with_google, with_status, canonicals, eval_signal1, eval_signal2, url_id_for,
}

pub data Decision : Type 0 where
  skips clears_if_open : Decision
  fails : Error → Decision
  fires : ℕ → String → String → Decision
  clears : ℕ → Decision

-- What the decision makes of a page's membership: nothing, in or out.
abbrev pub says : Decision → Option Bool
says skips = none
says clears_if_open = some false
says (fails e) = none
says (fires id before after) = some true
says (clears id) = some false

-- The decision on two readable verdicts, the crawler's and Google's.
abbrev pub on_verdicts : ℕ → IndexStatus → Bool → ℕ → Judged → Decision
on_verdicts now idx indexed id v =
    let late = inspection_too_stale idx.inspected_at v.fetched_at now in
    if v.indexable && not indexed
    then (if late
        then skips
        else fires id "indexable" ("Rabbot says indexable; Google: " <> google_state_label idx))
    else if not v.indexable && indexed
    then (if late
        then skips
        else fires id (suppressed v) ("Rabbot says " <> suppressed v <> "; Google indexed it"))
    else clears id

abbrev pub on_snapshot : ℕ → IndexStatus → Bool → ℕ → Result Error (Option Judged) → Decision
on_snapshot now idx indexed id (err e) = fails e
on_snapshot now idx indexed id (ok none) = skips
on_snapshot now idx indexed id (ok (some v)) = on_verdicts now idx indexed id v

abbrev pub on_url : Reader → ℕ → IndexStatus → Bool → Result Error (Option ℕ) → Decision
on_url r now idx indexed (err e) = fails e
on_url r now idx indexed (ok none) = skips
on_url r now idx indexed (ok (some id)) = on_snapshot now idx indexed id (r.latest_snapshot id)

abbrev pub on_google : Reader → ℕ → String → IndexStatus → Option Bool → Decision
on_google r now url idx none = clears 0
on_google r now url idx (some indexed) = on_url r now idx indexed (r.get_url url)

abbrev pub on_status : Reader → ℕ → String → Result Error (Option IndexStatus) → Decision
on_status r now url (err e) = fails e
on_status r now url (ok none) = skips
on_status r now url (ok (some idx)) = on_google r now url idx (gsc_indexed idx)

abbrev pub decide1 : Reader → ℕ → String → Decision
decide1 r now url = on_status r now url (r.latest_url_index_status url)

abbrev on_canonicals : Reader → String → Result Error (Option IndexStatus) → Decision
on_canonicals r url (err e) = fails e
on_canonicals r url (ok none) = skips
on_canonicals r url (ok (some idx)) =
    if str_eq idx.user_canonical "" || str_eq idx.google_canonical ""
    then clears_if_open
    else if str_eq (r.canonical_key idx.user_canonical) (r.canonical_key idx.google_canonical)
    then clears 0
    else fires (url_id_for r url) idx.user_canonical idx.google_canonical

abbrev pub decide2 : Reader → String → Decision
decide2 r url = on_canonicals r url (r.latest_url_index_status url)

module _ (env : Env) (now : ℕ) (site : Site) (url : String) where
  abbrev pub act : String → Decision → Action (Unit {0})
  act t skips w = (ok tt, w)
  act t clears_if_open w = resolve_if_open env now site url t w
  act t (fails e) w = (err e, w)
  act t (fires id before after) w = ingest_on_state_change env now site url id t before after w
  act t (clears id) w = resolve_signal env now site url t id w

  compare-act :
      (idx : IndexStatus) (g : Bool) (id : ℕ) (v : Judged) (w : World)
      → compare_verdicts env now site url idx g id v w
        ≡ act index_discrepancy (on_verdicts now idx g id v) w
  unfolding compare_verdicts pure
  compare-act idx g id v w = ground arith

  snapshot-act :
      (idx : IndexStatus) (g : Bool) (id : ℕ) (res : Result Error (Option Judged)) (w : World)
      → continue res (with_snapshot env now site url idx g id) w
        ≡ act index_discrepancy (on_snapshot now idx g id res) w
  unfolding with_snapshot pure
  snapshot-act idx g id (err e) w = refl
  snapshot-act idx g id (ok none) w = refl
  snapshot-act idx g id (ok (some v)) w = compare-act idx g id v w

  module _ (r : Reader) where
    url-act :
        (idx : IndexStatus) (g : Bool) (res : Result Error (Option ℕ)) (w : World)
        → continue res (with_url r env now site url idx g) w
          ≡ act index_discrepancy (on_url r now idx g res) w
    unfolding with_url pure ◌>>=◌
    url-act idx g (err e) w = refl
    url-act idx g (ok none) w = refl
    url-act idx g (ok (some id)) w = snapshot-act idx g id (r.latest_snapshot id) w

    google-act :
        (idx : IndexStatus) (o : Option Bool) (w : World)
        → with_google r env now site url idx o w
          ≡ act index_discrepancy (on_google r now url idx o) w
    unfolding with_google ◌>>=◌
    google-act idx none w = refl
    google-act idx (some g) w = url-act idx g (r.get_url url) w

    status-act :
        (res : Result Error (Option IndexStatus)) (w : World)
        → continue res (with_status r env now site url) w
          ≡ act index_discrepancy (on_status r now url res) w
    unfolding with_status pure
    status-act (err e) w = refl
    status-act (ok none) w = refl
    status-act (ok (some idx)) w = google-act idx (gsc_indexed idx) w

    pub eval_signal1-act :
        (w : World)
        → eval_signal1 r env now site url w ≡ act index_discrepancy (decide1 r now url) w
    unfolding eval_signal1 ◌>>=◌
    eval_signal1-act w = status-act (r.latest_url_index_status url) w

    canonicals-act :
        (res : Result Error (Option IndexStatus)) (w : World)
        → continue res (canonicals r env now site url) w
          ≡ act canonical_mismatch (on_canonicals r url res) w
    unfolding canonicals pure
    canonicals-act (err e) w = refl
    canonicals-act (ok none) w = refl
    canonicals-act (ok (some idx)) w = ground arith

    pub eval_signal2-act :
        (w : World) → eval_signal2 r env now site url w ≡ act canonical_mismatch (decide2 r url) w
    unfolding eval_signal2 ◌>>=◌
    eval_signal2-act w = canonicals-act (r.latest_url_index_status url) w
