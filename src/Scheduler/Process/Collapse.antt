-- ===== src/Scheduler/Process/Collapse.antt =====
-- One cause, one event: what a fetch does not send.
use rabbot_seo.Base.{
  ◌≡◌, ◌≢◌, refl, ◌∙◌, String, Bool, true, false, List, [], ◌==◌, ◌⊎◌, ◌<◌, ◌≤◌, arith, eq_iff, inl,
  inr,
}
use rabbot_seo.Diff.{Change, Snapshot, has_field}
use rabbot_seo.Rules.Bridge.{NewFinding}
use rabbot_seo.Scheduler.Process.{
  Page, Seams, Flags, flags_of, change_is_silent, finding_is_silent, is_triad, is_gone_field,
}
use rabbot_seo.Scheduler.Process.Select.{change_events, finding_events, add_types, emitted}
use rabbot_seo.Scheduler.Process.Emitted.{has_type, has_type-append, unsent_change, unsent_finding}

-- A type whose changes and findings are all silent is not sent.
unsent :
    (s : Seams) (page : Page) (new old : Snapshot) (changes : List Change)
    (findings : List NewFinding) (t : String)
    → ((c : Change) → c.field ≡ t → change_is_silent (flags_of changes new) c ≡ true)
    → ((types : List String) (f : NewFinding)
        → f.field ≡ t
        → finding_is_silent (flags_of changes new) changes (old.id == 0) types f ≡ true)
    → has_type t (emitted s page new old changes findings) ≡ false
unfolding emitted
unsent s page new old changes findings t quiet_c quiet_f =
    let fl = flags_of changes new in
    let first_loop = change_events s page new fl changes in
    has_type-append t first_loop
      (finding_events s page new fl changes (old.id == 0) (add_types first_loop []) findings)
    ∙ rw
        (
          unsent_change s page new fl t quiet_c changes,
          unsent_finding s page new fl changes (old.id == 0) t quiet_f (add_types first_loop [])
              findings,
        )
        refl

triad_is_silent :
    (fl : Flags) (t : String)
    → fl.indexable_flipped ≡ true
    → is_triad t ≡ true
    → ((c : Change) → c.field ≡ t → change_is_silent fl c ≡ true)
      × ((changes : List Change) (first : Bool) (types : List String) (f : NewFinding)
          → f.field ≡ t
          → finding_is_silent fl changes first types f ≡ true)
unfolding change_is_silent finding_is_silent
triad_is_silent fl t h m = (
  (λ c e. let at : is_triad c.field ≡ true = rw e m in rw (h, at) (ground arith)),
  (λ changes first types f e.
      let at : is_triad f.field ≡ true = rw e m in rw (h, at) (ground arith)),
)

gone_is_silent :
    (fl : Flags) (t : String)
    → fl.status_regressed ≡ true
    → is_gone_field t ≡ true
    → ((c : Change) → c.field ≡ t → change_is_silent fl c ≡ true)
      × ((changes : List Change) (first : Bool) (types : List String) (f : NewFinding)
          → f.field ≡ t
          → finding_is_silent fl changes first types f ≡ true)
unfolding change_is_silent finding_is_silent
gone_is_silent fl t h m = (
  (λ c e. let at : is_gone_field c.field ≡ true = rw e m in rw (h, at) (ground arith)),
  (λ changes first types f e.
      let at : is_gone_field f.field ≡ true = rw e m in rw (h, at) (ground arith)),
)

-- When a page's indexability flips, no event of its causes is sent beside it: not for meta_robots,
-- x_robots_tag or indexability_reason, neither from the change stream nor from a rule.
pub noindex_collapses :
    (s : Seams) (page : Page) (new old : Snapshot) (changes : List Change)
    (findings : List NewFinding) (t : String)
    → has_field "indexable" changes ≡ true
    → is_triad t ≡ true
    → has_type t (emitted s page new old changes findings) ≡ false
noindex_collapses s page new old changes findings t h m =
    let silent = triad_is_silent (flags_of changes new) t (unfold flags_of in h) m in
    unsent s page new old changes findings t silent.0 (silent.1 changes (old.id == 0))

-- When a page's status changes to an error (or below 200), no event for its indexability or its
-- canonical link is sent beside it.
pub status_collapses :
    (s : Seams) (page : Page) (new old : Snapshot) (changes : List Change)
    (findings : List NewFinding) (t : String)
    → has_field "http_status" changes ≡ true
    → (new.http_status < 200) ⊎ (400 ≤ new.http_status)
    → is_gone_field t ≡ true
    → has_type t (emitted s page new old changes findings) ≡ false
status_collapses s page new old changes findings t h gone m =
    let regressed : (flags_of changes new).status_regressed ≡ true =
      unfold flags_of in elim gone [ inl a ↦ ground arith | inr a ↦ ground arith ] in
    let silent = gone_is_silent (flags_of changes new) t regressed m in
    unsent s page new old changes findings t silent.0 (silent.1 changes (old.id == 0))

-- On the first crawl of a page, which has no changes, nothing is sent but an http_status finding.
pub first_crawl_quiet :
    (s : Seams) (page : Page) (new old : Snapshot) (findings : List NewFinding) (t : String)
    → old.id ≡ 0
    → t ≢ "http_status"
    → has_type t (emitted s page new old [] findings) ≡ false
unfolding emitted change_events finding_is_silent add_types
first_crawl_quiet s page new old findings t h ne =
    unsent_finding s page new (flags_of [] new) [] (old.id == 0) t
      (λ types f e. ground (arith, eq_iff f.field "http_status")) [] findings
