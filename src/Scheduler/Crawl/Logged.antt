-- ===== src/Scheduler/Crawl/Logged.antt =====
-- What a crawl does between the fetch and the schedule leaves the log of schedule writes alone.
use rabbot_seo.Base.{
  ℕ, ◌≡◌, refl, ◌∙◌, String, Bool, false, not, ◌&&◌, ◌||◌, Option, none, some, List, [], ◌∷◌,
  str_eq, Bool-cases, inl, inr,
}
use rabbot_seo.Base.Result.{Result, err}
use rabbot_seo.Diff.{Snapshot}
use rabbot_seo.Scheduler.Crawl.{
  Url, Fetched, Latest, prior, no_prior, unread, ScheduleWrite, Crawler, process, run_hook,
  run_hooks, compare_with, store_and_compare, after_fetch, is_wired, is_ok,
}

-- A log of the schedule writes: the database's call adds to it, and no other call does.
pub record IsLog {W E : Type 0} (c : Crawler W E) (log : W → List ScheduleWrite) : Type 0 where
  pub allowed : (u : String) (w : W) → log (c.allowed u w).1 ≡ log w
  pub crawl_delay : (u : String) (w : W) → log (c.crawl_delay u w).1 ≡ log w
  pub set_min_interval : (h : String) (d : ℕ) (w : W) → log (c.set_min_interval h d w) ≡ log w
  pub acquire : (h : String) (w : W) → log (c.acquire h w).1 ≡ log w
  pub release : (h : String) (w : W) → log (c.release h w) ≡ log w
  pub report : (h : String) (t : ℕ) (b : Bool) (w : W) → log (c.report h t b w) ≡ log w
  pub fetch : (u e l : String) (w : W) → log (c.fetch u e l w).1 ≡ log w
  pub extract : (f : Fetched) (w : W) → log (c.extract f w).1 ≡ log w
  pub latest_snapshot : (i : ℕ) (w : W) → log (c.latest_snapshot i w).1 ≡ log w
  pub save_snapshot : (s : Snapshot) (w : W) → log (c.save_snapshot s w).1 ≡ log w
  pub has_site : (i : ℕ) (w : W) → log (c.has_site i w).1 ≡ log w
  pub processor :
      (p : Url → Snapshot → Snapshot → Fetched → W → (Bool × List E) × W)
      → c.processor ≡ some p
      → (u : Url) (new old : Snapshot) (f : Fetched) (w : W) → log (p u new old f w).1 ≡ log w
  pub discoverer :
      (h : Url → List String → W → Result E (Unit {0}) × W)
      → c.discoverer ≡ some h
      → (u : Url) (links : List String) (w : W) → log (h u links w).1 ≡ log w
  pub graph :
      (h : Url → List String → W → Result E (Unit {0}) × W)
      → c.graph ≡ some h
      → (u : Url) (links : List String) (w : W) → log (h u links w).1 ≡ log w
  pub update_url_schedule :
      (x : ScheduleWrite) (w : W) → log (c.update_url_schedule x w).1 ≡ x ∷ log w

-- Both outcomes of a call leave the log as it was.
both_outcomes :
    {W E A X : Type 0} (log : W → List ScheduleWrite) (before : List ScheduleWrite) (r : Result E A)
    (f : A → X × W) (g : E → X × W)
    → ((a : A) → log (f a).1 ≡ before)
    → ((e : E) → log (g e).1 ≡ before)
    → log (elim r as (λ _. X × W) [ Result.ok a ↦ f a | err e ↦ g e ]).1 ≡ before
both_outcomes log before (Result.ok a) f g h k = h a
both_outcomes log before (err e) f g h k = k e

module _ {W E : Type 0} (c : Crawler W E) (log : W → List ScheduleWrite) (v : IsLog c log)
    (u : Url) where
  process-log : (new old : Snapshot) (f : Fetched) (w : W) → log (process c u new old f w).1 ≡ log w
  unfolding process
  process-log new old f w = go c.processor refl
    where
      go :
          (o : Option (Url → Snapshot → Snapshot → Fetched → W → (Bool × List E) × W))
          → c.processor ≡ o
          → log
              (elim o as (λ _. (Bool × List E) × W) [
                | none ↦ ((false, []), w)
                | some p ↦
                    let (site, w1) = c.has_site u.site_id w in
                    let processed = p u new old f w1 in
                    elim site [ Result.ok x ↦ processed | err e ↦ ((false, e ∷ []), w1) ]
              ]).1
            ≡ log w
      go none h = refl
      go (some p) h =
          both_outcomes log (log w) (c.has_site u.site_id w).0
            (λ x. p u new old f (c.has_site u.site_id w).1)
            (λ e. ((false, e ∷ []), (c.has_site u.site_id w).1))
            (λ x. v.processor p h u new old f (c.has_site u.site_id w).1 ∙ v.has_site u.site_id w)
            (λ e. v.has_site u.site_id w)

  run_hook-log :
      (hook : Option (Url → List String → W → Result E (Unit {0}) × W))
      → ((h : Url → List String → W → Result E (Unit {0}) × W)
          → hook ≡ some h
          → (links : List String) (w : W) → log (h u links w).1 ≡ log w)
      → (links : List String) (es : List E) (w : W)
      → log (run_hook c u hook links (es, w)).1 ≡ log w
  unfolding run_hook
  run_hook-log none k links es w = refl
  run_hook-log (some h) k links es w = k h refl links w

  run_hooks-log :
      (links : List String) (es : List E) (w : W) → log (run_hooks c u links (es, w)).1 ≡ log w
  unfolding run_hooks
  run_hooks-log links es w = elim (Bool-cases (is_wired c.discoverer || is_wired c.graph)) [
    | inr unwired ↦ rw unwired refl
    | inl wired ↦
        let w1 = (c.has_site u.site_id w).1 in
        let found = run_hook c u c.discoverer links (es, w1) in
        rw wired (
          both_outcomes log (log w) (c.has_site u.site_id w).0
            (λ x. run_hook c u c.graph links found) (λ e. (es, w1))
            (λ x.
              run_hook-log c.graph (λ h q. v.graph h q u) links found.0 found.1
              ∙ run_hook-log c.discoverer (λ h q. v.discoverer h q u) links es w1
              ∙ v.has_site u.site_id w)
            (λ e. v.has_site u.site_id w))
  ]

  compare_with-log :
      (snap : Snapshot) (latest : Latest E) (links : List String) (f : Fetched) (w : W)
      → log (compare_with c u snap latest links f w).1 ≡ log w
  unfolding compare_with
  compare_with-log snap (unread e) links f w = refl
  compare_with-log snap no_prior links f w =
      let out = process c u snap _ f w in run_hooks-log links out.0.1 out.1 ∙ process-log snap _ f w
  compare_with-log snap (prior old) links f w =
      let out = process c u snap old f w in
      run_hooks-log links out.0.1 out.1 ∙ process-log snap old f w

  store_and_compare-log :
      (snap : Snapshot) (links : List String) (f : Fetched) (w : W)
      → log (store_and_compare c u snap links f w).1 ≡ log w
  unfolding store_and_compare
  store_and_compare-log snap links f w =
      let page = record snap { url_id = u.id } in
      let (latest, w1) = c.latest_snapshot u.id w in
      let w2 = (c.save_snapshot page w1).1 in
      let same = v.save_snapshot page w1 ∙ v.latest_snapshot u.id w in
      both_outcomes log (log w) (c.save_snapshot page w1).0
        (λ i. compare_with c u (record page { id = i }) latest links f w2)
        (λ e. ((false, e ∷ []), w2))
        (λ i. compare_with-log (record page { id = i }) latest links f w2 ∙ same) (λ e. same)

  pub after_fetch-log : (f : Fetched) (w : W) → log (after_fetch c u f w).1 ≡ log w
  unfolding after_fetch
  after_fetch-log f w =
      elim (Bool-cases (is_ok f.fetch_class && not f.not_modified && not (str_eq f.body ""))) [
        | inl whole ↦
            let w1 = (c.extract f w).1 in
            rw whole (
              both_outcomes log (log w) (c.extract f w).0 (λ x. store_and_compare c u x.0 x.1 f w1)
                (λ e. ((false, e ∷ []), w1))
                (λ x. store_and_compare-log x.0 x.1 f w1 ∙ v.extract f w) (λ e. v.extract f w))
        | inr partly ↦
            elim (Bool-cases
              (is_wired c.processor && (not (is_ok f.fetch_class) || f.not_modified))) [
                | inl gated ↦ rw (partly, gated) (process-log _ _ f w)
                | inr nothing ↦ rw (partly, nothing) refl
              ]
      ]
