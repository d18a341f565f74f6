-- ===== src/Scheduler/GscSignals/Ticks.antt =====
-- A daily evaluation of a site, and the next one.
use mathlib.Core.Path.{subst}
use rabbot_seo.Base.{
  ℕ, ◌≡◌, ◌≢◌, refl, ◌∙◌, ap, String, Bool, true, false, not, Option, none, some, List, [], ◌∷◌,
  if◌then◌else◌, str_eq, eq_iff, eq_refl, arith, Bool-cases, inl, inr, contains_string, Distinct,
  All,
}
use rabbot_seo.Base.Result.{ok}
use rabbot_seo.Alerts.Pipeline.{Env}
use rabbot_seo.Alerts.Calls.{World}
use rabbot_seo.Alerts.Pipeline.Tables.{affected}
use rabbot_seo.Scheduler.GscSignals.States.{IndexStatus, gsc_indexed}
use rabbot_seo.Scheduler.GscSignals.{
  Reader, Site, Judged, index_discrepancy, canonical_mismatch, inspection_too_stale, eval_signal1,
  eval_signal2, eval_candidates, evaluate,
}
use rabbot_seo.Scheduler.GscSignals.Decisions.{
  says, act, decide1, decide2, eval_signal1-act, eval_signal2-act,
}
use rabbot_seo.Scheduler.GscSignals.Membership.{IsCalm, marked, incident_of, act-Effect}

marked-url :
    (k url : String) (word : Option Bool) (k' u : String) (old : Bool)
    → str_eq url u ≡ false
    → marked k url word k' u old ≡ old
marked-url k url none k' u old h = refl
marked-url k url (some b) k' u old h = ground arith

marked-key :
    (k url : String) (word : Option Bool) (k' u : String) (old : Bool)
    → str_eq k k' ≡ false
    → marked k url word k' u old ≡ old
marked-key k url none k' u old h = refl
marked-key k url (some b) k' u old h = rw h refl

-- The word on a page, or what was known of it.
abbrev pub or_known : Option Bool → Bool → Bool
or_known none old = old
or_known (some b) old = b

pub marked_self :
    (k url : String) (word : Option Bool) (old : Bool)
    → marked k url word k url old ≡ or_known word old
marked_self k url none old = refl
marked_self k url (some b) old = rw (eq_refl k, eq_refl url) refl

-- The words on a page under two identities, in turn, from each candidate before the context is done.
module _ (k1 k2 : String) (word1 word2 : String → Option Bool) (done : String → Bool) where
  abbrev pub heard : List String → String → String → Bool → Bool
  heard [] k u old = old
  heard (url ∷ urls) k u old =
      let both = marked k2 url (word2 url) k u (marked k1 url (word1 url) k u old) in
      let rest = heard urls k u both in if done url then old else rest

  -- A page that is no candidate hears nothing.
  heard-other :
      (urls : List String) (k u : String) (old : Bool)
      → contains_string urls u ≡ false
      → heard urls k u old ≡ old
  unfolding contains_string
  heard-other [] k u old h = refl
  heard-other (url ∷ urls) k u old h = elim (Bool-cases (done url)) [
    | inl stop ↦ rw stop refl
    | inr go ↦
        let apart : str_eq url u ≡ false = ground arith in
        let first = marked k1 url (word1 url) k u old in
        rw go (
          heard-other urls k u (marked k2 url (word2 url) k u first) (ground arith)
          ∙ marked-url k2 url (word2 url) k u first apart
          ∙ marked-url k1 url (word1 url) k u old apart)
  ]

  heard-page :
      (urls : List String) (u : String) (old : Bool)
      → str_eq k2 k1 ≡ false
      → ((x : String) → done x ≡ false)
      → Distinct urls
      → contains_string urls u ≡ true
      → heard urls k1 u old ≡ or_known (word1 u) old
  unfolding contains_string
  heard-page [] u old ne go d h = cc
  heard-page (url ∷ urls) u old ne go d h =
      let first = marked k1 url (word1 url) k1 u old in
      let second = marked-key k2 url (word2 url) k1 u first ne in
      elim (Bool-cases (str_eq url u)) [
        | inl same ↦
            subst (λ x. heard (url ∷ urls) k1 x old ≡ or_known (word1 x) old)
              ((eq_iff url u).0 same)
              (rw go (
                heard-other urls k1 url
                  (marked k2 url (word2 url) k1 url (marked k1 url (word1 url) k1 url old)) d.0
                ∙ marked-key k2 url (word2 url) k1 url (marked k1 url (word1 url) k1 url old) ne
                ∙ marked_self k1 url (word1 url) old))
        | inr other ↦ rw go (
            heard-page urls u (marked k2 url (word2 url) k1 u first) ne go d.1 (ground arith)
            ∙ ap (or_known (word1 u)) (second ∙ marked-url k1 url (word1 url) k1 u old other))
      ]

module _ (r : Reader) (env : Env) (now : ℕ) (site : Site) where
  abbrev pub incident1 : String
  incident1 = incident_of env site index_discrepancy

  abbrev pub incident2 : String
  incident2 = incident_of env site canonical_mismatch

  abbrev pub heard_in : (String → Bool) → List String → String → String → Bool → Bool
  heard_in =
      heard incident1 incident2 (λ url. says (decide1 r now url)) (λ url. says (decide2 r url))

  signals-Effect :
      (url : String) (w : World)
      → IsCalm w
      → url ≢ ""
      → let w2 = (eval_signal2 r env now site url (eval_signal1 r env now site url w).1).1 in
        IsCalm w2
        × ((k u : String)
            → affected k u w2.db
              ≡ marked incident2 url
                  (says (decide2 r url))
                  k
                  u
                  (marked incident1 url (says (decide1 r now url)) k u (affected k u w.db)))
  signals-Effect url w c ne =
      let w1 = (act env now site url index_discrepancy (decide1 r now url) w).1 in
      let (c1, a1) = act-Effect env now site url index_discrepancy (decide1 r now url) w c ne in
      let (c2, a2) = act-Effect env now site url canonical_mismatch (decide2 r url) w1 c1 ne in
      rw (eval_signal1-act env now site url r w, eval_signal2-act env now site url r w1)
        (c2, (λ k u. a2 k u ∙ ap (marked incident2 url (says (decide2 r url)) k u) (a1 k u)))

  -- In a quiet world, from well-formed tables and for candidates with URLs, the loop leaves of each pair
  -- what the candidates' decisions say of it.
  pub eval_candidates-heard :
      (done : String → Bool) (urls : List String) (w : World)
      → IsCalm w
      → All (λ url. url ≢ "") urls
      → (k u : String)
      → affected k u (eval_candidates r env now site done urls w).1.db
        ≡ heard_in done urls k u (affected k u w.db)
  unfolding eval_candidates
  eval_candidates-heard done [] w c ne k u = refl
  eval_candidates-heard done (url ∷ urls) w c ne k u = elim (Bool-cases (done url)) [
    | inl stop ↦ rw stop refl
    | inr go ↦
        let w2 = (eval_signal2 r env now site url (eval_signal1 r env now site url w).1).1 in
        let (c2, a2) = signals-Effect url w c ne.0 in
        rw go
          (eval_candidates-heard done urls w2 c2 ne.1 k u ∙ ap (heard_in done urls k u) (a2 k u))
  ]

  -- Whatever Google and the crawler say, the page's membership is what the decision says of it.
  page_settles :
      (done : String → Bool) (urls : List String) (u : String) (w : World)
      → IsCalm w
      → r.candidates ≡ ok urls
      → All (λ url. url ≢ "") urls
      → Distinct urls
      → contains_string urls u ≡ true
      → str_eq incident2 incident1 ≡ false
      → ((x : String) → done x ≡ false)
      → affected incident1 u (evaluate r env now site done w).1.db
        ≡ or_known (says (decide1 r now u)) (affected incident1 u w.db)
  unfolding evaluate
  page_settles done urls u w c cands ne d h apart go = rw cands (
      eval_candidates-heard done urls w c ne incident1 u
      ∙ heard-page incident1 incident2 (λ url. says (decide1 r now url))
          (λ url. says (decide2 r url)) done urls u (affected incident1 u w.db) apart go d h)

-- The two verdicts differ.
abbrev pub differ : Bool → Bool → Bool
differ true g = not g
differ false g = g

says-decide1 :
    (r : Reader) (now : ℕ) (u : String) (idx : IndexStatus) (g : Bool) (id : ℕ) (v : Judged)
    → r.latest_url_index_status u ≡ ok (some idx)
    → gsc_indexed idx ≡ some g
    → r.get_url u ≡ ok (some id)
    → r.latest_snapshot id ≡ ok (some v)
    → inspection_too_stale idx.inspected_at v.fetched_at now ≡ false
    → says (decide1 r now u) ≡ some (differ v.indexable g)
says-decide1 r now u idx g id v a b c d e = rw (a, b, c, d) (ground arith)

-- In a quiet world, from well-formed tables, for distinct candidates with URLs that all get their turn, and
-- where the two signals of the site have different incidents: after an evaluation, the open incident of the
-- index discrepancy holds a candidate exactly if the crawler and Google disagree on it. So it is for each
-- candidate of which Google's state is known and was inspected lately enough, and that was crawled.
pub discrepancy_followed :
    (r : Reader) (env : Env) (now : ℕ) (site : Site) (done : String → Bool) (urls : List String)
    (u : String) (w : World) (idx : IndexStatus) (g : Bool) (id : ℕ) (v : Judged)
    → IsCalm w
    → r.candidates ≡ ok urls
    → All (λ url. url ≢ "") urls
    → Distinct urls
    → contains_string urls u ≡ true
    → str_eq (incident_of env site canonical_mismatch) (incident_of env site index_discrepancy)
      ≡ false
    → ((x : String) → done x ≡ false)
    → r.latest_url_index_status u ≡ ok (some idx)
    → gsc_indexed idx ≡ some g
    → r.get_url u ≡ ok (some id)
    → r.latest_snapshot id ≡ ok (some v)
    → inspection_too_stale idx.inspected_at v.fetched_at now ≡ false
    → affected (incident_of env site index_discrepancy) u (evaluate r env now site done w).1.db
      ≡ differ v.indexable g
discrepancy_followed r env now site done urls u w idx g id v c cands ne d h apart go p q x y z =
    page_settles r env now site done urls u w c cands ne d h apart go
    ∙ ap (λ o. or_known o (affected (incident_of env site index_discrepancy) u w.db))
        (says-decide1 r now u idx g id v p q x y z)
