-- ===== src/Scheduler/Process/Emitted.antt =====
-- What the events of one fetch are: no type twice, one event for one cause, and few on a first crawl.
use mathlib.Core.Path.{subst}
use rabbot_seo.Base.{
  ◌≡◌, refl, sym, ◌∙◌, String, Bool, true, false, ◌||◌, List, [], ◌∷◌, ◌++◌, ◌==◌, if◌then◌else◌,
  arith, str_eq, eq_iff, eq_refl, contains_string, Bool-cases, inl, inr,
}
use rabbot_seo.Diff.{Change, Snapshot, has_field}
use rabbot_seo.Diff.Fields.{DistinctFields}
use rabbot_seo.Alerts.Event.{Event}
use rabbot_seo.Rules.Bridge.{NewFinding}
use rabbot_seo.Scheduler.Process.{Page, Seams, Flags, flags_of, change_is_silent, finding_is_silent}
use rabbot_seo.Scheduler.Process.Select.{change_events, finding_events, add_types, emitted}

abbrev pub has_type : String → List Event → Bool
has_type t [] = false
has_type t (e ∷ es) = if str_eq e.change_type t then true else has_type t es

-- No two events are of one type.
abbrev pub DistinctTypes : List Event → Type 0
DistinctTypes [] = Unit
DistinctTypes (e ∷ es) = (has_type e.change_type es ≡ false) × DistinctTypes es

pub has_type-append :
    (t : String) (xs ys : List Event) → has_type t (xs ++ ys) ≡ (has_type t xs || has_type t ys)
has_type-append t [] ys = refl
has_type-append t (x ∷ xs) ys = ground (arith, has_type-append t xs ys)

contains-add_types :
    (t : String) (es : List Event) (types : List String)
    → contains_string (add_types es types) t ≡ (has_type t es || contains_string types t)
unfolding add_types contains_string
contains-add_types t [] types = refl
contains-add_types t (e ∷ es) types =
    ground (arith, contains-add_types t es (e.change_type ∷ types))

DistinctTypes-append :
    (xs ys : List Event)
    → DistinctTypes xs
    → DistinctTypes ys
    → ((t : String) → has_type t xs ≡ true → has_type t ys ≡ false)
    → DistinctTypes (xs ++ ys)
DistinctTypes-append [] ys a b c = b
DistinctTypes-append (x ∷ xs) ys (h, a) b c = (
  has_type-append x.change_type xs ys ∙ ground (arith, h, c x.change_type, eq_refl x.change_type),
  DistinctTypes-append xs ys a b (λ t e. c t (ground (arith, e))),
)

module _ (s : Seams) (page : Page) (new : Snapshot) (fl : Flags) where
  -- Only a change that is not silent has an event.
  has_type-change_events :
      (t : String) (cs : List Change)
      → has_type t (change_events s page new fl cs) ≡ true
      → has_field t cs ≡ true
  unfolding change_events
  has_type-change_events t [] h = h
  has_type-change_events t (c ∷ cs) h = ground (arith, has_type-change_events t cs)

  change_events-DistinctTypes :
      (cs : List Change) → DistinctFields cs → DistinctTypes (change_events s page new fl cs)
  unfolding change_events
  change_events-DistinctTypes [] d = tt
  change_events-DistinctTypes (c ∷ cs) (h, d) =
      ground (arith, change_events-DistinctTypes cs d, has_type-change_events c.field cs)

  known_is_silent :
      (changes : List Change) (first : Bool) (types : List String) (f : NewFinding)
      → contains_string types f.field ≡ true
      → finding_is_silent fl changes first types f ≡ true
  unfolding finding_is_silent
  known_is_silent changes first types f h = rw h (ground arith)

  differs :
      (changes : List Change) (first : Bool) (types : List String) (f : NewFinding) (t : String)
      → contains_string types t ≡ true
      → finding_is_silent fl changes first types f ≡ false
      → str_eq f.field t ≡ false
  differs changes first types f t h sends = elim (Bool-cases (str_eq f.field t)) [
    | inr other ↦ other
    | inl same ↦
        let at = (eq_iff f.field t).0 same in
        let known = subst (λ x. contains_string types x ≡ true) (sym at) h in
        cc (known_is_silent changes first types f known, sends)
  ]

  finding_events-fresh :
      (changes : List Change) (first : Bool) (types : List String) (fs : List NewFinding)
      (t : String)
      → contains_string types t ≡ true
      → has_type t (finding_events s page new fl changes first types fs) ≡ false
  unfolding finding_events contains_string
  finding_events-fresh changes first types [] t h = refl
  finding_events-fresh changes first types (f ∷ fs) t h =
      elim (Bool-cases (finding_is_silent fl changes first types f)) [
        | inl skip ↦ rw skip (finding_events-fresh changes first types fs t h)
        | inr sends ↦
            let other : str_eq f.field t ≡ false = differs changes first types f t h sends in
            rw (sends, other)
              (finding_events-fresh changes first (f.field ∷ types) fs t (rw (other, h) refl))
      ]

  finding_events-DistinctTypes :
      (changes : List Change) (first : Bool) (types : List String) (fs : List NewFinding)
      → DistinctTypes (finding_events s page new fl changes first types fs)
  unfolding finding_events contains_string
  finding_events-DistinctTypes changes first types [] = tt
  finding_events-DistinctTypes changes first types (f ∷ fs) =
      elim (Bool-cases (finding_is_silent fl changes first types f))
        as (λ _. DistinctTypes (finding_events s page new fl changes first types (f ∷ fs))) [
          | inl skip ↦ rw skip (finding_events-DistinctTypes changes first types fs)
          | inr sends ↦ rw sends (
            finding_events-fresh changes first (f.field ∷ types) fs f.field
                (ground (arith, eq_refl f.field)),
            finding_events-DistinctTypes changes first (f.field ∷ types) fs,
          )
        ]

  pub unsent_change :
      (t : String)
      → ((c : Change) → c.field ≡ t → change_is_silent fl c ≡ true)
      → (cs : List Change) → has_type t (change_events s page new fl cs) ≡ false
  unfolding change_events
  unsent_change t quiet [] = refl
  unsent_change t quiet (c ∷ cs) =
      ground (arith, unsent_change t quiet cs, quiet c, eq_iff c.field t)

  pub unsent_finding :
      (changes : List Change) (first : Bool) (t : String)
      → ((types : List String) (f : NewFinding)
          → f.field ≡ t
          → finding_is_silent fl changes first types f ≡ true)
      → (types : List String) (fs : List NewFinding)
      → has_type t (finding_events s page new fl changes first types fs) ≡ false
  unfolding finding_events
  unsent_finding changes first t quiet types [] = refl
  unsent_finding changes first t quiet types (f ∷ fs) = ground (
    arith,
    unsent_finding changes first t quiet types fs,
    unsent_finding changes first t quiet (f.field ∷ types) fs,
    quiet types f,
    eq_iff f.field t,
  )

-- A fetch sends no two events of one type, if its change set has no field twice: what trips both a
-- rule and the change stream, or two rules, alerts once.
pub emitted-DistinctTypes :
    (s : Seams) (page : Page) (new old : Snapshot) (changes : List Change)
    (findings : List NewFinding)
    → DistinctFields changes
    → DistinctTypes (emitted s page new old changes findings)
unfolding emitted
emitted-DistinctTypes s page new old changes findings d =
    let fl = flags_of changes new in
    let first_loop = change_events s page new fl changes in
    DistinctTypes-append first_loop _ (change_events-DistinctTypes s page new fl changes d)
      (finding_events-DistinctTypes s page new fl changes (old.id == 0) (add_types first_loop [])
        findings)
      (λ t h.
        finding_events-fresh s page new fl changes (old.id == 0) (add_types first_loop []) findings
          t (contains-add_types t first_loop [] ∙ ground (arith, h)))
