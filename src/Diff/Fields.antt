-- ===== src/Diff/Fields.antt =====
-- What a comparison reports: each field at most once, and exactly the fields that differ.
use mathlib.Core.Path.{subst}
use rabbot_seo.Base.{
  ℕ, ◌≡◌, refl, ◌∙◌, not, String, Bool, true, false, ◌&&◌, List, [], ◌∷◌, if◌then◌else◌, arith,
  str_eq, eq_iff, ◌==◌, Option, none, some, Bool-cases, inl, inr,
}
use rabbot_seo.Diff.{
  Snapshot, Change, itoa, format_bool, bool_eq, has_field, Comparison, is_baseline, comparisons,
  add_changes, compare,
}

-- No two changes are of one field.
abbrev pub DistinctFields : List Change → Type 0
DistinctFields [] = Unit
DistinctFields (c ∷ cs) = (has_field c.field cs ≡ false) × DistinctFields cs

abbrev pub compares : String → List Comparison → Bool
compares f [] = false
compares f ((same, c) ∷ cs) = if str_eq c.field f then true else compares f cs

-- Whether the comparison of a field found two values.
abbrev pub differs : String → List Comparison → Bool
differs f [] = false
differs f ((same, c) ∷ cs) = if str_eq c.field f && not same then true else differs f cs

abbrev pub no_repeats : List Comparison → Bool
no_repeats [] = true
no_repeats ((same, c) ∷ cs) = not (compares c.field cs) && no_repeats cs

has_field-add_changes :
    (f : String) (cs : List Comparison) → has_field f (add_changes cs) ≡ differs f cs
unfolding add_changes
has_field-add_changes f [] = refl
has_field-add_changes f ((same, c) ∷ cs) = ground (arith, has_field-add_changes f cs)

differs-compares :
    (f : String) (cs : List Comparison) → compares f cs ≡ false → differs f cs ≡ false
differs-compares f [] h = refl
differs-compares f ((same, c) ∷ cs) h = ground (arith, differs-compares f cs)

add_changes-DistinctFields :
    (cs : List Comparison) → no_repeats cs ≡ true → DistinctFields (add_changes cs)
unfolding add_changes
add_changes-DistinctFields [] h = tt
add_changes-DistinctFields ((true, c) ∷ cs) h = add_changes-DistinctFields cs (ground arith)
add_changes-DistinctFields ((false, c) ∷ cs) h = (
  has_field-add_changes c.field cs ∙ differs-compares c.field cs (ground arith),
  add_changes-DistinctFields cs (ground arith),
)

-- A comparison of two snapshots reports no field twice.
pub compare-DistinctFields :
    (new old : Snapshot) (threshold now : ℕ) → DistinctFields (compare new old threshold now)
unfolding compare
compare-DistinctFields new old threshold now =
    elim (Bool-cases (is_baseline old)) as (λ _. DistinctFields (compare new old threshold now)) [
      | inl first ↦ rw first tt
      | inr later ↦ rw later (
          add_changes-DistinctFields (comparisons new old threshold now)
            (unfold comparisons in refl))
    ]

-- The value that a snapshot has in a field.
pub data Value : Type 0 where
  text : String → Value
  count : ℕ → Value
  flag : Bool → Value

abbrev pub same_value : Value → Value → Bool
same_value (text a) (text b) = str_eq a b
same_value (count a) (count b) = a == b
same_value (flag true) (flag b) = b
same_value (flag false) (flag b) = not b
same_value _ _ = false

abbrev pub shown : Value → String
shown (text a) = a
shown (count n) = itoa n
shown (flag b) = format_bool b

-- The fields that are watched, by name, with the column that each one is.
abbrev pub Column : Type 0
Column = String × (Snapshot → Value)

abbrev pub watched : List Column
watched =
    ("title", λ s. text s.title)
    ∷ ("meta_description", λ s. text s.meta_description)
    ∷ ("meta_robots", λ s. text s.meta_robots)
    ∷ ("x_robots_tag", λ s. text s.x_robots_tag)
    ∷ ("canonical", λ s. text s.canonical)
    ∷ ("hreflang", λ s. text s.hreflang)
    ∷ ("headings", λ s. text s.headings)
    ∷ ("schema_types", λ s. text s.schema_types)
    ∷ ("indexability_reason", λ s. text s.indexability_reason)
    ∷ ("redirect_chain", λ s. text s.redirect_chain)
    ∷ ("render_mode", λ s. text s.render_mode)
    ∷ ("indexable", λ s. flag s.indexable)
    ∷ ("http_status", λ s. count s.http_status)
    ∷ ("internal_link_count", λ s. count s.internal_link_count)
    ∷ ("word_count", λ s. count s.word_count)
    ∷ ("image_count", λ s. count s.image_count)
    ∷ ("missing_alt_count", λ s. count s.missing_alt_count)
    ∷ ("external_link_count", λ s. count s.external_link_count)
    ∷ ("content", λ s. text s.content_sha256)
    ∷ []

-- The two values of a change.
abbrev pub Values : Type 0
Values = String × String

abbrev values_if : Bool → Values → Option Values
values_if true v = none
values_if false v = some v

-- What is due for a field: its two values, if it is watched and they are not the same.
abbrev pub due : String → Snapshot → Snapshot → List Column → Option Values
due f old new [] = none
due f old new ((name, read) ∷ columns) =
    if str_eq name f
    then values_if (same_value (read old) (read new)) (shown (read old), shown (read new))
    else due f old new columns

-- The values of the first change of a field.
abbrev pub values_of : String → List Change → Option Values
values_of f [] = none
values_of f (c ∷ cs) = if str_eq c.field f then some (c.old_value, c.new_value) else values_of f cs

abbrev first_of : String → List Comparison → Option Values
first_of f [] = none
first_of f ((same, c) ∷ cs) =
    if str_eq c.field f then values_if same (c.old_value, c.new_value) else first_of f cs

values_of-absent :
    (f : String) (cs : List Comparison)
    → compares f cs ≡ false
    → values_of f (add_changes cs) ≡ none
unfolding add_changes
values_of-absent f [] h = refl
values_of-absent f ((true, c) ∷ cs) h = values_of-absent f cs (ground arith)
values_of-absent f ((false, c) ∷ cs) h = ground (arith, values_of-absent f cs)

values_of-add_changes :
    (f : String) (cs : List Comparison)
    → no_repeats cs ≡ true
    → values_of f (add_changes cs) ≡ first_of f cs
unfolding add_changes
values_of-add_changes f [] h = refl
values_of-add_changes f ((true, c) ∷ cs) h = elim (Bool-cases (str_eq c.field f)) [
  | inl here ↦ rw here (
      values_of-absent f cs
        (subst (λ x. compares x cs ≡ false) ((eq_iff c.field f).0 here) (ground arith)))
  | inr there ↦ rw there (values_of-add_changes f cs (ground arith))
]
values_of-add_changes f ((false, c) ∷ cs) h = elim (Bool-cases (str_eq c.field f)) [
  | inl here ↦ rw here refl
  | inr there ↦ rw there (values_of-add_changes f cs (ground arith))
]

same_flag :
    (a b : Bool) (v : Values)
    → values_if (bool_eq a b) v ≡ values_if (same_value (flag a) (flag b)) v
same_flag true b v = refl
same_flag false true v = refl
same_flag false false v = refl

first_of-due :
    (f : String) (new old : Snapshot) (threshold now : ℕ)
    → first_of f (comparisons new old threshold now) ≡ due f old new watched
unfolding comparisons
first_of-due f new old threshold now =
    rw
      (same_flag old.indexable new.indexable (format_bool old.indexable, format_bool new.indexable))
      refl

-- A comparison with a snapshot that stands for none (no id and no hash of the content) reports nothing. With any other
-- one it reports of each watched column of the table, under its name, exactly whether the two snapshots have
-- different values in it, and these two values, the old one first; of no other name it reports anything.
pub compare-due :
    (new old : Snapshot) (threshold now : ℕ) (f : String)
    → values_of f (compare new old threshold now)
      ≡ (if (old.id == 0) && str_eq old.content_sha256 "" then none else due f old new watched)
unfolding compare is_baseline
compare-due new old threshold now f =
    elim (Bool-cases ((old.id == 0) && str_eq old.content_sha256 "")) [
      | inl first ↦ rw first refl
      | inr later ↦ rw later (
          values_of-add_changes f (comparisons new old threshold now) (unfold comparisons in refl)
          ∙ first_of-due f new old threshold now)
    ]
