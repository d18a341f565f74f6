-- ===== src/Store/Issues/Keys.antt =====
-- The key (url_id, rule_id) of the issues table: what each statement does to the row of a key.
use rabbot_seo.Base.{
  ℕ, ◌≡◌, ◌≢◌, refl, String, false, Option, none, some, List, [], ◌∷◌, if◌then◌else◌, arith, eq_iff,
  Bool-cases, inl, inr,
}
use rabbot_seo.Model.{Issue, is_open_issue}
use rabbot_seo.Store.Issues.{
  has_key, find_issue, merged, inserted, upsert_row, closed, close_row, ignore_row, detail_or_empty,
}

-- No two rows share a key.
abbrev pub UniqueKeys : List Issue → Type 0
UniqueKeys [] = Unit
UniqueKeys (r ∷ rows) = (find_issue r.url_id r.rule_id rows ≡ none) × UniqueKeys rows

-- The row that an upsert leaves, given the one it finds.
abbrev pub upserted : ℕ → Issue → Option Issue → Issue
upserted i iss none = inserted i iss
upserted i iss (some r) = merged iss r

-- The row that a close leaves.
abbrev pub closed_if_open : ℕ → Option Issue → Option Issue
closed_if_open at none = none
closed_if_open at (some r) = some (if is_open_issue r.status then closed at r else r)

pub find_issue-upsert_row :
    (u i : ℕ) (x : String) (iss : Issue) (rows : List Issue)
    → find_issue u x (upsert_row i iss rows) ≡ (
        if has_key u x iss
        then some (upserted i iss (find_issue iss.url_id iss.rule_id rows))
        else find_issue u x rows)
unfolding find_issue upsert_row has_key detail_or_empty
find_issue-upsert_row u i x iss [] = ground (arith, eq_iff iss.rule_id x)
find_issue-upsert_row u i x iss (r ∷ rows) = ground (
  arith,
  find_issue-upsert_row u i x iss rows,
  eq_iff iss.rule_id x,
  eq_iff r.rule_id x,
  eq_iff r.rule_id iss.rule_id,
)

pub UniqueKeys-upsert_row :
    (i : ℕ) (iss : Issue) (rows : List Issue) → UniqueKeys rows → UniqueKeys (upsert_row i iss rows)
unfolding upsert_row has_key find_issue
UniqueKeys-upsert_row i iss [] v = (refl, tt)
UniqueKeys-upsert_row i iss (r ∷ rows) v = ground (
  arith,
  UniqueKeys-upsert_row i iss rows v.1,
  find_issue-upsert_row r.url_id i r.rule_id iss rows,
  eq_iff r.rule_id iss.rule_id,
  eq_iff iss.rule_id r.rule_id,
)

pub find_issue-close_self :
    (u at : ℕ) (x : String) (rows : List Issue)
    → find_issue u x (close_row u x at rows) ≡ closed_if_open at (find_issue u x rows)
unfolding find_issue close_row has_key
find_issue-close_self u at x [] = refl
find_issue-close_self u at x (r ∷ rows) = ground (arith, find_issue-close_self u at x rows)

pub find_issue-close_ne :
    (u v at : ℕ) (x y : String) (rows : List Issue)
    → y ≢ x
    → find_issue u x (close_row v y at rows) ≡ find_issue u x rows
unfolding find_issue close_row
find_issue-close_ne u v at x y [] h = refl
find_issue-close_ne u v at x y (r ∷ rows) h = elim (Bool-cases (has_key v y r)) [
  | inr other ↦ rw other (ground (arith, find_issue-close_ne u v at x y rows h))
  | inl hit ↦
      let miss : has_key u x r ≡ false =
        unfold has_key in ground (arith, eq_iff r.rule_id x, eq_iff r.rule_id y) in
      let closed_miss : has_key u x (closed at r) ≡ false = unfold has_key in miss in
      ground (arith, find_issue-close_ne u v at x y rows h)
]

pub find_issue-close_other :
    (u v at : ℕ) (x y : String) (rows : List Issue)
    → v ≢ u
    → find_issue u x (close_row v y at rows) ≡ find_issue u x rows
unfolding find_issue close_row
find_issue-close_other u v at x y [] h = refl
find_issue-close_other u v at x y (r ∷ rows) h = elim (Bool-cases (has_key v y r)) [
  | inr other ↦ rw other (ground (arith, find_issue-close_other u v at x y rows h))
  | inl hit ↦
      let miss : has_key u x r ≡ false = unfold has_key in ground arith in
      let closed_miss : has_key u x (closed at r) ≡ false = unfold has_key in miss in
      ground (arith, find_issue-close_other u v at x y rows h)
]

find_issue-close_none :
    (u v at : ℕ) (x y : String) (rows : List Issue)
    → find_issue u x rows ≡ none
    → find_issue u x (close_row v y at rows) ≡ none
unfolding find_issue close_row has_key
find_issue-close_none u v at x y [] h = refl
find_issue-close_none u v at x y (r ∷ rows) h =
    ground (arith, find_issue-close_none u v at x y rows)

pub UniqueKeys-close_row :
    (u at : ℕ) (x : String) (rows : List Issue)
    → UniqueKeys rows
    → UniqueKeys (close_row u x at rows)
unfolding close_row
UniqueKeys-close_row u at x [] v = tt
UniqueKeys-close_row u at x (r ∷ rows) v = ground (
  arith,
  UniqueKeys-close_row u at x rows v.1,
  find_issue-close_none r.url_id u at r.rule_id x rows,
)

find_issue-ignore_none :
    (u i : ℕ) (x : String) (rows : List Issue)
    → find_issue u x rows ≡ none
    → find_issue u x (ignore_row i rows) ≡ none
unfolding find_issue ignore_row has_key
find_issue-ignore_none u i x [] h = refl
find_issue-ignore_none u i x (r ∷ rows) h = ground (arith, find_issue-ignore_none u i x rows)

pub UniqueKeys-ignore_row :
    (i : ℕ) (rows : List Issue) → UniqueKeys rows → UniqueKeys (ignore_row i rows)
unfolding ignore_row
UniqueKeys-ignore_row i [] v = tt
UniqueKeys-ignore_row i (r ∷ rows) v =
    ground
      (arith, UniqueKeys-ignore_row i rows v.1, find_issue-ignore_none r.url_id i r.rule_id rows)
