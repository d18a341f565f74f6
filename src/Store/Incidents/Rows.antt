-- ===== src/Store/Incidents/Rows.antt =====
-- The alerts table keeps one open row for each fingerprint, and ids that never repeat.
use rabbot_seo.Base.{
  ℕ, suc, ◌≤◌, ◌<◌, ◌≡◌, ◌≢◌, refl, String, Bool, true, Option, none, some, List, [], ◌∷◌,
  if◌then◌else◌, arith, eq_iff, Bool-cases, Option-cases, inl, inr,
}
use rabbot_seo.Model.{Alert, is_open}
use rabbot_seo.Store.Incidents.{Db, open_with, find_open, update_row, closed}

-- Ids fall along the table and stay below the next one.
abbrev pub Below : ℕ → List Alert → Type 0
Below n [] = Unit
Below n (a ∷ rows) = (a.id < n) × Below a.id rows

-- No open row has another open row of its fingerprint behind it.
abbrev pub OpenUnique : List Alert → Type 0
OpenUnique [] = Unit
OpenUnique (a ∷ rows) =
    (is_open a.status ≡ true → find_open a.fingerprint rows ≡ none) × OpenUnique rows

-- No member row belongs to an incident that is yet to be opened.
abbrev pub MembersBelow : ℕ → List (ℕ × String) → Type 0
MembersBelow n [] = Unit
MembersBelow n ((i, u) ∷ ms) = (i < n) × MembersBelow n ms

pub record IsWellFormed (db : Db) : Type 0 where
  pub fresh : Below db.next_id db.alerts
  pub unique : OpenUnique db.alerts
  pub owned : MembersBelow db.next_id db.members

pub MembersBelow-suc :
    (n : ℕ) (ms : List (ℕ × String)) → MembersBelow n ms → MembersBelow (suc n) ms
MembersBelow-suc n [] b = tt
MembersBelow-suc n ((i, u) ∷ ms) b = (omega arith, MembersBelow-suc n ms b.1)

Below-mono : (m n : ℕ) (rows : List Alert) → m ≤ n → Below m rows → Below n rows
Below-mono m n [] h b = tt
Below-mono m n (a ∷ rows) h b = (omega arith, b.1)

-- A change of the row with an id that the table does not reach changes nothing.
pub update_row_above :
    (i n : ℕ) (f : Alert → Alert) (rows : List Alert)
    → Below n rows
    → n ≤ i
    → update_row i f rows ≡ rows
unfolding update_row
update_row_above i n f [] b h = refl
update_row_above i n f (a ∷ rows) b h = ground (arith, update_row_above i a.id f rows b.1)

pub find_open-id_lt :
    (fp : String) (n : ℕ) (rows : List Alert) (cur : Alert)
    → Below n rows
    → find_open fp rows ≡ some cur
    → cur.id < n
unfolding find_open
find_open-id_lt fp n [] cur b h = cc
find_open-id_lt fp n (a ∷ rows) cur b h = elim (Option-cases (find_open fp rows)) [
  | inl e ↦ ground arith
  | inr (c, e) ↦ let below = find_open-id_lt fp a.id rows c b.1 e in ground arith
]

-- What the query returns is open and has the fingerprint.
pub find_open_sound :
    (fp : String) (rows : List Alert) (cur : Alert)
    → find_open fp rows ≡ some cur
    → (is_open cur.status ≡ true) × (cur.fingerprint ≡ fp)
unfolding find_open
find_open_sound fp [] cur h = cc
find_open_sound fp (a ∷ rows) cur h = elim (Option-cases (find_open fp rows)) [
  | inl e ↦ ground (arith, eq_iff a.fingerprint fp)
  | inr (c, e) ↦ let sound = find_open_sound fp rows c e in ground (arith, eq_iff a.fingerprint fp)
]

-- Behind an open row of the fingerprint there is no other.
pub find_open-head :
    (fp : String) (a : Alert) (rows : List Alert)
    → OpenUnique (a ∷ rows)
    → open_with fp a ≡ true
    → find_open fp rows ≡ none
unfolding open_with
find_open-head fp a rows u h =
    let same : a.fingerprint ≡ fp = ground (arith, eq_iff a.fingerprint fp) in
    rw (← same) (u.0 (ground arith))

abbrev pub if_open : Alert → Option Alert
if_open a = if is_open a.status then some a else none

module _ (f : Alert → Alert) (keeps_fp : (r : Alert) → (f r).fingerprint ≡ r.fingerprint) where
  -- The open row of a fingerprint, after a change of that row.
  pub find_open-update_self :
      (fp : String) (n : ℕ) (rows : List Alert) (cur : Alert)
      → Below n rows
      → OpenUnique rows
      → find_open fp rows ≡ some cur
      → find_open fp (update_row cur.id f rows) ≡ if_open (f cur)
  unfolding find_open update_row
  find_open-update_self fp n [] cur b u h = cc
  find_open-update_self fp n (a ∷ rows) cur b u h = elim (Bool-cases (open_with fp a)) [
    | inl hit ↦ ground (
      arith,
      find_open-head fp a rows u hit,
      update_row_above a.id a.id f rows b.1,
      eq_iff a.fingerprint fp,
      eq_iff (f a).fingerprint fp,
      keeps_fp a,
    )
    | inr miss ↦ ground (
      arith,
      find_open-id_lt fp a.id rows cur b.1,
      find_open-update_self fp a.id rows cur b.1 u.1,
    )
  ]

  -- The other fingerprints do not see it.
  pub find_open-update_ne :
      (fp k : String) (n : ℕ) (rows : List Alert) (cur : Alert)
      → Below n rows
      → OpenUnique rows
      → find_open fp rows ≡ some cur
      → fp ≢ k
      → find_open k (update_row cur.id f rows) ≡ find_open k rows
  unfolding find_open update_row
  find_open-update_ne fp k n [] cur b u h d = cc
  find_open-update_ne fp k n (a ∷ rows) cur b u h d = elim (Bool-cases (open_with fp a)) [
    | inl hit ↦ ground (
      arith,
      find_open-head fp a rows u hit,
      update_row_above a.id a.id f rows b.1,
      eq_iff a.fingerprint fp,
      eq_iff a.fingerprint k,
      eq_iff (f a).fingerprint k,
      keeps_fp a,
    )
    | inr miss ↦ ground (
      arith,
      find_open-id_lt fp a.id rows cur b.1,
      find_open-update_ne fp k a.id rows cur b.1 u.1,
    )
  ]

pub Below-update_row :
    (f : Alert → Alert)
    → ((r : Alert) → (f r).id ≡ r.id)
    → (i n : ℕ) (rows : List Alert) → Below n rows
    → Below n (update_row i f rows)
unfolding update_row
Below-update_row f keeps i n [] b = tt
Below-update_row f keeps i n (a ∷ rows) b =
    let rest = Below-update_row f keeps i a.id rows b.1 in ground (arith, keeps a)

pub OpenUnique-update_row :
    (f : Alert → Alert)
    → ((r : Alert) → (f r).fingerprint ≡ r.fingerprint)
    → (fp : String) (n : ℕ) (rows : List Alert) (cur : Alert) → Below n rows
    → OpenUnique rows
    → find_open fp rows ≡ some cur
    → OpenUnique (update_row cur.id f rows)
unfolding find_open update_row
OpenUnique-update_row f keeps fp n [] cur b u h = tt
OpenUnique-update_row f keeps fp n (a ∷ rows) cur b u h = elim (Bool-cases (open_with fp a)) [
  | inl hit ↦ ground (
    arith,
    find_open-head fp a rows u hit,
    update_row_above a.id a.id f rows b.1,
    eq_iff a.fingerprint fp,
    keeps a,
  )
  | inr miss ↦
      let lt = find_open-id_lt fp a.id rows cur b.1 (ground arith) in
      let rest = OpenUnique-update_row f keeps fp a.id rows cur b.1 u.1 (ground arith) in
      let behind =
        find_open-update_ne f keeps fp a.fingerprint a.id rows cur b.1 u.1 (ground arith) in
      ground (arith, eq_iff a.fingerprint fp, behind)
]

find_open-close_none :
    (k : String) (i at : ℕ) (auto : Bool) (rows : List Alert)
    → find_open k rows ≡ none
    → find_open k (update_row i (closed at auto) rows) ≡ none
unfolding find_open update_row
find_open-close_none k i at auto [] h = refl
find_open-close_none k i at auto (a ∷ rows) h =
    ground (arith, find_open-close_none k i at auto rows)

pub OpenUnique-close :
    (i at : ℕ) (auto : Bool) (rows : List Alert)
    → OpenUnique rows
    → OpenUnique (update_row i (closed at auto) rows)
unfolding update_row
OpenUnique-close i at auto [] u = tt
OpenUnique-close i at auto (a ∷ rows) u =
    let rest = OpenUnique-close i at auto rows u.1 in
    ground (arith, find_open-close_none a.fingerprint i at auto rows)
