-- ===== src/Discovery.antt =====
-- internal/discovery/discovery.go: which URLs enter a site's inventory. The rows are those of one site; the
-- lock of the site makes each loop one step. A priority is a float64 of the standard library; its order and
-- `ColdStartImportance` are arguments, as are the scope test (internal/urlx), the guard of destinations
-- (internal/fetcher) and the canonical form of a stored URL.
pub mod Rows
pub mod Growth
pub mod Sitemaps
pub mod Search
use rabbot_seo.Base.{
  ℕ, suc, ◌+◌, String, Bool, true, false, not, ◌&&◌, ◌||◌, Option, none, some, List, [], ◌∷◌, ltb,
  leb, ◌==◌, map, length, if◌then◌else◌, str_eq,
}
use rabbot_seo.Base.Result.{Result, ok, err}

pub record Caps : Type 0 where
  pub follow_links : Bool
  pub sitemap : Bool
  pub max_depth : ℕ
  pub max_pages : ℕ

-- The columns of `urls` that discovery writes.
pub record Row (P : Type 0) : Type 0 where
  pub url : String
  pub first_seen : ℕ
  pub next_check_at : ℕ
  pub interval : ℕ
  pub importance : P
  pub depth : ℕ
  pub in_sitemap : Bool

pub data Error : Type 0 where
  store_failed : Error

-- `faults` says of each coming call of the database whether it fails; the empty list is a quiet world.
pub record World (P : Type 0) : Type 0 where
  pub rows : List (Row P)
  pub classified : List String
  pub faults : List Bool

pub record Discoverer (P : Type 0) : Type 0 where
  pub now : ℕ
  pub min_interval : ℕ
  pub canonical_url : String → String
  pub in_scope : String → Bool
  pub is_valid_site_url : String → Bool
  pub cold_start_importance : ℕ → P → P
  pub no_priority : P
  pub higher : P → P → Bool
  pub classify : Bool

-- What is to be admitted: a link of a page, or an entry of a sitemap.
pub record Candidate (P : Type 0) : Type 0 where
  pub raw : String
  pub depth : ℕ
  pub in_sitemap : Bool
  pub priority : P

-- What a loop returns: the count of the new URLs, and the error that ended it.
pub record Admission : Type 0 where
  pub added : ℕ
  pub error : Option Error

-- One call of the database.
unfoldable pub attempt : {P : Type 0} → World P → Bool × World P
attempt w = elim w.faults [
  | [] ↦ (true, w)
  | fault ∷ later ↦ (not fault, record w { faults = later })
]

-- `INSERT … ON CONFLICT(site_id, url) DO UPDATE`: the time of the first sight stays.
unfoldable pub upsert_row : {P : Type 0} → Row P → List (Row P) → List (Row P)
upsert_row r [] = r ∷ []
upsert_row r (x ∷ xs) =
    if str_eq x.url r.url then record r { first_seen = x.first_seen } ∷ xs else x ∷ upsert_row r xs

unfoldable pub has_url : {P : Type 0} → String → List (Row P) → Bool
has_url u [] = false
has_url u (x ∷ xs) = str_eq x.url u || has_url u xs

unfoldable pub count_site_urls : {P : Type 0} → World P → Result Error ℕ × World P
unfolding attempt
count_site_urls w =
    let (works, w') = attempt w in (if works then ok (length w'.rows) else err store_failed, w')

-- A cap of 0 is none.
abbrev pub at_cap : ℕ → ℕ → Bool
at_cap max n = ltb 0 max && leb max n

module _ {P : Type 0} (d : Discoverer P) where
  unfoldable pub get_url : String → World P → Result Error Bool × World P
  unfolding attempt
  get_url raw w =
      let (works, w') = attempt w in
      (if works then ok (has_url (d.canonical_url raw) w'.rows) else err store_failed, w')

  -- `false` skips the URL.
  unfoldable pub admit : String → World P → Result Error Bool × World P
  admit raw w =
      if not (d.in_scope raw) || not (d.is_valid_site_url raw)
      then (ok false, w)
      else let (found, w') = get_url raw w in
        (elim found [ ok known ↦ ok (not known) | err e ↦ err e ], w')

  abbrev pub row_of : Candidate P → Row P
  row_of c = record {
    url = d.canonical_url c.raw;
    first_seen = d.now;
    next_check_at = d.now;
    interval = d.min_interval;
    importance = d.cold_start_importance c.depth c.priority;
    depth = c.depth;
    in_sitemap = c.in_sitemap;
  }

  unfoldable pub upsert : Candidate P → World P → Bool × World P
  unfolding attempt
  upsert c w =
      let (works, w') = attempt w in
      if works
      then (
        true,
        record w' {
          rows = upsert_row (row_of c) w'.rows;
          classified = if d.classify then c.raw ∷ w'.classified else w'.classified;
        },
      )
      else (false, w')

  -- The loop of `EnqueueLinks` and of `CollectAndSeed`.
  unfoldable pub admit_all : ℕ → ℕ → ℕ → List (Candidate P) → World P → Admission × World P
  admit_all max count added [] w = (record { added = added; error = none }, w)
  admit_all max count added (c ∷ cs) w =
      let (admitted, w1) = admit c.raw w in
      let (stored, w2) = upsert c w1 in
      let skip = admit_all max count added cs w1 in
      let missed = admit_all max count added cs w2 in
      let next = admit_all max count (suc added) cs w2 in
      if at_cap max (count + added)
      then (record { added = added; error = none }, w)
      else elim admitted [
        | err e ↦ (record { added = added; error = some e }, w1)
        | ok wanted ↦ if wanted then (if stored then next else missed) else skip
      ]

  unfoldable pub admit_counted :
      ℕ → List (Candidate P) → Result Error ℕ → World P → Admission × World P
  unfolding admit_all
  admit_counted max cs (err e) w = (record { added = 0; error = some e }, w)
  admit_counted max cs (ok count) w = admit_all max count 0 cs w

  unfoldable pub count_and_admit : ℕ → List (Candidate P) → World P → Admission × World P
  count_and_admit max cs w =
      let (counted, w') = count_site_urls w in admit_counted max cs counted w'

  abbrev pub link : ℕ → String → Candidate P
  link depth raw = record { raw = raw; depth = depth; in_sitemap = false; priority = d.no_priority }

  -- `EnqueueLinks` for the links of a page at a depth.
  pub enqueue_links : Caps → ℕ → List String → World P → Admission × World P
  unfolding count_and_admit
  enqueue_links caps depth links w =
      if not caps.follow_links || leb caps.max_depth depth
      then (record { added = 0; error = none }, w)
      else count_and_admit caps.max_pages (map (link (suc depth)) links) w
