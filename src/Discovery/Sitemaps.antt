-- ===== src/Discovery/Sitemaps.antt =====
-- internal/discovery/discovery.go: the bounded search of a site's sitemaps. `ParseSitemap` (gzip and XML are
-- the standard library's), the robots cache and the fetcher are arguments; a refused slot of the frontier
-- counts as a failed fetch.
use rabbot_seo.Base.{
  ℕ, zero, suc, String, Bool, true, false, not, ◌||◌, Option, none, some, List, [], ◌∷◌, ◌++◌, ltb,
  leb, ◌==◌, map, length, take, if◌then◌else◌, str_eq, contains_string, ◌<>◌, trim_slashes,
}
use rabbot_seo.Discovery.{Caps, Discoverer, World, Candidate, Admission, at_cap, count_and_admit}

abbrev pub max_sitemap_depth : ℕ
max_sitemap_depth = 3

abbrev pub max_sitemap_fetches : ℕ
max_sitemap_fetches = 50

pub record Entry (P : Type 0) : Type 0 where
  pub loc : String
  pub priority : P

-- What a fetch of a document brings; `parsed` is `none` if it is no sitemap, and says whether it is an index.
pub record Document (P : Type 0) : Type 0 where
  pub failed : Bool
  pub http_status : ℕ
  pub is_ok : Bool
  pub is_empty : Bool
  pub truncated : Bool
  pub parsed : Option (List (Entry P) × Bool)

pub record Web (P : Type 0) : Type 0 where
  pub base_url : String
  pub declared_sitemaps : List String
  pub in_scope : String → Bool
  pub is_valid_site_url : String → Bool
  pub allowed : String → Bool
  pub fetch : String → Document P

-- The variables of the search; `fetched` is the log of the fetches, newest first.
pub record Search (P : Type 0) : Type 0 where
  pub seed_status : ℕ
  pub incomplete : Bool
  pub visited : List String
  pub fetched : List String
  pub pages : List (Entry P)

pub record Collection (P : Type 0) : Type 0 where
  pub seed_url : String
  pub seed_status : ℕ
  pub entries : List (Entry P)
  pub incomplete : Bool
  pub fetched : List String

abbrev pub Item : Type 0
Item = String × ℕ

unfoldable pub apply_budget : {P : Type 0} → List (Entry P) → ℕ → List (Entry P)
apply_budget es max = if (max == 0) || leb (length es) max then es else take max es

abbrev pub flag : {P : Type 0} → Search P → Search P
flag s = record s { incomplete = true }

abbrev pub items : {P : Type 0} → ℕ → List (Entry P) → List Item
items level [] = []
items level (e ∷ es) = (e.loc, level) ∷ items level es

abbrev pub is_unread : {P : Type 0} → Document P → Bool
is_unread f = f.failed || not f.is_ok || f.is_empty || f.truncated

abbrev pub visit : {P : Type 0} → String → Search P → Search P
visit url s = record s { visited = url ∷ s.visited }

module _ {P : Type 0} (web : Web P) (primary : String) (max : ℕ) where
  -- A document is fetched: its visit, its fetch and, for the primary seed, its status.
  abbrev pub logged : String → Search P → Search P
  logged url s = record s {
    fetched = url ∷ s.fetched;
    seed_status = if str_eq url primary then (web.fetch url).http_status else s.seed_status;
  }

  abbrev pub gains : Search P → List (Entry P) → Search P
  gains s es = record s { pages = apply_budget (s.pages ++ es) max }

  -- The queue and the variables after a document was read.
  unfoldable pub read :
      ℕ → List Item → Search P → Option (List (Entry P) × Bool) → List Item × Search P
  read level queue s none = (queue, flag s)
  read level queue s (some (es, true)) = (queue ++ items (suc level) (apply_budget es max), s)
  read level queue s (some (es, false)) = (queue, gains s (apply_budget es max))

  unfoldable pub digest : ℕ → List Item → Search P → Document P → List Item × Search P
  unfolding read
  digest level queue s f = if is_unread f then (queue, flag s) else read level queue s f.parsed

  abbrev pub is_skipped : Item → Search P → Bool
  is_skipped (url, level) s =
      ltb max_sitemap_depth level || not (web.in_scope url) || contains_string s.visited url

  abbrev pub is_refused : String → Bool
  is_refused url = not (web.is_valid_site_url url) || not (web.allowed url)

  -- The loop, with the fetches that are left. It ends with the budget spent and documents in the queue, at the
  -- page cap, or with an empty queue.
  unfoldable pub search : ℕ → List Item → Search P → Search P
  unfolding digest
  search left [] s = s
  search zero (item ∷ queue) s = flag s
  search (suc left) ((url, level) ∷ queue) s =
      let seen = visit url s in
      let (queue', s') = digest level queue (logged url seen) (web.fetch url) in
      let skip = search (suc left) queue s in
      let refuse = search (suc left) queue seen in
      let next = search left queue' s' in
      if at_cap max (length s.pages)
      then s
      else if is_skipped (url, level) s
      then skip
      else if is_refused url
      then refuse
      else next

-- `sort.SliceStable` by falling priority.
unfoldable pub insert_entry :
    {P : Type 0} → (P → P → Bool) → Entry P → List (Entry P) → List (Entry P)
insert_entry higher e [] = e ∷ []
insert_entry higher e (x ∷ xs) =
    if higher x.priority e.priority then x ∷ insert_entry higher e xs else e ∷ x ∷ xs

unfoldable pub sort_entries : {P : Type 0} → (P → P → Bool) → List (Entry P) → List (Entry P)
unfolding insert_entry
sort_entries higher [] = []
sort_entries higher (e ∷ es) = insert_entry higher e (sort_entries higher es)

abbrev pub seeds : {P : Type 0} → Web P → String × List String
seeds web = elim web.declared_sitemaps [
  | [] ↦ (trim_slashes web.base_url <> "/sitemap.xml", [])
  | s ∷ ss ↦ (s, ss)
]

abbrev pub start_items : List String → List Item
start_items [] = []
start_items (s ∷ ss) = (s, 0) ∷ start_items ss

abbrev pub start : {P : Type 0} → Search P
start = record { seed_status = 0; incomplete = false; visited = []; fetched = []; pages = [] }

unfoldable pub collect : {P : Type 0} → (P → P → Bool) → Web P → ℕ → Collection P
unfolding search sort_entries
collect higher web max =
    let (primary, others) = seeds web in
    let s = search web primary max max_sitemap_fetches (start_items (primary ∷ others)) start in
    record {
      seed_url = primary;
      seed_status = s.seed_status;
      entries = sort_entries higher s.pages;
      incomplete = s.incomplete;
      fetched = s.fetched;
    }

abbrev pub no_collection : {P : Type 0} → Collection P
no_collection = record {
  seed_url = "";
  seed_status = 0;
  entries = [];
  incomplete = false;
  fetched = [];
}

abbrev pub page : {P : Type 0} → Entry P → Candidate P
page e = record { raw = e.loc; depth = 1; in_sitemap = true; priority = e.priority }

unfoldable pub collect_and_seed :
    {P : Type 0} → Discoverer P → Web P → Caps → World P → Collection P × (Admission × World P)
unfolding collect count_and_admit
collect_and_seed d web caps w =
    if not caps.sitemap
    then (no_collection, (record { added = 0; error = none }, w))
    else let col = collect d.higher web caps.max_pages in
      (col, count_and_admit d caps.max_pages (map page col.entries) w)
