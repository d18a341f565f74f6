-- ===== src/Discovery/Search.antt =====
-- The search of a site's sitemaps: what it fetches, how often, and what its result stands for.
use rabbot_seo.Base.{
  ℕ, zero, suc, ◌+◌, ◌≤◌, ◌≡◌, refl, ap, String, Bool, true, false, not, ◌&&◌, ◌||◌, none, some,
  List, [], ◌∷◌, ◌++◌, leb, ◌==◌, length, length-take-le, contains_string, Distinct, All, arith,
  Bool-cases, Option-cases, inl, inr,
}
use rabbot_seo.Discovery.{at_cap}
use rabbot_seo.Discovery.Sitemaps.{
  Entry, Document, Web, Search, Item, apply_budget, flag, logged, is_unread, gains, read, digest,
  is_skipped, is_refused, visit, search, insert_entry, sort_entries, seeds, start, start_items,
  collect, max_sitemap_fetches,
}

abbrev pub is_within_budget : ℕ → ℕ → Bool
is_within_budget max n = (max == 0) || leb n max

apply_budget-within :
    {P : Type 0} (es : List (Entry P)) (max : ℕ)
    → is_within_budget max (length (apply_budget es max)) ≡ true
unfolding apply_budget
apply_budget-within es max = ground (arith, length-take-le max es)

module _ {P : Type 0} (web : Web P) (primary : String) (max : ℕ) where
  -- The document was fetched whole and is a sitemap.
  abbrev pub is_read : Document P → Bool
  is_read f = not (is_unread f) && elim f.parsed [ none ↦ false | some p ↦ true ]

  -- A document that may be fetched.
  abbrev pub is_lawful : String → Bool
  is_lawful u = web.in_scope u && web.is_valid_site_url u && web.allowed u

  -- No document is fetched twice or against the rules; the pages are within the cap; and unless the result is
  -- marked incomplete, each fetched document was read.
  pub record IsSound (s : Search P) : Type 0 where
    pub distinct : Distinct s.fetched
    pub seen :
        (u : String) → contains_string s.fetched u ≡ true → contains_string s.visited u ≡ true
    pub lawful : All (λ u. is_lawful u ≡ true) s.fetched
    pub capped : is_within_budget max (length s.pages) ≡ true
    pub whole : s.incomplete ≡ false → All (λ u. is_read (web.fetch u) ≡ true) s.fetched

  visit-IsSound : (url : String) (s : Search P) → IsSound s → IsSound (visit url s)
  unfolding contains_string
  visit-IsSound url s v = record {
    distinct = v.distinct;
    seen = λ u h. ground (arith, v.seen u);
    lawful = v.lawful;
    capped = v.capped;
    whole = v.whole;
  }

  not_fetched :
      (url : String) (s : Search P)
      → IsSound s
      → contains_string s.visited url ≡ false
      → contains_string s.fetched url ≡ false
  not_fetched url s v h = elim (Bool-cases (contains_string s.fetched url)) [
    | inl twice ↦ cc (v.seen url twice)
    | inr new ↦ new
  ]

  module _ (url : String) (s : Search P) (v : IsSound s)
      (new : contains_string s.visited url ≡ false) (right : is_lawful url ≡ true) where
    abbrev after : Search P
    after = logged web primary max url (visit url s)

    -- After the fetch of a new document, whatever the flag and the pages become.
    fetched-IsSound :
        (s' : Search P)
        → s'.fetched ≡ after.fetched
        → s'.visited ≡ after.visited
        → is_within_budget max (length s'.pages) ≡ true
        → (s'.incomplete ≡ false → (s.incomplete ≡ false) × (is_read (web.fetch url) ≡ true))
        → IsSound s'
    unfolding contains_string
    fetched-IsSound s' f w within flagged = record {
      distinct = rw f (not_fetched url s v new, v.distinct);
      seen = λ u h. rw w (let h' = rw f at h in ground (arith, v.seen u));
      lawful = rw f (right, v.lawful);
      capped = within;
      whole = λ h. rw f ((flagged h).1, v.whole (flagged h).0);
    }

    digest-IsSound :
        (level : ℕ) (queue : List Item)
        → IsSound (digest web primary max level queue after (web.fetch url)).1
    unfolding digest read
    digest-IsSound level queue = elim (Bool-cases (is_unread (web.fetch url))) [
      | inl broken ↦ rw broken (fetched-IsSound (flag after) refl refl v.capped (λ h. cc))
      | inr whole ↦ elim (Option-cases (web.fetch url).parsed) [
        | inl bad ↦ rw (whole, bad) (fetched-IsSound (flag after) refl refl v.capped (λ h. cc))
        | inr ((es, true), index) ↦
            rw (whole, index)
              (fetched-IsSound after refl refl v.capped (λ h. (h, rw (whole, index) refl)))
        | inr ((es, false), set) ↦
            rw (whole, set)
              (fetched-IsSound (gains web primary max after (apply_budget es max)) refl refl
                (apply_budget-within (after.pages ++ apply_budget es max) max)
                (λ h. (h, rw (whole, set) refl)))
      ]
    ]

  flag-IsSound : (s : Search P) → IsSound s → IsSound (flag s)
  flag-IsSound s v = record {
    distinct = v.distinct;
    seen = v.seen;
    lawful = v.lawful;
    capped = v.capped;
    whole = λ h. cc;
  }

  digest-fetched :
      (level : ℕ) (queue : List Item) (s : Search P) (f : Document P)
      → (digest web primary max level queue s f).1.fetched ≡ s.fetched
  unfolding digest read
  digest-fetched level queue s f = elim (Bool-cases (is_unread f)) [
    | inl broken ↦ rw broken refl
    | inr whole ↦ elim (Option-cases f.parsed) [
      | inl bad ↦ rw (whole, bad) refl
      | inr ((es, true), index) ↦ rw (whole, index) refl
      | inr ((es, false), set) ↦ rw (whole, set) refl
    ]
  ]

  -- The search does not spend more than its budget.
  search-fetches :
      (left : ℕ) (queue : List Item) (s : Search P)
      → length (search web primary max left queue s).fetched ≤ length s.fetched + left
  unfolding search
  search-fetches left [] s = omega arith
  search-fetches zero (item ∷ queue) s = omega arith
  search-fetches (suc left) ((url, level) ∷ queue) s =
      let seen = visit url s in
      let next =
        digest web primary max level queue (logged web primary max url seen) (web.fetch url) in
      let grown =
        ap length (digest-fetched level queue (logged web primary max url seen) (web.fetch url)) in
      elim (Bool-cases (at_cap max (length s.pages))) [
        | inl full ↦ rw full (omega arith)
        | inr room ↦ elim (Bool-cases (is_skipped web primary max (url, level) s)) [
          | inl skip ↦ rw (room, skip) (search-fetches (suc left) queue s)
          | inr fresh ↦ elim (Bool-cases (is_refused web primary max url)) [
            | inl refused ↦ rw (room, fresh, refused) (search-fetches (suc left) queue seen)
            | inr fetched ↦
                rw (room, fresh, fetched) (omega (arith, search-fetches left next.0 next.1, grown))
          ]
        ]
      ]

  search-IsSound :
      (left : ℕ) (queue : List Item) (s : Search P)
      → IsSound s
      → IsSound (search web primary max left queue s)
  unfolding search
  search-IsSound left [] s v = v
  search-IsSound zero (item ∷ queue) s v = flag-IsSound s v
  search-IsSound (suc left) ((url, level) ∷ queue) s v =
      let seen = visit url s in
      let next =
        digest web primary max level queue (logged web primary max url seen) (web.fetch url) in
      elim (Bool-cases (at_cap max (length s.pages))) [
        | inl full ↦ rw full v
        | inr room ↦ elim (Bool-cases (is_skipped web primary max (url, level) s)) [
          | inl skip ↦ rw (room, skip) (search-IsSound (suc left) queue s v)
          | inr fresh ↦ elim (Bool-cases (is_refused web primary max url)) [
            | inl refused ↦
                rw (room, fresh, refused)
                  (search-IsSound (suc left) queue seen (visit-IsSound url s v))
            | inr fetched ↦
                rw (room, fresh, fetched)
                  (search-IsSound left next.0 next.1
                    (digest-IsSound url s v (ground arith) (ground arith) level queue))
          ]
        ]
      ]

length-insert_entry :
    {P : Type 0} (higher : P → P → Bool) (e : Entry P) (es : List (Entry P))
    → length (insert_entry higher e es) ≡ suc (length es)
unfolding insert_entry
length-insert_entry higher e [] = refl
length-insert_entry higher e (x ∷ xs) = ground (arith, length-insert_entry higher e xs)

length-sort_entries :
    {P : Type 0} (higher : P → P → Bool) (es : List (Entry P))
    → length (sort_entries higher es) ≡ length es
unfolding sort_entries
length-sort_entries higher [] = refl
length-sort_entries higher (e ∷ es) =
    omega
      (arith, length-insert_entry higher e (sort_entries higher es), length-sort_entries higher es)

module _ {P : Type 0} (higher : P → P → Bool) (web : Web P) (max : ℕ) where
  abbrev pub primary : String
  primary = (seeds web).0

  start-IsSound : IsSound web primary max start
  start-IsSound = record {
    distinct = tt;
    seen = λ u h. h;
    lawful = tt;
    capped = ground arith;
    whole = λ h. tt;
  }

  unfoldable pub all_read : List String → Bool
  all_read [] = true
  all_read (u ∷ us) = is_read web primary max (web.fetch u) && all_read us

  all_read-All :
      (us : List String)
      → All (λ u. is_read web primary max (web.fetch u) ≡ true) us
      → all_read us ≡ true
  unfolding all_read
  all_read-All [] h = refl
  all_read-All (u ∷ us) h = ground (arith, all_read-All us h.1)

  result : Search P
  result = search web primary max max_sitemap_fetches (start_items (primary ∷ (seeds web).1)) start

  result-IsSound : IsSound web primary max result
  unfolding result
  result-IsSound =
      search-IsSound web primary max max_sitemap_fetches (start_items (primary ∷ (seeds web).1))
        start start-IsSound

  -- A collection fetches at most 50 documents, each once and each one in scope, valid and allowed by
  -- robots.txt; it holds no more entries than the page cap; and unless it is marked incomplete, each document
  -- that it fetched was read whole and is a sitemap.
  pub collect_bounds :
      (length (collect higher web max).fetched ≤ 50)
      × Distinct (collect higher web max).fetched
      × All (λ u. is_lawful web primary max u ≡ true) (collect higher web max).fetched
      × (is_within_budget max (length (collect higher web max).entries) ≡ true)
      × (((collect higher web max).incomplete || all_read (collect higher web max).fetched) ≡ true)
  unfolding collect result
  collect_bounds =
      let v = result-IsSound in
      (
        search-fetches web primary max max_sitemap_fetches (start_items (primary ∷ (seeds web).1))
            start,
        v.distinct,
        v.lawful,
        rw (length-sort_entries higher result.pages) v.capped,
        elim (Bool-cases result.incomplete) [
          | inl marked ↦ rw marked refl
          | inr whole ↦ rw whole (all_read-All result.fetched (v.whole whole))
        ],
      )
