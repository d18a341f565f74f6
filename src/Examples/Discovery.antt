-- ===== src/Examples/Discovery.antt =====
-- The theorems on discovery at a site with an index of sitemaps, one of which is declared twice.
use rabbot_seo.Base.{
  ℕ, ◌≤◌, ◌≡◌, ◌||◌, refl, Bool, true, false, Option, some, String, List, [], ◌∷◌, length, ltb,
  str_eq, Distinct, All, has_prefix, if◌then◌else◌,
}
use rabbot_seo.Discovery.{Row, World, Discoverer, Caps, has_url}
use rabbot_seo.Discovery.Growth
use rabbot_seo.Discovery.Growth.{Account}
use rabbot_seo.Discovery.Sitemaps.{Web, Document, Entry, collect, collect_and_seed}
use rabbot_seo.Discovery.Search
use rabbot_seo.Discovery.Search.{is_lawful, is_within_budget, primary, all_read}

abbrev discoverer : Discoverer ℕ
discoverer = record {
  now = 7;
  min_interval = 600;
  canonical_url = λ u. u;
  in_scope = λ u. has_prefix "/" u;
  is_valid_site_url = λ u. true;
  cold_start_importance = λ depth p. p;
  no_priority = 0;
  higher = λ p q. ltb q p;
  classify = true;
}

abbrev home : Row ℕ
home = record {
  url = "/";
  first_seen = 1;
  next_check_at = 2;
  interval = 600;
  importance = 5;
  depth = 0;
  in_sitemap = false;
}

-- The third call of the database fails.
abbrev world : World ℕ
world = record { rows = home ∷ []; classified = []; faults = false ∷ false ∷ true ∷ [] }

abbrev caps : Caps
caps = record { follow_links = true; sitemap = true; max_depth = 3; max_pages = 2 }

abbrev entry : String → ℕ → Entry ℕ
entry loc priority = record { loc = loc; priority = priority }

abbrev document : Option (List (Entry ℕ) × Bool) → Document ℕ
document p = record {
  failed = false;
  http_status = 200;
  is_ok = true;
  is_empty = false;
  truncated = false;
  parsed = p;
}

abbrev web : Web ℕ
web = record {
  base_url = "/";
  declared_sitemaps = "/index.xml" ∷ "/one.xml" ∷ [];
  in_scope = λ u. has_prefix "/" u;
  is_valid_site_url = λ u. true;
  allowed = λ u. true;
  fetch = λ u.
      if str_eq u "/index.xml"
      then document (some (entry "/one.xml" 5 ∷ entry "/index.xml" 5 ∷ [], true))
      else document (some (entry "/a" 5 ∷ entry "/b" 9 ∷ [], false));
}

collect_and_seed-Account_example :
    Account discoverer caps.max_pages world.rows
      (collect_and_seed discoverer web caps world).1.1.rows
      (collect_and_seed discoverer web caps world).1.0
unfolding has_url
collect_and_seed-Account_example =
    Growth.collect_and_seed-Account discoverer web caps world (refl, tt)

abbrev higher : ℕ → ℕ → Bool
higher p q = ltb q p

collect_bounds_example :
    (length (collect higher web 2).fetched ≤ 50)
    × Distinct (collect higher web 2).fetched
    × All (λ u. is_lawful web (primary higher web 2) 2 u ≡ true) (collect higher web 2).fetched
    × (is_within_budget 2 (length (collect higher web 2).entries) ≡ true)
    × (((collect higher web 2).incomplete || all_read higher web 2 (collect higher web 2).fetched)
        ≡ true)
collect_bounds_example = Search.collect_bounds higher web 2
