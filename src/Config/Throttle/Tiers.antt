-- ===== src/Config/Throttle/Tiers.antt =====
-- An unverified site is crawled no harder than a verified one.
use rabbot_seo.Base.{◌≡◌, ◌≢◌, refl, true, not, ◌||◌, if◌then◌else◌, arith, Bool-cases, inl, inr}
use rabbot_seo.Base.Int.{ℤ, pos, ◌≤ℤ◌, leb_ℤ, is_positive}
use rabbot_seo.Config.{ParseDuration, Config, SiteConfig, int_or}
use rabbot_seo.Config.Throttle.{
  State, verified, attested, throttled, no_state, min_per_host_rate, throttle_floor, CrawlResolved,
  resolve_crawl, ThrottleFloor, max_dur, min_int, full_rate, full_conc, full_max_pages,
  site_min_interval,
}

int_or-positive : (a b f : ℤ) → is_positive f ≡ true → is_positive (int_or a b f) ≡ true
unfolding int_or
int_or-positive a b f h = ground arith

max_dur-left : (a b : ℤ) → a ≤ℤ max_dur a b
max_dur-left a b = ground arith

max_dur-right : (a b : ℤ) → b ≤ℤ max_dur a b
max_dur-right a b = ground arith

max_dur_mono : (a b c : ℤ) → b ≤ℤ c → max_dur a b ≤ℤ max_dur a c
max_dur_mono a b c h = ground arith

min_int-left : (a b : ℤ) → min_int a b ≤ℤ a
min_int-left a b = ground arith

min_int-right : (a b : ℤ) → min_int a b ≤ℤ b
min_int-right a b = ground arith

min_int-positive :
    (a b : ℤ) → is_positive a ≡ true → is_positive b ≡ true → is_positive (min_int a b) ≡ true
min_int-positive a b h k = ground arith

floor_pages-positive :
    (parse : ParseDuration) (c : Config) → is_positive (throttle_floor parse c).max_pages ≡ true
unfolding throttle_floor
floor_pages-positive parse c = int_or-positive c.unverified_throttle.max_pages (pos 0) (pos 50) refl

-- The second budget asks no more of a host than the first: it waits as long between requests and between
-- checks, runs as few at once, and its page cap is one that the first, if it has one, does not undercut.
pub record IsGentler (v t : CrawlResolved) : Type 0 where
  pub rate : v.per_host_rate ≤ℤ t.per_host_rate
  pub conc : t.per_host_concurrency ≤ℤ v.per_host_concurrency
  pub interval : v.min_interval ≤ℤ t.min_interval
  pub pages_capped : is_positive t.max_pages ≡ true
  pub pages : (not (is_positive v.max_pages) || leb_ℤ t.max_pages v.max_pages) ≡ true

-- The budget keeps to the floor of unverified sites.
pub record IsFloored (f : ThrottleFloor) (t : CrawlResolved) : Type 0 where
  pub rate : f.rate ≤ℤ t.per_host_rate
  pub conc : t.per_host_concurrency ≤ℤ f.conc
  pub interval : f.min_interval ≤ℤ t.min_interval
  pub pages : t.max_pages ≤ℤ f.max_pages

-- The page cap of an unverified site.
abbrev capped_pages : ℤ → ℤ → ℤ
capped_pages full f = if is_positive full then min_int full f else f

capped_pages-positive :
    (full f : ℤ) → is_positive f ≡ true → is_positive (capped_pages full f) ≡ true
capped_pages-positive full f h = elim (Bool-cases (is_positive full)) [
  | inl some_cap ↦ rw some_cap (min_int-positive full f some_cap h)
  | inr no_cap ↦ rw no_cap h
]

capped_pages-le : (full f : ℤ) → capped_pages full f ≤ℤ f
capped_pages-le full f = ground arith

capped_pages-within :
    (full f : ℤ) → (not (is_positive full) || leb_ℤ (capped_pages full f) full) ≡ true
capped_pages-within full f = ground arith

module _ (parse : ParseDuration) (c : Config) (site : SiteConfig)
    (h : min_per_host_rate ≤ℤ (throttle_floor parse c).rate) where
  abbrev Gentle : CrawlResolved → Type 0
  Gentle t =
      IsGentler (resolve_crawl parse c site verified) t × IsFloored (throttle_floor parse c) t

  throttled-Gentle : Gentle (resolve_crawl parse c site throttled)
  unfolding resolve_crawl
  throttled-Gentle =
      let f = throttle_floor parse c in
      let full = full_max_pages parse c site in
      (
        record {
          rate = max_dur_mono (full_rate parse c site) min_per_host_rate f.rate h;
          conc = min_int-left (full_conc parse c site) f.conc;
          interval = max_dur-left (site_min_interval parse site c) f.min_interval;
          pages_capped = capped_pages-positive full f.max_pages (floor_pages-positive parse c);
          pages = capped_pages-within full f.max_pages;
        },
        record {
          rate = max_dur-right (full_rate parse c site) f.rate;
          conc = min_int-right (full_conc parse c site) f.conc;
          interval = max_dur-right (site_min_interval parse site c) f.min_interval;
          pages = capped_pages-le full f.max_pages;
        },
      )

-- With a floor on the request rate that is not under the sanity floor of 250 milliseconds: in every state but
-- `verified` a site's budget asks no more of its host than its own budget in the state `verified` would, it has a
-- page cap also where the configuration sets none, and it keeps to the floor of unverified sites.
pub unverified-IsGentler :
    (parse : ParseDuration) (c : Config) (site : SiteConfig) (state : State)
    → state ≢ verified
    → min_per_host_rate ≤ℤ (throttle_floor parse c).rate
    → IsGentler (resolve_crawl parse c site verified) (resolve_crawl parse c site state)
      × IsFloored (throttle_floor parse c) (resolve_crawl parse c site state)
unfolding resolve_crawl
unverified-IsGentler parse c site verified ne h = absurd (ne refl)
unverified-IsGentler parse c site attested ne h = throttled-Gentle parse c site h
unverified-IsGentler parse c site throttled ne h = throttled-Gentle parse c site h
unverified-IsGentler parse c site no_state ne h = throttled-Gentle parse c site h
