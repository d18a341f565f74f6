-- ===== src/Config/Throttle.antt =====
-- internal/config/throttle.go: the crawl budget of a site, by its verification state.
pub mod Tiers
use rabbot_seo.Base.{
  ℕ, String, Bool, true, false, Option, none, some, ◌*◌, if◌then◌else◌, str_eq, not,
}
use rabbot_seo.Base.Int.{
  ℤ, pos, negsuc, pos_part, ltb_ℤ, is_positive, to_word, of_word, times, quotient,
}
use rabbot_seo.Config.{
  ParseDuration, Config, SiteConfig, millisecond, second, int_or, dur_or, min_interval_duration,
  resolve_discovery,
}

-- verify.State: the persisted state of a site, of which old rows have none.
pub data State : Type 0 where
  verified attested throttled no_state : State

abbrev pub is_verified : State → Bool
is_verified verified = true
is_verified _ = false

abbrev pub min_per_host_rate : ℤ
min_per_host_rate = pos (250 * millisecond)

pub record ThrottleFloor : Type 0 where
  pub rate : ℤ
  pub conc : ℤ
  pub max_pages : ℤ
  pub min_interval : ℤ

unfoldable pub throttle_floor : ParseDuration → Config → ThrottleFloor
throttle_floor parse c =
    let ut = c.unverified_throttle in
    record {
      rate = dur_or parse ut.per_host_rate "" (pos (60 * second));
      conc = int_or ut.per_host_concurrency (pos 0) (pos 1);
      max_pages = int_or ut.max_pages (pos 0) (pos 50);
      min_interval = dur_or parse ut.min_interval "" (pos (1800 * second));
    }

pub record CrawlResolved : Type 0 where
  pub per_host_rate : ℤ
  pub per_host_concurrency : ℤ
  pub max_pages : ℤ
  pub min_interval : ℤ
  pub throttled : Bool

unfoldable pub site_min_interval : ParseDuration → SiteConfig → Config → ℤ
site_min_interval parse site c =
    let global = min_interval_duration parse c in
    if str_eq site.min_interval "" then global else elim (parse site.min_interval) [
      | none ↦ global
      | some d ↦ if is_positive d then d else global
    ]

abbrev pub max_dur : ℤ → ℤ → ℤ
max_dur a b = if ltb_ℤ b a then a else b

abbrev pub min_int : ℤ → ℤ → ℤ
min_int a b = if ltb_ℤ a b then a else b

abbrev pub percent_of : ℤ → ℕ
percent_of pct = if is_positive pct then pos_part pct else 100

-- `int64(r) * 100` wraps.
unfoldable pub scale_by_speed : ℤ → ℤ → ℤ
unfolding to_word of_word times quotient
scale_by_speed r pct = quotient (of_word (to_word (times r 100))) (percent_of pct)

module _ (parse : ParseDuration) (c : Config) (site : SiteConfig) where
  unfoldable pub full_rate : ℤ
  full_rate = scale_by_speed (dur_or parse "" c.per_host_rate (pos (2 * second))) site.speed

  abbrev pub full_conc : ℤ
  full_conc = int_or (pos 0) c.per_host_concurrency (pos 2)

  abbrev pub full_max_pages : ℤ
  full_max_pages = (resolve_discovery parse c site).max_pages

  unfoldable pub resolve_crawl : State → CrawlResolved
  unfolding throttle_floor
  resolve_crawl state =
      let full_min = site_min_interval parse site c in
      let f = throttle_floor parse c in
      if is_verified state
      then record {
        per_host_rate = max_dur full_rate min_per_host_rate;
        per_host_concurrency = full_conc;
        max_pages = full_max_pages;
        min_interval = full_min;
        throttled = false;
      }
      else record {
        per_host_rate = max_dur full_rate f.rate;
        per_host_concurrency = min_int full_conc f.conc;
        max_pages =
            if is_positive full_max_pages then min_int full_max_pages f.max_pages else f.max_pages;
        min_interval = max_dur full_min f.min_interval;
        throttled = true;
      }
