-- ===== src/Config.antt =====
-- internal/config: how a site's settings resolve over the defaults. Durations are int64 nanoseconds;
-- `time.ParseDuration` is an argument.
pub mod Throttle
pub mod Allowlist
use rabbot_seo.Base.{ℕ, String, Bool, true, false, Option, none, some, ◌*◌, if◌then◌else◌, str_eq}
use rabbot_seo.Base.Int.{ℤ, pos, is_positive}

abbrev pub millisecond : ℕ
millisecond = 1000000

abbrev pub second : ℕ
second = 1000000000

pub record DiscoveryConfig : Type 0 where
  pub follow_links : Option Bool
  pub sitemap : Option Bool
  pub max_depth : ℤ
  pub max_pages_per_site : Option ℤ
  pub sitemap_refresh : String

pub record UnverifiedThrottleConfig : Type 0 where
  pub per_host_rate : String
  pub per_host_concurrency : ℤ
  pub max_pages : ℤ
  pub min_interval : String

-- The defaults that resolution reads.
pub record Config : Type 0 where
  pub per_host_rate : String
  pub per_host_concurrency : ℤ
  pub min_interval : String
  pub discovery : DiscoveryConfig
  pub unverified_throttle : UnverifiedThrottleConfig

pub record SiteConfig : Type 0 where
  pub speed : ℤ
  pub min_interval : String
  pub discovery : DiscoveryConfig

pub record DiscoveryResolved : Type 0 where
  pub follow_links : Bool
  pub sitemap : Bool
  pub max_depth : ℤ
  pub max_pages : ℤ
  pub sitemap_refresh : ℤ

abbrev pub ParseDuration : Type 0
ParseDuration = String → Option ℤ

abbrev pub bool_or : Option Bool → Option Bool → Bool → Bool
bool_or (some b) d fallback = b
bool_or none (some b) fallback = b
bool_or none none fallback = fallback

unfoldable pub int_or : ℤ → ℤ → ℤ → ℤ
int_or site d fallback = if is_positive site then site else if is_positive d then d else fallback

abbrev pub int_ptr_or : Option ℤ → Option ℤ → ℤ → ℤ
int_ptr_or (some n) d fallback = n
int_ptr_or none (some n) fallback = n
int_ptr_or none none fallback = fallback

abbrev pub positive_or : Option ℤ → ℤ → ℤ
positive_or none fallback = fallback
positive_or (some d) fallback = if is_positive d then d else fallback

unfoldable pub dur_or : ParseDuration → String → String → ℤ → ℤ
dur_or parse site d fallback = positive_or (parse site) (positive_or (parse d) fallback)

unfoldable pub parse_duration_or : ParseDuration → String → ℤ → ℤ
parse_duration_or parse s fallback =
    if str_eq s "" then fallback else elim (parse s) [ none ↦ fallback | some d ↦ d ]

unfoldable pub min_interval_duration : ParseDuration → Config → ℤ
unfolding parse_duration_or
min_interval_duration parse c = parse_duration_or parse c.min_interval (pos (600 * second))

unfoldable pub resolve_discovery : ParseDuration → Config → SiteConfig → DiscoveryResolved
unfolding int_or dur_or
resolve_discovery parse c site = record {
  follow_links = bool_or site.discovery.follow_links c.discovery.follow_links true;
  sitemap = bool_or site.discovery.sitemap c.discovery.sitemap true;
  max_depth = int_or site.discovery.max_depth c.discovery.max_depth (pos 3);
  max_pages =
      int_ptr_or site.discovery.max_pages_per_site c.discovery.max_pages_per_site (pos 2000);
  sitemap_refresh =
      dur_or parse site.discovery.sitemap_refresh c.discovery.sitemap_refresh
        (pos (86400 * second));
}
