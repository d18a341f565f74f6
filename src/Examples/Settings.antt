-- ===== src/Examples/Settings.antt =====
-- The theorems on settings and on URLs, at concrete inputs.
use rabbot_seo.Base.{
  ◌*◌, ◌≡◌, ◌↔◌, true, none, some, if◌then◌else◌, codes, contains_string, str_eq, arith,
}
use rabbot_seo.Base.Int.{pos, ◌≤ℤ◌}
use rabbot_seo.Config.{Config, SiteConfig, DiscoveryConfig, ParseDuration, dur_or, second}
use rabbot_seo.Config.Throttle.{
  verified, attested, min_per_host_rate, resolve_crawl, throttle_floor,
}
use rabbot_seo.Config.Throttle.Tiers
use rabbot_seo.Config.Throttle.Tiers.{IsGentler, IsFloored}
use rabbot_seo.Config.Allowlist
use rabbot_seo.Config.Allowlist.{allow_config_key, allowed_config_keys, is_denied, in_denied_family}
use rabbot_seo.Urlx.{normalize_percent_encoding}
use rabbot_seo.Urlx.Percent
use rabbot_seo.Urlx.Percent.{octets}

-- Reads `1s` and `2m`.
abbrev parse : ParseDuration
parse s =
    if str_eq s "1s"
    then some (pos second)
    else if str_eq s "2m"
    then some (pos (120 * second))
    else none

abbrev unset : DiscoveryConfig
unset = record {
  follow_links = none;
  sitemap = none;
  max_depth = pos 0;
  max_pages_per_site = some (pos 0);
  sitemap_refresh = "";
}

abbrev defaults : Config
defaults = record {
  per_host_rate = "1s";
  per_host_concurrency = pos 4;
  min_interval = "";
  discovery = unset;
  unverified_throttle = record {
    per_host_rate = "2m";
    per_host_concurrency = pos 0;
    max_pages = pos 0;
    min_interval = "";
  };
}

abbrev fast_site : SiteConfig
fast_site = record { speed = pos 400; min_interval = "1s"; discovery = unset }

slow_floor : min_per_host_rate ≤ℤ (throttle_floor parse defaults).rate
unfolding throttle_floor dur_or
slow_floor = omega arith

unverified-IsGentler_example :
    IsGentler
      (resolve_crawl parse defaults fast_site verified)
      (resolve_crawl parse defaults fast_site attested)
    × IsFloored (throttle_floor parse defaults) (resolve_crawl parse defaults fast_site attested)
unverified-IsGentler_example =
    Tiers.unverified-IsGentler parse defaults fast_site attested (λ e. cc e) slow_floor

allow_config_key_iff_example :
    (allow_config_key "notifiers.slack.url" ≡ none
      ↔ contains_string allowed_config_keys "notifiers.slack.url" ≡ true)
    × (is_denied (allow_config_key "notifiers.slack.url") ≡ in_denied_family "notifiers.slack.url")
allow_config_key_iff_example = Allowlist.allow_config_key_iff "notifiers.slack.url"

normal_form_example :
    (normalize_percent_encoding (normalize_percent_encoding (codes "/%7ea%2f%2E%zz"))
      ≡ normalize_percent_encoding (codes "/%7ea%2f%2E%zz"))
    × (octets (normalize_percent_encoding (codes "/%7ea%2f%2E%zz"))
        ≡ octets (codes "/%7ea%2f%2E%zz"))
normal_form_example = Percent.normal_form (codes "/%7ea%2f%2E%zz")
