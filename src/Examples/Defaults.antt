-- ===== src/Examples/Defaults.antt =====
-- The default rules' theorems on a page that breaks on its first crawl and on a redirect chain that loops.
use rabbot_seo.Base.{ℕ, ◌≡◌, refl, true, codes, none, some, List, [], ◌∷◌, ◌<>◌, contains_string}
use rabbot_seo.Model.{Severity, critical, warning, info, open_issue, closed_issue}
use rabbot_seo.Store.Issues.{find_issue}
use rabbot_seo.Store.Issues.Keys.{UniqueKeys}
use rabbot_seo.Diff.{Snapshot}
use rabbot_seo.Rules.Engine.{Rule, Store, apply}
use rabbot_seo.Rules.Engine.Outcome.{IsRuleSet, state}
use rabbot_seo.Rules.Default.{EvalContext, status_regression, needs_rendering, redirect_loop}
use rabbot_seo.Rules.RedirectChain.{redirect_chain_info, starts_array}
use rabbot_seo.Rules.Default.Lifecycle
use rabbot_seo.Rules.Default.Lifecycle.{status_rule}

abbrev snapshot : ℕ → ℕ → Snapshot
snapshot i status = record {
  id = i;
  url_id = 7;
  http_status = status;
  redirect_chain = "[\"/a\",\"/b\",\"/a\"]";
  title = "Shoes";
  meta_description = "All shoes";
  meta_robots = "";
  x_robots_tag = "";
  canonical = "/a";
  hreflang = "";
  headings = "{\"h1\":[\"Shoes\"]}";
  word_count = 10;
  content_sha256 = "aa";
  content_simhash = 1;
  schema_types = "";
  internal_link_count = 3;
  external_link_count = 0;
  image_count = 0;
  missing_alt_count = 0;
  indexable = true;
  indexability_reason = "";
  render_mode = "server_rendered";
}

-- A crawl after which the page has the status, and before which it had none.
abbrev first_crawl : ℕ → EvalContext
first_crawl status = record {
  new = snapshot 1 status;
  old = snapshot 0 0;
  changes = [];
  quote = λ s. "\"" <> s <> "\"";
  h1_count = λ s. some 1;
  hops = λ s. some ("/a" ∷ "/b" ∷ "/a" ∷ []);
}

abbrev store : Store
store = record {
  db = record {
    issues =
        record {
          id = 1;
          url_id = 7;
          rule_id = "status_regression";
          status = open_issue;
          severity = warning;
          impact_points = 250;
          opened_at = 5;
          closed_at = none;
          last_seen_at = 5;
          detail = "{}";
        }
        ∷ [];
    next_id = 2;
    url_sites = [];
    url_segments = [];
  };
  faults = [];
}

store-UniqueKeys : UniqueKeys store.db.issues
unfolding find_issue
store-UniqueKeys = (refl, tt)

abbrev points : Severity → ℕ
points critical = 1000
points warning = 500
points info = 200

abbrev others : List (Rule EvalContext)
others = record { id = "needs_rendering"; eval = needs_rendering } ∷ []

two_rules-IsRuleSet : IsRuleSet (first_crawl 200) (status_rule ∷ others)
unfolding status_regression needs_rendering
two_rules-IsRuleSet = (refl, refl, (refl, refl, tt))

status_issue_follows_example :
    state (
      find_issue 7 "status_regression"
        (apply (status_rule ∷ others) 7 points 10 (first_crawl 200) store).1.db.issues)
    ≡ some (closed_issue, 5)
unfolding find_issue
status_issue_follows_example =
    Lifecycle.status_issue_follows 7 points 10 (first_crawl 200) others store refl store-UniqueKeys
      two_rules-IsRuleSet refl

looping : (redirect_loop (first_crawl 200)).failed ≡ true
unfolding redirect_loop redirect_chain_info contains_string
looping = refl

array : starts_array (codes "[\"/a\",\"/b\",\"/a\"]") ≡ true
unfolding starts_array
array = refl
