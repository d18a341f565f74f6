-- ===== src/Rules/Default.antt =====
-- internal/rules/default_rules.go and dormant_signals.go: the default rules that read a page's fields,
-- its redirects and its changes. `strconv.Quote` and `json.Unmarshal` of the trimmed text come from the
-- standard library and are fields of `EvalContext`: `h1_count` is the number of h1 headings in a stored
-- object and `hops` the texts of a stored array, none where they do not decode. The fields of the
-- source's context that only rules left out read (the page's id, its importance, the truncation of its
-- body) are left out.
-- The float64 comparisons of ratios of counts are written as comparisons of products.
pub mod Transitions
pub mod Lifecycle
use rabbot_seo.Base.{
  ℕ, suc, ◌+◌, ◌*◌, ◌-◌, String, Bool, true, false, not, ◌&&◌, ◌||◌, Option, none, some, List, [],
  ◌∷◌, ltb, leb, ◌==◌, if◌then◌else◌, str_eq, ◌<>◌, codes, is_space,
}
use rabbot_seo.Model.{Severity, critical, warning, info}
use rabbot_seo.Diff.{Snapshot, Change, has_field, itoa}
use rabbot_seo.RobotsMeta.{is_noindex}
use rabbot_seo.Rules.RedirectChain.{redirect_chain_info}
use rabbot_seo.Rules.Engine.{Finding, Rule}

pub record EvalContext : Type 0 where
  pub new : Snapshot
  pub old : Snapshot
  pub changes : List Change
  pub quote : String → String
  pub h1_count : String → Option ℕ
  pub hops : String → Option (List String)

abbrev pub pass : String → Finding
pass rule = record { rule_id = rule; failed = false; severity = info; detail = "" }

abbrev pub fail : String → Severity → String → Finding
fail rule sev detail = record { rule_id = rule; failed = true; severity = sev; detail = detail }

all_space : List ℕ → Bool
all_space [] = true
all_space (c ∷ cs) = is_space c && all_space cs

-- `strings.TrimSpace(s) == ""`
unfoldable pub is_blank : String → Bool
unfolding all_space
is_blank s = all_space (codes s)

abbrev pub old_new_detail : ℕ → ℕ → String
old_new_detail old new = "{\"old\":" <> itoa old <> ",\"new\":" <> itoa new <> "}"

-- The values of the first change of a field: `hasChange`.
unfoldable pub has_change : String → List Change → Option Change
has_change f [] = none
has_change f (c ∷ cs) = if str_eq c.field f then some c else has_change f cs

abbrev was_healthy : Snapshot → Bool
was_healthy old = not (old.id == 0) && leb 200 old.http_status && ltb old.http_status 400

unfoldable pub status_regression : EvalContext → Finding
status_regression c =
    let s = c.new.http_status in
    let detail = "{\"http_status\":" <> itoa s <> "}" in
    if leb 500 s
    then fail "status_regression" critical detail
    else if leb 400 s
    then if was_healthy c.old
      then fail "status_regression" critical detail
      else if (c.old.id == 0) || leb 400 c.old.http_status
      then fail "status_regression" warning detail
      else pass "status_regression"
    else pass "status_regression"

unfoldable pub indexability_flip : EvalContext → Finding
indexability_flip c =
    if not (c.old.id == 0) && c.old.indexable && not c.new.indexable
    then fail "indexability_flip" critical
        ("{\"reason\":" <> c.quote c.new.indexability_reason <> "}")
    else pass "indexability_flip"

unfoldable pub meta_robots_noindex : EvalContext → Finding
meta_robots_noindex c =
    if is_noindex (codes c.new.meta_robots) || is_noindex (codes c.new.x_robots_tag)
    then fail "meta_robots_noindex" critical "{\"directive\":\"noindex\"}"
    else pass "meta_robots_noindex"

abbrev quoted_change : EvalContext → Change → String
quoted_change c x = "{\"old\":" <> c.quote x.old_value <> ",\"new\":" <> c.quote x.new_value <> "}"

unfoldable pub canonical_changed : EvalContext → Finding
canonical_changed c =
    if is_blank c.new.canonical
    then fail "canonical_changed" critical "{\"canonical\":\"missing\"}"
    else elim (has_change "canonical" c.changes) [
      | none ↦ pass "canonical_changed"
      | some x ↦ fail "canonical_changed" critical (quoted_change c x)
    ]

unfoldable pub title_changed : EvalContext → Finding
title_changed c =
    if is_blank c.new.title
    then fail "title_changed" warning
        "{\"title\":\"missing\",\"finding\":\"absent\",\"note\":\"field is absent, not a change\"}"
    else elim (has_change "title" c.changes) [
      | none ↦ pass "title_changed"
      | some x ↦ fail "title_changed" warning (quoted_change c x)
    ]

unfoldable pub meta_description_changed : EvalContext → Finding
meta_description_changed c =
    if is_blank c.new.meta_description
    then fail "meta_description_changed" warning
        "{\"meta_description\":\"missing\",\"finding\":\"absent\",\"note\":\"field is absent, not a change\"}"
    else if has_field "meta_description" c.changes
    then fail "meta_description_changed" warning "{\"meta_description\":\"changed\"}"
    else pass "meta_description_changed"

-- The count of h1 headings, where the headings are extracted and decode.
abbrev h1_verdict : List Change → ℕ → Finding
h1_verdict changes n =
    if n == 0
    then fail "h1_issue" warning "{\"h1\":\"missing\"}"
    else if has_field "headings" changes
    then fail "h1_issue" warning "{\"headings\":\"changed\"}"
    else if ltb 1 n
    then fail "h1_issue" info ("{\"h1\":\"multiple\",\"count\":" <> itoa n <> "}")
    else pass "h1_issue"

unfoldable pub h1_issue : EvalContext → Finding
h1_issue c = if is_blank c.new.headings then pass "h1_issue" else elim (c.h1_count c.new.headings) [
  | none ↦ pass "h1_issue"
  | some n ↦ h1_verdict c.changes n
]

unfoldable pub broken_links_spike : EvalContext → Finding
broken_links_spike c =
    let old = c.old.internal_link_count in
    let new = c.new.internal_link_count in
    if (c.old.id == 0) || (old == 0)
    then pass "broken_links_spike"
    else if ltb (3 * old) (10 * (old - new))
    then fail "broken_links_spike" warning (old_new_detail old new)
    else pass "broken_links_spike"

unfoldable pub hreflang_invalid : EvalContext → Finding
hreflang_invalid c =
    if has_field "hreflang" c.changes
    then fail "hreflang_invalid" warning "{\"hreflang\":\"changed\"}"
    else pass "hreflang_invalid"

unfoldable pub needs_rendering : EvalContext → Finding
needs_rendering c =
    if str_eq c.new.render_mode "head_only_shell"
    then fail "needs_rendering" warning
        "{\"render_mode\":\"head_only_shell\",\"monitored\":\"head_only\"}"
    else if str_eq c.new.render_mode "client_shell"
    then fail "needs_rendering" warning
        "{\"render_mode\":\"client_shell\",\"monitored\":\"fetch_status_only\"}"
    else pass "needs_rendering"

unfoldable pub external_link_spike : EvalContext → Finding
external_link_spike c =
    let old = c.old.external_link_count in
    let new = c.new.external_link_count in
    if not (c.old.id == 0) && leb (old + 10) new && leb (2 * old) new
    then fail "external_link_spike" warning (old_new_detail old new)
    else pass "external_link_spike"

unfoldable pub image_alt_regression : EvalContext → Finding
image_alt_regression c =
    if not (c.old.id == 0) && ltb c.old.missing_alt_count c.new.missing_alt_count
    then fail "image_alt_regression" warning
        (old_new_detail c.old.missing_alt_count c.new.missing_alt_count)
    else pass "image_alt_regression"

unfoldable pub image_alt_missing : EvalContext → Finding
image_alt_missing c =
    let images = c.new.image_count in
    let missing = c.new.missing_alt_count in
    if ltb images 5
    then pass "image_alt_missing"
    else if ltb (5 * (images - missing)) (4 * images)
    then fail "image_alt_missing" info
        ("{\"images\":" <> itoa images <> ",\"missing\":" <> itoa missing <> "}")
    else pass "image_alt_missing"

abbrev chain_grew : Option (ℕ × String) → Option (ℕ × String) → Finding
chain_grew none new = pass "redirect_chain_growth"
chain_grew (some old) none = pass "redirect_chain_growth"
chain_grew (some old) (some new) =
    if not (str_eq new.1 "")
    then pass "redirect_chain_growth"
    else if ltb old.0 new.0
    then fail "redirect_chain_growth" warning (old_new_detail old.0 new.0)
    else pass "redirect_chain_growth"

unfoldable pub redirect_chain_growth : EvalContext → Finding
redirect_chain_growth c =
    if c.old.id == 0
    then pass "redirect_chain_growth"
    else chain_grew (redirect_chain_info c.hops c.old.redirect_chain)
        (redirect_chain_info c.hops c.new.redirect_chain)

unfoldable pub redirect_loop : EvalContext → Finding
redirect_loop c = elim (redirect_chain_info c.hops c.new.redirect_chain) [
  | none ↦ pass "redirect_loop"
  | some (depth, url) ↦
      if str_eq url ""
      then pass "redirect_loop"
      else fail "redirect_loop" critical
          ("{\"repeated\":" <> c.quote url <> ",\"depth\":" <> itoa depth <> "}")
]

-- The rules of `DefaultRuleSet` that are modelled, in its order.
pub default_rules : List (Rule EvalContext)
default_rules =
    record { id = "status_regression"; eval = status_regression }
    ∷ record { id = "indexability_flip"; eval = indexability_flip }
    ∷ record { id = "meta_robots_noindex"; eval = meta_robots_noindex }
    ∷ record { id = "canonical_changed"; eval = canonical_changed }
    ∷ record { id = "title_changed"; eval = title_changed }
    ∷ record { id = "meta_description_changed"; eval = meta_description_changed }
    ∷ record { id = "h1_issue"; eval = h1_issue }
    ∷ record { id = "broken_links_spike"; eval = broken_links_spike }
    ∷ record { id = "hreflang_invalid"; eval = hreflang_invalid }
    ∷ record { id = "external_link_spike"; eval = external_link_spike }
    ∷ record { id = "image_alt_regression"; eval = image_alt_regression }
    ∷ record { id = "image_alt_missing"; eval = image_alt_missing }
    ∷ record { id = "redirect_chain_growth"; eval = redirect_chain_growth }
    ∷ record { id = "redirect_loop"; eval = redirect_loop }
    ∷ record { id = "needs_rendering"; eval = needs_rendering }
    ∷ []
