-- ===== src/Rules/Default/Transitions.antt =====
-- When the default rules speak: transition rules want a baseline, and a redirect problem has one voice.
use rabbot_seo.Base.{◌≡◌, true, false, arith}
use rabbot_seo.Rules.Default.{
  EvalContext, indexability_flip, broken_links_spike, external_link_spike, image_alt_regression,
  redirect_chain_growth, redirect_loop,
}

-- On the first crawl of a page no rule that compares it with the crawl before fails.
pub transitions_need_baseline :
    (c : EvalContext)
    → c.old.id ≡ 0
    → ((indexability_flip c).failed ≡ false)
      × ((broken_links_spike c).failed ≡ false)
      × ((external_link_spike c).failed ≡ false)
      × ((image_alt_regression c).failed ≡ false)
      × ((redirect_chain_growth c).failed ≡ false)
unfolding indexability_flip broken_links_spike external_link_spike image_alt_regression
    redirect_chain_growth
transitions_need_baseline c h =
    (ground arith, ground arith, ground arith, ground arith, ground arith)

-- A redirect chain that loops is reported as a loop alone.
pub loop_has_one_voice :
    (c : EvalContext) → (redirect_loop c).failed ≡ true → (redirect_chain_growth c).failed ≡ false
unfolding redirect_loop redirect_chain_growth
loop_has_one_voice c h = ground arith
