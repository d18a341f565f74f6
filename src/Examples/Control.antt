-- ===== src/Examples/Control.antt =====
-- The theorems on the proof of control, the pacing of hosts, the segments and the dot segments.
use rabbot_seo.Base.{
  ℕ, ◌+◌, ◌*◌, ◌≡◌, refl, String, Bool, true, false, Option, none, some, List, [], ◌∷◌, ltb,
  contains_string, starts_with,
}
use rabbot_seo.Base.Int.{pos}
use rabbot_seo.Frontier.Pacing
use rabbot_seo.Frontier.Pacing.{
  Factor, new, run, state_for, set_min_interval, set_host_rate, report, acquire, release,
  set_paused,
}
use rabbot_seo.Frontier.Pacing.Polite
use rabbot_seo.Frontier.Pacing.Polite.{IsPolite}
use rabbot_seo.Verify
use rabbot_seo.Verify.{World, ProofRecord, well_known, verified, throttled}
use rabbot_seo.Verify.Check.{check}
use rabbot_seo.Verify.Control
use rabbot_seo.Verify.Control.{proof_of}
use rabbot_seo.Segments.{SegmentConfig, compile, valid_name}
use rabbot_seo.Segments.Compiled
use rabbot_seo.Segments.Compiled.{said}
use rabbot_seo.Urlx.Dots.{remove_dot_segments, remove_last_segment}
use rabbot_seo.RobotsMeta.{token_eq}
use rabbot_seo.Urlx.Dots.Ends
use rabbot_seo.Urlx.Dots.Ends.{Shortens}

-- The factor in tenths.
abbrev tenths : Factor ℕ
tenths = record {
  one = 10;
  sixteen = 160;
  grown = λ y. y + 5;
  shrunk = λ y. 10;
  is_above_sixteen = λ y. ltb 160 y;
  is_below_one = λ y. ltb y 10;
  scale = λ d y. d * y;
  spacing_of = λ d. d;
}

abbrev options : Pacing.Options
options = record { per_host_rate = 10000000000; per_host_concurrency = 1 }

abbrev ops : List Pacing.Op
ops =
    set_min_interval "a.example" (pos 60000000000)
    ∷ acquire "a.example" 0
    ∷ acquire "a.example" 1
    ∷ set_host_rate "a.example" (pos 1)
    ∷ report "a.example" 2000000000 false
    ∷ release "a.example" 0
    ∷ set_paused true
    ∷ acquire "a.example" 2
    ∷ []

run-IsPolite_example :
    IsPolite tenths options 60000000000
      (state_for tenths options "a.example" (run tenths options ops new))
run-IsPolite_example = Polite.run-IsPolite tenths options "a.example" ops

abbrev web : World
web = record {
  fetch_exact = λ u. some (200, " rab_sealed\n");
  metas = λ body. some [];
  lookup_txt = λ h. none;
  to_lower = λ s. s;
  hostname = λ s. s;
  port = λ s. "";
  sealed = λ k h. "sealed";
}

abbrev attempt_options : Verify.Options
attempt_options = record { now = 7; base_override = ""; key = 1 ∷ [] }

abbrev unproved : ProofRecord
unproved = record {
  site_id = 3;
  method = well_known;
  token = "";
  state = throttled;
  verified_at = 0;
  last_reverified_at = 0;
}

check_verifies_iff_example :
    proof_of web attempt_options 3
      (check web attempt_options true 3 "a.example" well_known ((3, unproved) ∷ [])).sites
    ≡ some (record {
      site_id = 3;
      method = well_known;
      token = "rab_sealed";
      state = verified;
      verified_at = 7;
      last_reverified_at = 7;
    })
unfolding Verify.derive_token
check_verifies_iff_example =
    Control.check_verifies_iff web attempt_options 3 "a.example" well_known ((3, unproved) ∷ [])
      refl

abbrev any_path : String → Option (String → Bool)
any_path pattern = some (λ path. true)

abbrev blog : List SegmentConfig
blog = record { name = "blog"; pattern = "^/" } ∷ []

compile-said_example : said any_path (λ raw. raw) "/x" (compile any_path blog) ≡ some ("blog" ∷ [])
unfolding valid_name contains_string
compile-said_example = Compiled.compile-said any_path (λ raw. raw) "/x" blog

remove_dot_segments-Shortens_example : Shortens (47 ∷ 97 ∷ 47 ∷ 46 ∷ 46 ∷ 47 ∷ 98 ∷ [])
remove_dot_segments-Shortens_example =
    Ends.remove_dot_segments-Shortens (47 ∷ 97 ∷ 47 ∷ 46 ∷ 46 ∷ 47 ∷ 98 ∷ [])

up : remove_dot_segments (47 ∷ 97 ∷ 47 ∷ 46 ∷ 46 ∷ 47 ∷ 98 ∷ []) ≡ some (47 ∷ 98 ∷ [])
unfolding remove_dot_segments starts_with token_eq remove_last_segment
up = refl
