-- ===== src/Examples/RobotsFiles.antt =====
-- The theorems on the robots cache, with calls that all ask about one origin.
use rabbot_seo.Base.{ℕ, ◌+◌, ◌*◌, ◌<◌, ◌≡◌, refl, true, false, none, some, String, []}
use rabbot_seo.Frontier.Robots.{
  RobotsCache, RobotsEntry, RawAnswer, Url, World, turn, answer, looking, returned, Reachable,
  begin, next, advance, turn_at, answer_at, look, wait_or_lead, store, origin, fetch_entry,
}
use rabbot_seo.Frontier.Robots.Flight.{is_fetching, is_done}
use rabbot_seo.Frontier.Robots.Calls
use rabbot_seo.Frontier.Robots.Progress
use rabbot_seo.Frontier.Robots.Progress.{Finishes}
use rabbot_seo.Frontier.Robots.Kept
use rabbot_seo.Frontier.Robots.Kept.{Came, Gave, longest_ttl}

abbrev cache : RobotsCache String String
cache = record {
  library = record {
    from_bytes = λ s. some s;
    nothing = "";
    find_group = λ d ua. d;
    no_group = "";
    test = λ g path. true;
    crawl_delay = λ g. 0;
    sitemaps = λ d. [];
  };
  user_agent = "rabbot";
  user_agent_func = none;
  ttl = 300 * 1000000000;
}

abbrev page : ℕ → Url
page t = record {
  scheme = "https";
  host = "a.example";
  hostname = "a.example";
  escaped_path = "/";
  raw_query = "";
}

abbrev new : World String
new = record {
  now = 5;
  hosts = λ o. none;
  in_flight = λ o. none;
  done = λ n. false;
  stage = λ n. looking;
}

abbrev given : RawAnswer
given = record { body = ""; status = 200; failed = false }

abbrev led : World String
led = look cache page 0 new none

led-Reachable : Reachable cache page led
unfolding advance turn_at
led-Reachable = next (turn 0) new led (begin 5) refl

leads : is_fetching (led.stage 0) ≡ true
unfolding look wait_or_lead
leads = refl

single_flight_example : ◌≡◌ {A = ℕ} 0 0
single_flight_example = Calls.single_flight cache page led 0 0 led-Reachable leads leads refl

-- Call 1 waits for call 0.
abbrev joined : World String
joined = look cache page 1 led none

joined-Reachable : Reachable cache page joined
unfolding advance turn_at look wait_or_lead
joined-Reachable = next (turn 1) led joined led-Reachable refl

waits : is_done (joined.stage 1) ≡ false
unfolding look wait_or_lead
waits = refl

call-Finishes_example : Finishes cache page 7 1 joined
call-Finishes_example = Progress.call-Finishes cache page given joined 1 joined-Reachable waits

abbrev entry : RobotsEntry String
entry = fetch_entry cache (page 0) 5 given

abbrev kept : World String
kept = store cache page 0 entry led

kept-Reachable : Reachable cache page kept
unfolding advance answer_at look wait_or_lead
kept-Reachable = next (answer 0 given) led kept led-Reachable refl

-- Call 1 looks, and finds the entry.
abbrev hit : World String
hit = look cache page 1 kept (kept.hosts (origin cache page 1))

looks : kept.stage 1 ≡ looking
unfolding store look wait_or_lead
looks = refl

steps : advance cache page (turn 1) kept ≡ some hit
unfolding advance turn_at store look wait_or_lead
steps = refl

hits : hit.stage 1 ≡ returned entry
unfolding store look wait_or_lead fetch_entry
hits = refl

hit_is_recent_example :
    (c : Came cache page (Gave cache page kept kept-Reachable) (origin cache page 1) kept.now entry)
    × (kept.now < c.started + longest_ttl cache page)
hit_is_recent_example =
    Kept.hit_is_recent cache page kept hit 1 entry kept-Reachable looks steps hits
