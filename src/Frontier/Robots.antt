-- ===== src/Frontier/Robots.antt =====
-- internal/frontier/robots.go: the cache of robots.txt files, with one fetch at a time for an origin. The
-- parser and the matcher of robots.txt are a library's; times are in nanoseconds.
pub mod Flight
pub mod Calls
pub mod Progress
pub mod Kept
use rabbot_seo.Base.{
  ℕ, ◌≡◌, ◌+◌, ◌*◌, String, Bool, true, false, ◌&&◌, ◌||◌, Option, none, some, List, [], ◌∷◌, ltb,
  leb, ◌==◌, if◌then◌else◌, str_eq, ◌<>◌,
}

-- 20 seconds.
abbrev pub negative_ttl : ℕ
negative_ttl = 20 * 1000000000

-- github.com/temoto/robotstxt: `D` is a parsed file and `G` a group of its rules.
pub record RobotsTxt (D G : Type 0) : Type 0 where
  pub from_bytes : String → Option D
  pub nothing : D
  pub find_group : D → String → G
  pub no_group : G
  pub test : G → String → Bool
  pub crawl_delay : G → ℕ
  pub sitemaps : D → List String

pub record RobotsEntry (G : Type 0) : Type 0 where
  pub group : Option G
  pub disallow_all : Bool
  pub fetched_at : ℕ
  pub expires_at : ℕ
  pub raw : String
  pub status : ℕ
  pub sitemaps : List String

-- The fields of a parsed URL that the cache reads.
pub record Url : Type 0 where
  pub scheme : String
  pub host : String
  pub hostname : String
  pub escaped_path : String
  pub raw_query : String

-- What `Raw` returns; `failed` is its error.
pub record RawAnswer : Type 0 where
  pub body : String
  pub status : ℕ
  pub failed : Bool

pub record RobotsCache (D G : Type 0) : Type 0 where
  pub library : RobotsTxt D G
  pub user_agent : String
  pub user_agent_func : Option (String → String)
  pub ttl : ℕ

abbrev pub origin_of : Url → String
origin_of u = u.scheme <> "://" <> u.host

abbrev pub is_server_error : ℕ → Bool
is_server_error status = leb 500 status && ltb status 600

abbrev pub is_client_error : ℕ → Bool
is_client_error status = leb 400 status && ltb status 500

module _ {D G : Type 0} (rc : RobotsCache D G) where
  abbrev pub ua_for_host : String → String
  ua_for_host host = elim rc.user_agent_func [ none ↦ rc.user_agent | some f ↦ f host ]

  abbrev pub parsed : String → D
  parsed raw = elim (rc.library.from_bytes raw) [ none ↦ rc.library.nothing | some d ↦ d ]

  -- No rules: everything is allowed, for a short time.
  abbrev pub no_rules : Url → ℕ → RawAnswer → RobotsEntry G
  no_rules u now a = record {
    group = some (rc.library.find_group rc.library.nothing (ua_for_host u.hostname));
    disallow_all = false;
    fetched_at = now;
    expires_at = now + negative_ttl;
    raw = a.body;
    status = a.status;
    sitemaps = [];
  }

  -- The entry for an answer to the fetch that began at `now`.
  unfoldable pub fetch_entry : Url → ℕ → RawAnswer → RobotsEntry G
  fetch_entry u now a =
      if a.failed
      then no_rules u now a
      else if is_server_error a.status
      then record (no_rules u now a) { group = some rc.library.no_group; disallow_all = true }
      else if is_client_error a.status
      then no_rules u now a
      else record (no_rules u now a) {
        group = some (rc.library.find_group (parsed a.body) (ua_for_host u.hostname));
        expires_at = now + rc.ttl;
        sitemaps = rc.library.sitemaps (parsed a.body);
      }

  abbrev pub tested_path : Url → String
  tested_path u =
      let path = if str_eq u.escaped_path "" then "/" else u.escaped_path in
      if str_eq u.raw_query "" then path else path <> "?" <> u.raw_query

  -- `none` is an error of `entryFor`.
  unfoldable pub allowed : Url → Option (RobotsEntry G) → Bool
  allowed u none = true
  allowed u (some e) =
      if e.disallow_all
      then false
      else elim e.group [ none ↦ true | some g ↦ rc.library.test g (tested_path u) ]

  unfoldable pub crawl_delay : Option (RobotsEntry G) → ℕ
  crawl_delay none = 0
  crawl_delay (some e) = elim e.group [ none ↦ 0 | some g ↦ rc.library.crawl_delay g ]

  pub sitemaps : Option (RobotsEntry G) → List String
  sitemaps none = []
  sitemaps (some e) = e.sitemaps

-- Where a call of `entryFor` stands. A call makes at most one in-flight marker, which has its number.
pub data Stage (G : Type 0) : Type 0 where
  looking : Stage G
  waiting : ℕ → Stage G
  fetching : ℕ → Stage G
  stored : RobotsEntry G → Stage G
  returned : RobotsEntry G → Stage G
  cancelled : Stage G

-- The maps `hosts` and `fetching`, which markers' channels are closed, and the stage of each call.
pub record World (G : Type 0) : Type 0 where
  pub now : ℕ
  pub hosts : String → Option (RobotsEntry G)
  pub in_flight : String → Option ℕ
  pub done : ℕ → Bool
  pub stage : ℕ → Stage G

-- A call goes on, the origin answers a call that fetches, the context of a call that waits ends, or time passes.
pub data Move : Type 0 where
  turn : ℕ → Move
  answer : ℕ → RawAnswer → Move
  cancel : ℕ → Move
  pass : ℕ → Move

abbrev pub put_at : {A : Type 0} → ℕ → A → (ℕ → A) → ℕ → A
put_at n a f m = if m == n then a else f m

abbrev pub put_key : {A : Type 0} → String → A → (String → A) → String → A
put_key k a f s = if str_eq s k then a else f s

abbrev pub is_fresh : {G : Type 0} → ℕ → Option (RobotsEntry G) → Bool
is_fresh now none = false
is_fresh now (some e) = ltb now e.expires_at

module _ {D G : Type 0} (rc : RobotsCache D G) (url_of : ℕ → Url) where
  abbrev pub origin : ℕ → String
  origin t = origin_of (url_of t)

  abbrev pub at_stage : ℕ → Stage G → World G → World G
  at_stage t s w = record w { stage = put_at t s w.stage }

  -- The entry is stale or absent: wait for the call that fetches, or fetch.
  unfoldable pub wait_or_lead : ℕ → World G → Option ℕ → World G
  wait_or_lead t w (some leader) = at_stage t (waiting leader) w
  wait_or_lead t w none = record (at_stage t (fetching w.now) w) {
    in_flight = put_key (origin t) (some t) w.in_flight;
  }

  -- The first locked section of the loop.
  unfoldable pub look : ℕ → World G → Option (RobotsEntry G) → World G
  unfolding wait_or_lead
  look t w none = wait_or_lead t w (w.in_flight (origin t))
  look t w (some e) =
      if ltb w.now e.expires_at
      then at_stage t (returned e) w
      else wait_or_lead t w (w.in_flight (origin t))

  -- The second one, with the entry that was fetched.
  unfoldable pub store : ℕ → RobotsEntry G → World G → World G
  store t e w = record (at_stage t (stored e) w) {
    hosts = put_key (origin t) (some e) w.hosts;
    in_flight = put_key (origin t) none w.in_flight;
  }

  unfoldable pub close : ℕ → RobotsEntry G → World G → World G
  close t e w = record (at_stage t (returned e) w) { done = put_at t true w.done }

  unfoldable pub turn_at : ℕ → World G → Stage G → Option (World G)
  unfolding look close
  turn_at t w looking = some (look t w (w.hosts (origin t)))
  turn_at t w (waiting leader) = if w.done leader then some (at_stage t looking w) else none
  turn_at t w (stored e) = some (close t e w)
  turn_at t w (fetching started) = none
  turn_at t w (returned e) = none
  turn_at t w cancelled = none

  unfoldable pub answer_at : ℕ → RawAnswer → World G → Stage G → Option (World G)
  unfolding store
  answer_at t a w (fetching started) = some (store t (fetch_entry rc (url_of t) started a) w)
  answer_at t a w s = none

  unfoldable pub cancel_at : ℕ → World G → Stage G → Option (World G)
  cancel_at t w (waiting leader) = some (at_stage t cancelled w)
  cancel_at t w s = none

  -- `none` is a move that is not possible.
  unfoldable pub advance : Move → World G → Option (World G)
  unfolding turn_at answer_at cancel_at
  advance (turn t) w = turn_at t w (w.stage t)
  advance (answer t a) w = answer_at t a w (w.stage t)
  advance (cancel t) w = cancel_at t w (w.stage t)
  advance (pass d) w = some (record w { now = w.now + d })

  -- What calls, answers and time can make of a new cache.
  pub data Reachable : World G → Type 0 where
    begin :
        (now : ℕ)
        → Reachable (record {
          now = now;
          hosts = λ o. none;
          in_flight = λ o. none;
          done = λ n. false;
          stage = λ n. looking;
        })
    next : (m : Move) (w w' : World G) → Reachable w → advance m w ≡ some w' → Reachable w'
