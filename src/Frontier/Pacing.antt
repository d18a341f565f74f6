-- ===== src/Frontier/Pacing.antt =====
-- internal/frontier/frontier.go: how often and how many at once a host is asked. The back-off factor is a
-- float64, whose arithmetic is an argument, and golang.org/x/time/rate keeps the spacing of requests; a
-- limiter is its spacing here and the count of the limiters before it.
pub mod Polite
use rabbot_seo.Base.{
  ℕ, suc, ◌+◌, ◌*◌, ◌≤◌, String, Bool, true, false, not, ◌&&◌, ◌||◌, Option, none, some, List, [],
  ◌∷◌, ltb, leb, ◌==◌, length, keep, if◌then◌else◌, str_eq,
}
use rabbot_seo.Base.Int.{ℤ, pos, pos_part, ltb_ℤ, is_positive}

abbrev pub millisecond : ℕ
millisecond = 1000000

-- `config.MinPerHostRate`
abbrev pub min_per_host_rate : ℕ
min_per_host_rate = 250 * millisecond

-- The factor: 1.0, its products with 1.5 and 0.9, the tests against 16 and 1, and `time.Duration(float64(d) * x)`.
-- `spacing_of` is the spacing that is read back from a limiter that was set to one.
pub record Factor (F : Type 0) : Type 0 where
  pub one : F
  pub sixteen : F
  pub grown : F → F
  pub shrunk : F → F
  pub is_above_sixteen : F → Bool
  pub is_below_one : F → Bool
  pub scale : ℕ → F → ℕ
  pub spacing_of : ℕ → ℕ

pub record Options : Type 0 where
  pub per_host_rate : ℕ
  pub per_host_concurrency : ℕ

-- `spacing` is what the limiter is set to, not the distance of its requests; `slots` are the numbers of the
-- requests that hold a slot.
pub record HostState (F : Type 0) : Type 0 where
  pub limiter : ℕ
  pub spacing : ℕ
  pub slots : List ℕ
  pub base_every : ℕ
  pub throttle : F
  pub robots_floor : ℕ

pub record Frontier (F : Type 0) : Type 0 where
  pub hosts : String → Option (HostState F)
  pub paused : Bool

-- What callers ask of a frontier. A request that acquires a slot has a number, and releases it, also again.
pub data Op : Type 0 where
  set_paused : Bool → Op
  set_min_interval : String → ℤ → Op
  set_host_rate : String → ℤ → Op
  report : String → ℕ → Bool → Op
  acquire : String → ℕ → Op
  release : String → ℕ → Op

-- `New`
unfoldable pub defaulted : ℤ → ℤ → Options
defaulted rate concurrency = record {
  per_host_rate = if is_positive rate then pos_part rate else 10000 * millisecond;
  per_host_concurrency = if is_positive concurrency then pos_part concurrency else 2;
}

abbrev pub new : {F : Type 0} → Frontier F
new = record { hosts = λ h. none; paused = false }

module _ {F : Type 0} (x : Factor F) (options : Options) where
  abbrev pub fresh_state : HostState F
  fresh_state = record {
    limiter = 0;
    spacing = options.per_host_rate;
    slots = [];
    base_every = options.per_host_rate;
    throttle = x.one;
    robots_floor = 0;
  }

  abbrev pub state_for : String → Frontier F → HostState F
  state_for host f = elim (f.hosts host) [ none ↦ fresh_state | some hs ↦ hs ]

  abbrev pub put : String → HostState F → Frontier F → Frontier F
  put host hs f = record f { hosts = λ h. if str_eq h host then some hs else f.hosts h }

  unfoldable pub effective_every : HostState F → ℕ
  effective_every hs =
      let e = x.scale hs.base_every hs.throttle in
      if ltb e hs.robots_floor then hs.robots_floor else e

  -- `limiter.SetLimit`
  abbrev pub set_limit : HostState F → HostState F
  set_limit hs = record hs { spacing = effective_every hs }

  -- A lowered spacing takes a new limiter, and wakes the requests that wait on the old one.
  unfoldable pub apply_effective_limit : HostState F → HostState F
  apply_effective_limit hs =
      let want = effective_every hs in
      let current = x.spacing_of hs.spacing in
      if ltb 0 current && ltb want current
      then record hs { limiter = suc hs.limiter; spacing = want }
      else set_limit hs

  unfoldable pub floored : ℕ → HostState F → HostState F
  floored d hs =
      set_limit (record hs { robots_floor = if ltb hs.robots_floor d then d else hs.robots_floor })

  abbrev pub clamped : ℤ → ℕ
  clamped d =
      if not (is_positive d)
      then options.per_host_rate
      else if ltb (pos_part d) min_per_host_rate
      then min_per_host_rate
      else pos_part d

  unfoldable pub rated : ℤ → HostState F → HostState F
  unfolding apply_effective_limit
  rated d hs = apply_effective_limit (record hs { base_every = clamped d })

  abbrev pub backed_off : F → F
  backed_off y = let z = x.grown y in if x.is_above_sixteen z then x.sixteen else z

  abbrev pub recovering : F → F
  recovering y = let z = x.shrunk y in if x.is_below_one z then x.one else z

  unfoldable pub reported : ℕ → Bool → HostState F → HostState F
  reported latency had_error hs = set_limit (record hs {
    throttle =
        if had_error || ltb (1500 * millisecond) latency
        then backed_off hs.throttle
        else recovering hs.throttle;
  })

  -- The semaphore takes a request if it has room; otherwise the request goes on waiting.
  unfoldable pub acquired : ℕ → HostState F → HostState F
  acquired n hs =
      if ltb (length hs.slots) options.per_host_concurrency
      then record hs { slots = n ∷ hs.slots }
      else hs

  -- The `sync.Once` of a request that has released its slot does nothing.
  unfoldable pub released : ℕ → HostState F → HostState F
  released n hs = record hs { slots = keep (λ m. not (m == n)) hs.slots }

  unfoldable pub step : Op → Frontier F → Frontier F
  unfolding floored rated reported acquired released
  step (set_paused p) f = record f { paused = p }
  step (set_min_interval host d) f = put host (floored (pos_part d) (state_for host f)) f
  step (set_host_rate host d) f = put host (rated d (state_for host f)) f
  step (report host latency had_error) f =
      put host (reported latency had_error (state_for host f)) f
  step (acquire host n) f = if f.paused then f else put host (acquired n (state_for host f)) f
  step (release host n) f = put host (released n (state_for host f)) f

  unfoldable pub run : List Op → Frontier F → Frontier F
  unfolding step
  run [] f = f
  run (op ∷ ops) f = run ops (step op f)
