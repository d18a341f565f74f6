-- ===== src/Scheduler/Interval.antt =====
-- internal/scheduler/importance.go and crawl.go: the adaptive interval between two checks of a page.
-- Intervals are seconds, times and durations nanoseconds. An interval that is not positive is 0
-- here. `float64(prevInterval) * growth` is exact below 2 ^ 52 seconds: it is `prev * 3 / 2`.
pub mod Bounds
pub mod Backoff
use rabbot_seo.Base.{
  ℕ, ◌+◌, ◌*◌, ◌-◌, ◌/◌, ◌%◌, Bool, true, false, ◌&&◌, ◌||◌, Option, none, some, ltb, leb, ◌==◌,
  if◌then◌else◌,
}
use rabbot_seo.Model.{FetchClass, ok, soft_block, hard_block, unreachable}

abbrev pub second : ℕ
second = 1_000_000_000

-- The two tests that clamp: the upper bound has the last word.
unfoldable pub clamp : ℕ → ℕ → ℕ → ℕ
clamp min_interval max_interval next =
    let raised = if ltb next min_interval then min_interval else next in
    if ltb max_interval raised then max_interval else raised

abbrev pub started : ℕ → ℕ → ℕ
started min_interval prev = if prev == 0 then min_interval else prev

unfoldable pub next_interval : ℕ → Bool → ℕ → ℕ → ℕ
unfolding clamp
next_interval prev changed min_interval max_interval =
    let from = started min_interval prev in
    clamp min_interval max_interval (if changed then from / 2 else from * 3 / 2)

unfoldable pub recompute_next_check : ℕ → Bool → ℕ → ℕ → ℕ → ℕ × ℕ
unfolding next_interval
recompute_next_check prev changed min_interval max_interval now =
    let next = next_interval prev changed min_interval max_interval in (next, now + next * second)

abbrev pub is_backoff_class : FetchClass → Bool
is_backoff_class ok = false
is_backoff_class _ = true

-- A Retry-After header, trimmed, as `strconv.Atoi` and `http.ParseTime` read it.
pub data RetryAfter : Type 0 where
  absent negative unreadable : RetryAfter
  seconds date : ℕ → RetryAfter

-- The delay, a 64-bit duration: from 2 ^ 63 on it is negative.
unfoldable pub parse_retry_after : RetryAfter → ℕ → Option ℕ
parse_retry_after absent now = none
parse_retry_after negative now = none
parse_retry_after unreadable now = none
parse_retry_after (seconds n) now = some (n * second % 18_446_744_073_709_551_616)
parse_retry_after (date t) now = some (t - now)

abbrev pub is_negative : ℕ → Bool
is_negative d = leb 9_223_372_036_854_775_808 d

-- `now.Add(d).After(at)` replaces `at`.
abbrev pub later : ℕ → ℕ → Option ℕ → ℕ
later now at none = at
later now at (some d) = if is_negative d then at else if ltb at (now + d) then now + d else at

abbrev pub is_soft_block : FetchClass → Bool
is_soft_block soft_block = true
is_soft_block _ = false

-- The header is `absent` where the response has none.
unfoldable pub backoff_schedule : ℕ → ℕ → ℕ → FetchClass → RetryAfter → ℕ → ℕ × ℕ
unfolding clamp parse_retry_after
backoff_schedule prev min_interval max_interval fetch_class retry_after now =
    let next = clamp min_interval max_interval (started min_interval prev * 2) in
    let at = now + next * second in
    (
      next,
      if is_soft_block fetch_class then later now at (parse_retry_after retry_after now) else at,
    )

-- The schedule at the end of `CrawlOne`.
unfoldable pub reschedule : ℕ → Bool → ℕ → ℕ → FetchClass → ℕ → RetryAfter → ℕ → ℕ × ℕ
unfolding recompute_next_check backoff_schedule
reschedule prev changed min_interval max_interval fetch_class http_status retry_after now =
    if is_backoff_class fetch_class || leb 500 http_status
    then backoff_schedule prev min_interval max_interval fetch_class retry_after now
    else recompute_next_check prev changed min_interval max_interval now
