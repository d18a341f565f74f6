-- ===== src/Scheduler/Interval/Backoff.antt =====
-- A failing page is never checked sooner than a healthy one, and Retry-After is honoured.
use rabbot_seo.Base.{
  ℕ, ◌+◌, ◌*◌, ◌%◌, ◌≤◌, ◌<◌, ◌≡◌, Bool, true, false, arith, some, none, Option, Bool-cases, inl,
  inr, ◌||◌, leb,
}
use rabbot_seo.Model.{FetchClass, soft_block}
use rabbot_seo.Scheduler.Interval.{
  second, clamp, next_interval, recompute_next_check, backoff_schedule, reschedule, RetryAfter,
  seconds, parse_retry_after, later, started, is_backoff_class,
}

later-le : (now at : ℕ) (d : Option ℕ) → at ≤ later now at d
later-le now at none = omega arith
later-le now at (some d) = ground arith

interval-le :
    (prev lo hi : ℕ) (changed : Bool)
    → next_interval prev changed lo hi ≤ clamp lo hi (started lo prev * 2)
unfolding next_interval clamp
interval-le prev lo hi true = ground arith
interval-le prev lo hi false = ground arith

-- A back-off is no shorter than the schedule of the same page would be after a good fetch, whether
-- or not it had changed.
pub backoff_slower :
    (prev lo hi : ℕ) (changed : Bool) (c : FetchClass) (r : RetryAfter) (now : ℕ)
    → ((recompute_next_check prev changed lo hi now).0 ≤ (backoff_schedule prev lo hi c r now).0)
      × ((recompute_next_check prev changed lo hi now).1 ≤ (backoff_schedule prev lo hi c r now).1)
unfolding recompute_next_check backoff_schedule
backoff_slower prev lo hi changed c r now =
    let longer = interval-le prev lo hi changed in
    let at = now + clamp lo hi (started lo prev * 2) * second in
    (longer, ground (arith, longer, later-le now at (parse_retry_after r now)))

later_seconds :
    (now at n : ℕ)
    → n < 9_223_372_036
    → now + n * second ≤ later now at (some (n * second % 18_446_744_073_709_551_616))
later_seconds now at n h =
    let whole : n * second % 18_446_744_073_709_551_616 ≡ n * second = omega arith in
    rw whole (ground arith)

-- A soft block that asks to be left alone for `n` seconds is left alone that long, as far as 64-bit
-- durations reach (292 years); the longest interval does not cut the wait.
pub honours_retry_after :
    (prev lo hi n : ℕ) (changed : Bool) (status now : ℕ)
    → n < 9_223_372_036
    → now + n * second ≤ (reschedule prev changed lo hi soft_block status (seconds n) now).1
unfolding reschedule backoff_schedule parse_retry_after
honours_retry_after prev lo hi n changed status now h =
    later_seconds now (now + clamp lo hi (started lo prev * 2) * second) n h

-- The next check is not due before the interval has passed.
pub reschedule_ahead :
    (prev lo hi : ℕ) (changed : Bool) (c : FetchClass) (status : ℕ) (r : RetryAfter) (now : ℕ)
    → let next = reschedule prev changed lo hi c status r now in now + next.0 * second ≤ next.1
unfolding reschedule backoff_schedule recompute_next_check
reschedule_ahead prev lo hi changed c status r now =
    let at = now + clamp lo hi (started lo prev * 2) * second in
    elim (Bool-cases (is_backoff_class c || leb 500 status)) [
      | inl failing ↦ rw failing (ground (arith, later-le now at (parse_retry_after r now)))
      | inr fine ↦ rw fine (omega arith)
    ]
