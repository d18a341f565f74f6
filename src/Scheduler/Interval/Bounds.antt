-- ===== src/Scheduler/Interval/Bounds.antt =====
-- The adaptive interval stays in its bounds and reaches them.
use rabbot_seo.Base.{
  ℕ, zero, suc, ◌+◌, ◌*◌, ◌≤◌, ◌<◌, ◌≡◌, Bool, true, false, arith, Bool-cases, inl, inr, leb, ◌||◌,
}
use rabbot_seo.Model.{FetchClass}
use rabbot_seo.Scheduler.Interval.{
  clamp, next_interval, recompute_next_check, backoff_schedule, reschedule, RetryAfter,
  is_backoff_class, started,
}

pub clamp-bounds : (lo hi n : ℕ) → lo ≤ hi → (lo ≤ clamp lo hi n) × (clamp lo hi n ≤ hi)
unfolding clamp
clamp-bounds lo hi n h = (ground arith, ground arith)

-- Whatever a fetch brought, the interval that is stored for the page is within its bounds, if they
-- are in order.
pub reschedule_bounds :
    (prev lo hi : ℕ) (changed : Bool) (c : FetchClass) (status : ℕ) (r : RetryAfter) (now : ℕ)
    → lo ≤ hi
    → let next = (reschedule prev changed lo hi c status r now).0 in (lo ≤ next) × (next ≤ hi)
unfolding reschedule recompute_next_check backoff_schedule next_interval
reschedule_bounds prev lo hi changed c status r now h =
    elim (Bool-cases (is_backoff_class c || leb 500 status)) [
      | inl failing ↦ rw failing (clamp-bounds lo hi (started lo prev * 2) h)
      | inr fine ↦ rw fine (clamp-bounds lo hi _ h)
    ]

-- The interval after `n` checks that saw no change.
pub stable : ℕ → ℕ → ℕ → ℕ → ℕ
stable zero lo hi p = p
stable (suc n) lo hi p = stable n lo hi (next_interval p false lo hi)

-- The interval after `n` checks that each saw a change.
pub volatile : ℕ → ℕ → ℕ → ℕ → ℕ
volatile zero lo hi p = p
volatile (suc n) lo hi p = volatile n lo hi (next_interval p true lo hi)

grows :
    (lo hi p : ℕ)
    → 2 ≤ lo
    → lo ≤ p
    → p ≤ hi
    → (lo ≤ next_interval p false lo hi)
      × (next_interval p false lo hi ≤ hi)
      × ((p < hi → p < next_interval p false lo hi) × (p ≡ hi → next_interval p false lo hi ≡ hi))
unfolding next_interval clamp
grows lo hi p l a b = (ground arith, ground arith, ((λ h. ground arith), (λ h. ground arith)))

shrinks :
    (lo hi p : ℕ)
    → 0 < lo
    → lo ≤ p
    → p ≤ hi
    → (lo ≤ next_interval p true lo hi)
      × (next_interval p true lo hi ≤ hi)
      × ((lo < p → next_interval p true lo hi < p) × (p ≡ lo → next_interval p true lo hi ≡ lo))
unfolding next_interval clamp
shrinks lo hi p l a b = (ground arith, ground arith, ((λ h. ground arith), (λ h. ground arith)))

-- A page that stays as it is is in the end checked at the longest interval, and within as many checks
-- as the bounds are seconds apart; the shortest interval must be two seconds or more.
pub stable_reaches_max :
    (n lo hi p : ℕ) → 2 ≤ lo → lo ≤ p → p ≤ hi → hi ≤ p + n → stable n lo hi p ≡ hi
unfolding stable
stable_reaches_max zero lo hi p l a b h = omega arith
stable_reaches_max (suc n) lo hi p l a b h =
    let (c, d, (e, f)) = grows lo hi p l a b in
    stable_reaches_max n lo hi (next_interval p false lo hi) l c d (ground arith)

-- A page that changes at every check is in the end checked at the shortest interval.
pub volatile_reaches_min :
    (n lo hi p : ℕ) → 0 < lo → lo ≤ p → p ≤ hi → p ≤ lo + n → volatile n lo hi p ≡ lo
unfolding volatile
volatile_reaches_min zero lo hi p l a b h = omega arith
volatile_reaches_min (suc n) lo hi p l a b h =
    let (c, d, (e, f)) = shrinks lo hi p l a b in
    volatile_reaches_min n lo hi (next_interval p true lo hi) l c d (ground arith)
