-- ===== src/Alerts/Throttle.antt =====
-- internal/alerts/throttle.go: the per-recipient hourly cap. The clock's reading is an argument of
-- each call. The Go map of windows is an association list; `ts.After(now - hour)` is written
-- `now < ts + hour`.
pub mod Window
use rabbot_seo.Base.{
  ℕ, ◌+◌, String, Bool, true, false, List, [], ◌∷◌, ◌++◌, ltb, leb, ◌==◌, if◌then◌else◌, length,
  keep, str_eq,
}
use rabbot_seo.Model.{Severity, critical, severity_eq}

-- `time.Hour` in nanoseconds.
abbrev pub hour : ℕ
hour = 3_600_000_000_000

pub record Throttle : Type 0 where
  pub cap : ℕ
  pub counts : List (String × List ℕ)

unfoldable pub new_throttle : ℕ → Throttle
new_throttle hourly_cap = record { cap = hourly_cap; counts = [] }

-- `t.counts[recipient]`; a missing window is an empty one.
pub sends_for : String → List (String × List ℕ) → List ℕ
sends_for r [] = []
sends_for r ((k, sends) ∷ m) = if str_eq k r then sends else sends_for r m

pub put_sends : String → List ℕ → List (String × List ℕ) → List (String × List ℕ)
put_sends r sends [] = (r, sends) ∷ []
put_sends r sends ((k, old) ∷ m) =
    if str_eq k r then (k, sends) ∷ m else (k, old) ∷ put_sends r sends m

-- The sends that are less than an hour old.
abbrev pub prune : ℕ → List ℕ → List ℕ
prune now = keep (λ ts. ltb now (ts + hour))

-- The window part of `allow`, past its two early returns.
unfoldable pub allow_windowed : Throttle → String → ℕ → Throttle × Bool
allow_windowed t recipient now =
    let kept = prune now (sends_for recipient t.counts) in
    if leb t.cap (length kept)
    then (record t { counts = put_sends recipient kept t.counts }, false)
    else (record t { counts = put_sends recipient (kept ++ now ∷ []) t.counts }, true)

unfoldable pub allow : Throttle → String → Severity → ℕ → Throttle × Bool
unfolding allow_windowed
allow t recipient sev now =
    if severity_eq sev critical
    then (t, true)
    else if t.cap == 0
    then (t, true)
    else allow_windowed t recipient now

-- One call, as the pipeline makes it.
pub record Call : Type 0 where
  pub at : ℕ
  pub recipient : String
  pub severity : Severity

-- What a call adds to the log of grants, which is not in the code: one entry if it is not critical and allowed.
unfoldable pub granted : Throttle → Call → List (String × ℕ)
unfolding allow
granted t c =
    if severity_eq c.severity critical
    then []
    else if (allow t c.recipient c.severity c.at).1
    then (c.recipient, c.at) ∷ []
    else []

-- The grants to the non-critical calls of a sequence, newest first.
pub grants : Throttle → List (String × ℕ) → List Call → List (String × ℕ)
grants t log [] = log
grants t log (c ∷ cs) = grants (allow t c.recipient c.severity c.at).0 (granted t c ++ log) cs
