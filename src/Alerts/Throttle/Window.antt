-- ===== src/Alerts/Throttle/Window.antt =====
-- The throttle is a sliding window: no hour holds more grants to non-critical calls than the cap.
use rabbot_seo.Base.{
  ℕ, suc, ◌+◌, ◌≤◌, ◌<◌, ◌≡◌, ◌≢◌, ◌↔◌, refl, String, Bool, true, false, List, [], ◌∷◌, ◌++◌, ltb,
  leb, ◌==◌, if◌then◌else◌, ◌&&◌, length, arith, str_eq, eq_iff, eq_refl, Bool-cases, inl, inr,
}
use rabbot_seo.Model.{Severity, critical, warning, info, severity_eq}
use rabbot_seo.Alerts.Throttle.{
  hour, Throttle, new_throttle, sends_for, put_sends, prune, allow, Call, granted, grants,
}

abbrev in_hour : ℕ → ℕ → Bool
in_hour t g = leb g t && ltb t (g + hour)

-- How many of the times lie in the hour that ends at `t`.
abbrev pub sends_in_hour : ℕ → List ℕ → ℕ
sends_in_hour t [] = 0
sends_in_hour t (g ∷ gs) = let rest = sends_in_hour t gs in if in_hour t g then suc rest else rest

-- How many of the grants for a recipient lie in the hour that ends at `t`.
abbrev pub granted_in_hour : String → ℕ → List (String × ℕ) → ℕ
granted_in_hour r t [] = 0
granted_in_hour r t ((k, g) ∷ gs) =
    let rest = granted_in_hour r t gs in if str_eq k r && in_hour t g then suc rest else rest

pub sends_for-put_sends :
    (r k : String) (ws : List ℕ) (m : List (String × List ℕ))
    → sends_for k (put_sends r ws m) ≡ (if str_eq r k then ws else sends_for k m)
unfolding sends_for put_sends
sends_for-put_sends r k ws [] = refl
sends_for-put_sends r k ws ((j, old) ∷ m) =
    ground (arith, sends_for-put_sends r k ws m, eq_iff r k, eq_iff j r, eq_iff j k)

-- Pruning at `now` loses nothing that a later hour counts.
sends_in_hour-prune :
    (now t : ℕ) (ws : List ℕ) → now ≤ t → sends_in_hour t (prune now ws) ≡ sends_in_hour t ws
sends_in_hour-prune now t [] h = refl
sends_in_hour-prune now t (g ∷ gs) h = ground (arith, sends_in_hour-prune now t gs)

sends_in_hour-append :
    (t : ℕ) (xs : List ℕ) (g : ℕ)
    → sends_in_hour t (xs ++ g ∷ [])
      ≡ (if in_hour t g then suc (sends_in_hour t xs) else sends_in_hour t xs)
sends_in_hour-append t [] g = refl
sends_in_hour-append t (x ∷ xs) g = ground (arith, sends_in_hour-append t xs g)

sends_in_hour-le-length : (t : ℕ) (ws : List ℕ) → sends_in_hour t ws ≤ length ws
sends_in_hour-le-length t [] = omega arith
sends_in_hour-le-length t (g ∷ gs) = ground (arith, sends_in_hour-le-length t gs)

-- What the throttle remembers of the log at time `now`.
record Tracks (t : Throttle) (log : List (String × ℕ)) (now : ℕ) : Type 0 where
  bounded : (r : String) (at : ℕ) → granted_in_hour r at log ≤ t.cap
  remembered :
      (r : String) (at : ℕ)
      → now ≤ at
      → granted_in_hour r at log ≤ sends_in_hour at (sends_for r t.counts)

-- A window that was not full takes one more grant.
room-bounded :
    (r : String) (now at : ℕ) (t : Throttle) (log : List (String × ℕ))
    → length (prune now (sends_for r t.counts)) < t.cap
    → granted_in_hour r at log ≤ t.cap
    → (now ≤ at → granted_in_hour r at log ≤ sends_in_hour at (sends_for r t.counts))
    → granted_in_hour r at ((r, now) ∷ log) ≤ t.cap
room-bounded r now at t log room b m = ground (
  arith,
  eq_refl r,
  sends_in_hour-prune now at (sends_for r t.counts),
  sends_in_hour-le-length at (prune now (sends_for r t.counts)),
)

module _ (t : Throttle) (log : List (String × ℕ)) (now before : ℕ) (r : String) where
  denied-Tracks :
      before ≤ now
      → Tracks t log before
      → Tracks
          (record t { counts = put_sends r (prune now (sends_for r t.counts)) t.counts })
          log
          now
  denied-Tracks h v = record {
    bounded = v.bounded;
    remembered = λ k at later. ground (
      arith,
      sends_for-put_sends r k (prune now (sends_for r t.counts)) t.counts,
      eq_iff r k,
      v.remembered k at,
      sends_in_hour-prune now at (sends_for r t.counts),
    );
  }

  granted-Tracks :
      before ≤ now
      → length (prune now (sends_for r t.counts)) < t.cap
      → Tracks t log before
      → Tracks
          (record t {
            counts = put_sends r (prune now (sends_for r t.counts) ++ now ∷ []) t.counts;
          })
          ((r, now) ∷ log)
          now
  granted-Tracks h room v = record {
    bounded = λ k at. ground (
      arith,
      eq_iff r k,
      eq_refl r,
      v.bounded k at,
      room-bounded r now at t log room (v.bounded r at) (λ later. v.remembered r at (omega arith)),
    );
    remembered = λ k at later. ground (
      arith,
      sends_for-put_sends r k (prune now (sends_for r t.counts) ++ now ∷ []) t.counts,
      eq_iff r k,
      eq_refl r,
      v.remembered k at,
      sends_in_hour-append at (prune now (sends_for r t.counts)) now,
      sends_in_hour-prune now at (sends_for r t.counts),
    );
  }

step-Tracks :
    (t : Throttle) (log : List (String × ℕ)) (before : ℕ) (c : Call)
    → 0 < t.cap
    → before ≤ c.at
    → Tracks t log before
    → Tracks (allow t c.recipient c.severity c.at).0 (granted t c ++ log) c.at
unfolding allow granted
step-Tracks t log before c pos h v = elim (Bool-cases (severity_eq c.severity critical)) [
  | inl crit ↦
      rw crit
        (record { bounded = v.bounded; remembered = λ k at later. v.remembered k at (omega arith) })
  | inr capped ↦
      elim (Bool-cases (leb t.cap (length (prune c.at (sends_for c.recipient t.counts))))) [
        | inl full ↦ rw (capped, pos_cap, full) (denied-Tracks t log c.at before c.recipient h v)
        | inr room ↦
            rw (capped, pos_cap, room)
              (granted-Tracks t log c.at before c.recipient h (ground arith) v)
      ]
]
  where
    pos_cap : (t.cap == 0) ≡ false
    pos_cap = ground arith

allow-cap :
    (t : Throttle) (r : String) (sev : Severity) (now : ℕ) → (allow t r sev now).0.cap ≡ t.cap
unfolding allow
allow-cap t r sev now = ground arith

-- Times that never fall, from `before` on.
abbrev pub Ordered : ℕ → List Call → Type 0
Ordered before [] = Unit
Ordered before (c ∷ cs) = (before ≤ c.at) × Ordered c.at cs

grants_bounded :
    (t : Throttle) (log : List (String × ℕ)) (before : ℕ) (cs : List Call)
    → 0 < t.cap
    → Ordered before cs
    → Tracks t log before
    → (r : String) (at : ℕ) → granted_in_hour r at (grants t log cs) ≤ t.cap
unfolding grants
grants_bounded t log before [] pos o v r at = v.bounded r at
grants_bounded t log before (c ∷ cs) pos o v r at =
    let same = allow-cap t c.recipient c.severity c.at in
    omega (
      arith,
      same,
      grants_bounded (allow t c.recipient c.severity c.at).0 (granted t c ++ log) c.at cs
          (omega (arith, same)) o.1 (step-Tracks t log before c pos o.0 v) r at,
    )

-- Whatever calls are made of a new throttle, at times that never fall, and with a positive cap: it grants for no
-- recipient more non-critical calls than the cap in any hour, wherever the hour ends. (The pipeline may deliver
-- what the throttle refused, where it has no digest sink.)
pub hourly_cap :
    (cap : ℕ) (cs : List Call)
    → 0 < cap
    → Ordered 0 cs
    → (r : String) (at : ℕ) → granted_in_hour r at (grants (new_throttle cap) [] cs) ≤ cap
unfolding new_throttle
hourly_cap cap cs pos o r at =
    grants_bounded (new_throttle cap) [] 0 cs pos o
      (record { bounded = λ k t. omega arith; remembered = λ k t later. omega arith }) r at

-- A critical call is always allowed and leaves every window as it was.
pub critical_bypasses : (t : Throttle) (r : String) (now : ℕ) → allow t r critical now ≡ (t, true)
unfolding allow
critical_bypasses t r now = refl

-- With no cap every call is allowed.
pub uncapped_allows :
    (t : Throttle) (r : String) (sev : Severity) (now : ℕ)
    → t.cap ≡ 0
    → allow t r sev now ≡ (t, true)
unfolding allow
uncapped_allows t r sev now h = ground arith

-- One recipient's calls do not touch another's window.
pub sends_for-allow_ne :
    (t : Throttle) (r k : String) (sev : Severity) (now : ℕ)
    → r ≢ k
    → sends_for k (allow t r sev now).0.counts ≡ sends_for k t.counts
unfolding allow
sends_for-allow_ne t r k sev now h = ground (
  arith,
  eq_iff r k,
  sends_for-put_sends r k (prune now (sends_for r t.counts)) t.counts,
  sends_for-put_sends r k (prune now (sends_for r t.counts) ++ now ∷ []) t.counts,
)

-- A non-critical call is refused exactly when the recipient was already sent the cap within the
-- last hour: an old send makes room again.
pub refused_iff :
    (t : Throttle) (r : String) (sev : Severity) (now : ℕ)
    → sev ≢ critical
    → 0 < t.cap
    → ((allow t r sev now).1 ≡ false) ↔ (t.cap ≤ length (prune now (sends_for r t.counts)))
unfolding allow
refused_iff t r critical now h pos = absurd (h refl)
refused_iff t r warning now h pos = (λ e. ground arith, λ e. ground arith)
refused_iff t r info now h pos = (λ e. ground arith, λ e. ground arith)
