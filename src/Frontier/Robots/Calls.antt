-- ===== src/Frontier/Robots/Calls.antt =====
-- The calls of `entryFor`, in any order of their steps: one fetch at a time for an origin, and no call that
-- cannot return.
use mathlib.Core.Path.{subst}
use mathlib.Core.Option.{some-injective}
use rabbot_seo.Base.{
  ℕ, ◌+◌, ◌≡◌, refl, sym, ap, ◌∙◌, true, Option, none, some, ltb, arith, Bool-cases, Option-cases,
  inl, inr,
}
use rabbot_seo.Frontier.Robots.{
  RobotsEntry, RobotsCache, RawAnswer, Stage, looking, waiting, fetching, stored, returned,
  cancelled, World, Move, turn, answer, cancel, pass, put_at, origin, at_stage, wait_or_lead, look,
  store, close, turn_at, answer_at, cancel_at, advance, Reachable, begin, next, fetch_entry, Url,
}
use rabbot_seo.Frontier.Robots.Flight.{
  is_fetching, is_busy, is_awaited, IsSound, quiet-IsSound, lead-IsSound, store-IsSound, eq_self,
}

busy_if_fetching : {G : Type 0} (s : Stage G) → is_fetching s ≡ true → is_busy s ≡ true
busy_if_fetching (fetching started) h = refl
busy_if_fetching looking h = h
busy_if_fetching (waiting l) h = h
busy_if_fetching (stored e) h = refl
busy_if_fetching (returned e) h = h
busy_if_fetching cancelled h = h

module _ {D G : Type 0} (rc : RobotsCache D G) (url_of : ℕ → Url) where
  wait_or_lead-IsSound :
      (t : ℕ) (w : World G)
      → w.stage t ≡ looking
      → IsSound rc url_of w
      → IsSound rc url_of (wait_or_lead rc url_of t w (w.in_flight (origin rc url_of t)))
  unfolding wait_or_lead
  wait_or_lead-IsSound t w at v = elim (Option-cases (w.in_flight (origin rc url_of t))) [
    | inl free ↦ rw free (lead-IsSound rc url_of t w (rw at refl) free v)
    | inr (l, led) ↦
        let busy = (v.led (origin rc url_of t) l led).0 in
        rw led (
          quiet-IsSound rc url_of t (waiting l) w w.done (rw at refl) refl
            (let b = busy_if_fetching (w.stage l) busy in ground arith) (λ h. rw at at h)
            (λ n h. refl) v)
  ]

  look-IsSound :
      (t : ℕ) (w : World G) (o : Option (RobotsEntry G))
      → w.stage t ≡ looking
      → IsSound rc url_of w
      → IsSound rc url_of (look rc url_of t w o)
  unfolding look
  look-IsSound t w none at v = wait_or_lead-IsSound t w at v
  look-IsSound t w (some e) at v = elim (Bool-cases (ltb w.now e.expires_at)) [
    | inl fresh ↦ rw fresh (
        quiet-IsSound rc url_of t (returned e) w w.done (rw at refl) refl refl (λ h. rw at at h)
          (λ n h. refl) v)
    | inr stale ↦ rw stale (wait_or_lead-IsSound t w at v)
  ]

  turn-IsSound :
      (t : ℕ) (s : Stage G) (w w' : World G)
      → w.stage t ≡ s
      → turn_at rc url_of t w s ≡ some w'
      → IsSound rc url_of w
      → IsSound rc url_of w'
  unfolding turn_at close
  turn-IsSound t looking w w' at h v =
      subst (λ x. IsSound rc url_of x)
        (some-injective (look rc url_of t w (w.hosts (origin rc url_of t))) w' h)
        (look-IsSound t w (w.hosts (origin rc url_of t)) at v)
  turn-IsSound t (waiting l) w w' at h v = elim (Bool-cases (w.done l)) [
    | inl closed ↦
        subst (λ x. IsSound rc url_of x)
          (some-injective (at_stage rc url_of t looking w) w' (rw closed at h))
          (quiet-IsSound rc url_of t looking w w.done (rw at refl) refl refl (λ k. rw at at k)
            (λ n k. refl) v)
    | inr still ↦ let h' = rw still at h in cc
  ]
  turn-IsSound t (stored e) w w' at h v =
      subst (λ x. IsSound rc url_of x) (some-injective (close rc url_of t e w) w' h)
        (quiet-IsSound rc url_of t (returned e) w (put_at t true w.done) (rw at refl) refl refl
          (λ k. rw (eq_self t) refl) (λ n k. rw k refl) v)
  turn-IsSound t (fetching started) w w' at h v = cc
  turn-IsSound t (returned e) w w' at h v = cc
  turn-IsSound t cancelled w w' at h v = cc

  answer-IsSound :
      (t : ℕ) (a : RawAnswer) (s : Stage G) (w w' : World G)
      → w.stage t ≡ s
      → answer_at rc url_of t a w s ≡ some w'
      → IsSound rc url_of w
      → IsSound rc url_of w'
  unfolding answer_at
  answer-IsSound t a (fetching started) w w' at h v =
      let e = fetch_entry rc (url_of t) started a in
      subst (λ x. IsSound rc url_of x) (some-injective (store rc url_of t e w) w' h)
        (store-IsSound rc url_of t e w (rw at refl) v)
  answer-IsSound t a looking w w' at h v = cc
  answer-IsSound t a (waiting l) w w' at h v = cc
  answer-IsSound t a (stored e) w w' at h v = cc
  answer-IsSound t a (returned e) w w' at h v = cc
  answer-IsSound t a cancelled w w' at h v = cc

  cancel-IsSound :
      (t : ℕ) (s : Stage G) (w w' : World G)
      → w.stage t ≡ s
      → cancel_at rc url_of t w s ≡ some w'
      → IsSound rc url_of w
      → IsSound rc url_of w'
  unfolding cancel_at
  cancel-IsSound t (waiting l) w w' at h v =
      subst (λ x. IsSound rc url_of x) (some-injective (at_stage rc url_of t cancelled w) w' h)
        (quiet-IsSound rc url_of t cancelled w w.done (rw at refl) refl refl (λ k. rw at at k)
          (λ n k. refl) v)
  cancel-IsSound t looking w w' at h v = cc
  cancel-IsSound t (fetching started) w w' at h v = cc
  cancel-IsSound t (stored e) w w' at h v = cc
  cancel-IsSound t (returned e) w w' at h v = cc
  cancel-IsSound t cancelled w w' at h v = cc

  later :
      (w : World G) (d : ℕ) (s : Stage G)
      → is_awaited w s ≡ true
      → is_awaited (record w { now = w.now + d }) s ≡ true
  later w d (waiting l) h = h
  later w d looking h = refl
  later w d (fetching started) h = refl
  later w d (stored e) h = refl
  later w d (returned e) h = refl
  later w d cancelled h = refl

  advance-IsSound :
      (m : Move) (w w' : World G)
      → advance rc url_of m w ≡ some w'
      → IsSound rc url_of w
      → IsSound rc url_of w'
  unfolding advance
  advance-IsSound (turn t) w w' h v = turn-IsSound t (w.stage t) w w' refl h v
  advance-IsSound (answer t a) w w' h v = answer-IsSound t a (w.stage t) w w' refl h v
  advance-IsSound (cancel t) w w' h v = cancel-IsSound t (w.stage t) w w' refl h v
  advance-IsSound (pass d) w w' h v =
      subst (λ x. IsSound rc url_of x) (some-injective (record w { now = w.now + d }) w' h)
        (record {
          led = v.led;
          marked = v.marked;
          awaited = λ n. later w d (w.stage n) (v.awaited n);
        })

  pub Reachable-IsSound : (w : World G) → Reachable rc url_of w → IsSound rc url_of w
  Reachable-IsSound w (begin now) = record {
    led = λ o t h. cc;
    marked = λ t h. cc;
    awaited = λ t. refl;
  }
  Reachable-IsSound w (next m w1 w2 r h) = advance-IsSound m w1 w h (Reachable-IsSound w1 r)

  -- In whatever order calls, answers, cancellations and time go on from a new cache: two calls that fetch the
  -- file of one origin are one call.
  pub single_flight :
      (w : World G) (t t' : ℕ)
      → Reachable rc url_of w
      → is_fetching (w.stage t) ≡ true
      → is_fetching (w.stage t') ≡ true
      → origin rc url_of t ≡ origin rc url_of t'
      → t ≡ t'
  single_flight w t t' r h h' same =
      let v = Reachable-IsSound w r in
      some-injective t t' (sym (v.marked t h) ∙ ap w.in_flight same ∙ v.marked t' h')
