-- ===== src/Frontier/Robots/Kept.antt =====
-- What the cache answers without a fetch.
use mathlib.Core.Path.{subst}
use mathlib.Core.Option.{some-injective}
use rabbot_seo.Base.{
  ℕ, ◌+◌, ◌≤◌, ◌<◌, ◌≡◌, refl, sym, ap, ◌∙◌, ◌⊎◌, String, Bool, true, Option, none, some, ltb, leb,
  ◌==◌, if◌then◌else◌, str_eq, eq_iff, arith, Bool-cases, inl, inr,
}
use rabbot_seo.Frontier.Robots.{
  RobotsEntry, RobotsCache, RawAnswer, Stage, looking, waiting, fetching, stored, returned,
  cancelled, World, Move, turn, answer, cancel, pass, put_at, put_key, origin, at_stage,
  wait_or_lead, look, store, close, turn_at, answer_at, cancel_at, advance, Reachable, begin, next,
  fetch_entry, Url, negative_ttl,
}
use rabbot_seo.Frontier.Robots.Flight.{eq_self, moved}

module _ {G : Type 0} where
  abbrev has_begun : ℕ → Stage G → Bool
  has_begun now (fetching started) = leb started now
  has_begun now _ = true

module _ {D G : Type 0} (rc : RobotsCache D G) (url_of : ℕ → Url) where
  -- In the history of a world the origin gave an answer to a call that was fetching since a time.
  pub Gave : (w : World G) → Reachable rc url_of w → ℕ → ℕ → RawAnswer → Type 0
  Gave w (begin now) t started a = ⊥
  Gave w (next m w1 w2 r h) t started a =
      ((m ≡ answer t a) × (w1.stage t ≡ fetching started)) ⊎ Gave w1 r t started a

  -- The entry is the verdict on an answer of the origin to a call that began fetching by `now`.
  pub record Came (gave : ℕ → ℕ → RawAnswer → Type 0) (o : String) (now : ℕ) (e : RobotsEntry G)
      : Type 0 where
    pub by : ℕ
    pub started : ℕ
    pub given : RawAnswer
    pub answered : gave by started given
    pub at_origin : origin rc url_of by ≡ o
    pub made : e ≡ fetch_entry rc (url_of by) started given
    pub past : started ≤ now

  record IsTrue (gave : ℕ → ℕ → RawAnswer → Type 0) (w : World G) : Type 0 where
    kept : (o : String) (e : RobotsEntry G) → w.hosts o ≡ some e → Came gave o w.now e
    times : (t : ℕ) → has_begun w.now (w.stage t) ≡ true

  module _ (gave : ℕ → ℕ → RawAnswer → Type 0) where
    staged-IsTrue :
        (t : ℕ) (s : Stage G) (w : World G) (f : String → Option ℕ) (d : ℕ → Bool)
        → has_begun w.now s ≡ true
        → IsTrue gave w
        → IsTrue gave (moved rc url_of t s w w.hosts f d)
    staged-IsTrue t s w f d h v = record {
      kept = v.kept;
      times = λ n. elim (Bool-cases (n == t)) [
        | inl same ↦ rw same h
        | inr other ↦ rw other (v.times n)
      ];
    }

    store-IsTrue :
        (t started : ℕ) (a : RawAnswer) (w : World G)
        → gave t started a
        → w.stage t ≡ fetching started
        → IsTrue gave w
        → IsTrue gave (store rc url_of t (fetch_entry rc (url_of t) started a) w)
    unfolding store
    store-IsTrue t started a w g at v =
        let e = fetch_entry rc (url_of t) started a in
        let begun : leb started w.now ≡ true = rw at at (v.times t) in
        record {
          kept = λ o x h. elim (Bool-cases (str_eq o (origin rc url_of t))) [
            | inl same ↦ record {
              by = t;
              started = started;
              given = a;
              answered = g;
              at_origin = sym ((eq_iff o (origin rc url_of t)).0 same);
              made = sym (some-injective e x (rw same at h));
              past = ground arith;
            }
            | inr other ↦ v.kept o x (rw other at h)
          ];
          times = λ n. elim (Bool-cases (n == t)) [
            | inl same ↦ rw same refl
            | inr other ↦ rw other (v.times n)
          ];
        }

    wait_or_lead-IsTrue :
        (t : ℕ) (w : World G) (o : Option ℕ)
        → IsTrue gave w
        → IsTrue gave (wait_or_lead rc url_of t w o)
    unfolding wait_or_lead
    wait_or_lead-IsTrue t w (some l) v = staged-IsTrue t (waiting l) w w.in_flight w.done refl v
    wait_or_lead-IsTrue t w none v =
        staged-IsTrue t (fetching w.now) w (put_key (origin rc url_of t) (some t) w.in_flight)
          w.done (ground arith) v

    look-IsTrue :
        (t : ℕ) (w : World G) (o : Option (RobotsEntry G))
        → IsTrue gave w
        → IsTrue gave (look rc url_of t w o)
    unfolding look
    look-IsTrue t w none v = wait_or_lead-IsTrue t w (w.in_flight (origin rc url_of t)) v
    look-IsTrue t w (some e) v = elim (Bool-cases (ltb w.now e.expires_at)) [
      | inl fresh ↦ rw fresh (staged-IsTrue t (returned e) w w.in_flight w.done refl v)
      | inr stale ↦ rw stale (wait_or_lead-IsTrue t w (w.in_flight (origin rc url_of t)) v)
    ]

    turn-IsTrue :
        (t : ℕ) (s : Stage G) (w w' : World G)
        → turn_at rc url_of t w s ≡ some w'
        → IsTrue gave w
        → IsTrue gave w'
    unfolding turn_at close
    turn-IsTrue t looking w w' h v =
        subst (λ x. IsTrue gave x)
          (some-injective (look rc url_of t w (w.hosts (origin rc url_of t))) w' h)
          (look-IsTrue t w (w.hosts (origin rc url_of t)) v)
    turn-IsTrue t (waiting l) w w' h v = elim (Bool-cases (w.done l)) [
      | inl closed ↦
          subst (λ x. IsTrue gave x)
            (some-injective (at_stage rc url_of t looking w) w' (rw closed at h))
            (staged-IsTrue t looking w w.in_flight w.done refl v)
      | inr still ↦ let h' = rw still at h in cc
    ]
    turn-IsTrue t (stored e) w w' h v =
        subst (λ x. IsTrue gave x) (some-injective (close rc url_of t e w) w' h)
          (staged-IsTrue t (returned e) w w.in_flight (put_at t true w.done) refl v)
    turn-IsTrue t (fetching started) w w' h v = cc
    turn-IsTrue t (returned e) w w' h v = cc
    turn-IsTrue t cancelled w w' h v = cc

    answer-IsTrue :
        (t : ℕ) (a : RawAnswer) (s : Stage G) (w w' : World G)
        → ((started : ℕ) → w.stage t ≡ fetching started → gave t started a)
        → w.stage t ≡ s
        → answer_at rc url_of t a w s ≡ some w'
        → IsTrue gave w
        → IsTrue gave w'
    unfolding answer_at
    answer-IsTrue t a (fetching started) w w' g at h v =
        subst (λ x. IsTrue gave x)
          (some-injective (store rc url_of t (fetch_entry rc (url_of t) started a) w) w' h)
          (store-IsTrue t started a w (g started at) at v)
    answer-IsTrue t a looking w w' g at h v = cc
    answer-IsTrue t a (waiting l) w w' g at h v = cc
    answer-IsTrue t a (stored e) w w' g at h v = cc
    answer-IsTrue t a (returned e) w w' g at h v = cc
    answer-IsTrue t a cancelled w w' g at h v = cc

    cancel-IsTrue :
        (t : ℕ) (s : Stage G) (w w' : World G)
        → cancel_at rc url_of t w s ≡ some w'
        → IsTrue gave w
        → IsTrue gave w'
    unfolding cancel_at
    cancel-IsTrue t (waiting l) w w' h v =
        subst (λ x. IsTrue gave x) (some-injective (at_stage rc url_of t cancelled w) w' h)
          (staged-IsTrue t cancelled w w.in_flight w.done refl v)
    cancel-IsTrue t looking w w' h v = cc
    cancel-IsTrue t (fetching started) w w' h v = cc
    cancel-IsTrue t (stored e) w w' h v = cc
    cancel-IsTrue t (returned e) w w' h v = cc
    cancel-IsTrue t cancelled w w' h v = cc

    begun_later : (now d : ℕ) (s : Stage G) → has_begun now s ≡ true → has_begun (now + d) s ≡ true
    begun_later now d (fetching started) h = ground arith
    begun_later now d looking h = refl
    begun_later now d (waiting l) h = refl
    begun_later now d (stored e) h = refl
    begun_later now d (returned e) h = refl
    begun_later now d cancelled h = refl

    pass-IsTrue : (d : ℕ) (w : World G) → IsTrue gave w → IsTrue gave (record w { now = w.now + d })
    pass-IsTrue d w v = record {
      kept = λ o e h.
          let c = v.kept o e h in
          record {
            by = c.by;
            started = c.started;
            given = c.given;
            answered = c.answered;
            at_origin = c.at_origin;
            made = c.made;
            past = omega (arith, c.past);
          };
      times = λ n. begun_later w.now d (w.stage n) (v.times n);
    }

    advance-IsTrue :
        (m : Move) (w w' : World G)
        → ((t started : ℕ) (a : RawAnswer)
            → m ≡ answer t a
            → w.stage t ≡ fetching started
            → gave t started a)
        → advance rc url_of m w ≡ some w'
        → IsTrue gave w
        → IsTrue gave w'
    unfolding advance
    advance-IsTrue (turn t) w w' g h v = turn-IsTrue t (w.stage t) w w' h v
    advance-IsTrue (answer t a) w w' g h v =
        answer-IsTrue t a (w.stage t) w w' (λ started at. g t started a refl at) refl h v
    advance-IsTrue (cancel t) w w' g h v = cancel-IsTrue t (w.stage t) w w' h v
    advance-IsTrue (pass d) w w' g h v =
        subst (λ x. IsTrue gave x) (some-injective (record w { now = w.now + d }) w' h)
          (pass-IsTrue d w v)

  earlier-IsTrue :
      (gave gave' : ℕ → ℕ → RawAnswer → Type 0) (w : World G)
      → ((t started : ℕ) (a : RawAnswer) → gave t started a → gave' t started a)
      → IsTrue gave w
      → IsTrue gave' w
  earlier-IsTrue gave gave' w more v = record {
    kept = λ o e h.
        let c = v.kept o e h in
        record {
          by = c.by;
          started = c.started;
          given = c.given;
          answered = more c.by c.started c.given c.answered;
          at_origin = c.at_origin;
          made = c.made;
          past = c.past;
        };
    times = v.times;
  }

  Reachable-IsTrue : (w : World G) (r : Reachable rc url_of w) → IsTrue (Gave w r) w
  unfolding Gave
  Reachable-IsTrue w (begin now) = record { kept = λ o e h. cc; times = λ t. refl }
  Reachable-IsTrue w (next m w1 w2 r h) =
      advance-IsTrue (Gave w (next m w1 w2 r h)) m w1 w (λ t started a same at. inl (same, at)) h
        (earlier-IsTrue (Gave w1 r) (Gave w (next m w1 w2 r h)) w1 (λ t started a g. inr g)
          (Reachable-IsTrue w1 r))

  -- The longest time that an entry is kept.
  abbrev pub longest_ttl : ℕ
  longest_ttl = if leb rc.ttl negative_ttl then negative_ttl else rc.ttl

  expires_soon :
      (u : Url) (now : ℕ) (a : RawAnswer) → (fetch_entry rc u now a).expires_at ≤ now + longest_ttl
  unfolding fetch_entry
  expires_soon u now a = ground arith

  not_returned :
      (t : ℕ) (w : World G) (o : Option ℕ) (e : RobotsEntry G)
      → ¬ ((wait_or_lead rc url_of t w o).stage t ≡ returned e)
  unfolding wait_or_lead
  not_returned t w (some l) e h = let h' = rw (eq_self t) at h in cc
  not_returned t w none e h = let h' = rw (eq_self t) at h in cc

  -- The entry that a look at the map returns.
  looked_up :
      (t : ℕ) (w : World G) (o : Option (RobotsEntry G)) (e : RobotsEntry G)
      → (look rc url_of t w o).stage t ≡ returned e
      → (o ≡ some e) × (w.now < e.expires_at)
  unfolding look
  looked_up t w none e h = absurd (not_returned t w (w.in_flight (origin rc url_of t)) e h)
  looked_up t w (some x) e h = elim (Bool-cases (ltb w.now x.expires_at)) [
    | inl fresh ↦
        let h' : returned x ≡ returned e = rw (fresh, eq_self t) at h in
        let same : x ≡ e = cc in
        (ap some same, subst (λ y. w.now < y.expires_at) same (ground arith))
    | inr stale ↦ absurd (not_returned t w (w.in_flight (origin rc url_of t)) e (rw stale at h))
  ]

  -- In whatever order calls, answers, cancellations and time have gone on from a new cache: what a call
  -- returns without a fetch is the verdict on an answer that is in that history: its origin gave it to a call
  -- that began fetching less than the longest time to live ago.
  pub hit_is_recent :
      (w w' : World G) (t : ℕ) (e : RobotsEntry G)
      → (r : Reachable rc url_of w) → w.stage t ≡ looking
      → advance rc url_of (turn t) w ≡ some w'
      → w'.stage t ≡ returned e
      → (c : Came (Gave w r) (origin rc url_of t) w.now e) × (w.now < c.started + longest_ttl)
  unfolding advance turn_at
  hit_is_recent w w' t e r at h out =
      let found = w.hosts (origin rc url_of t) in
      let step : look rc url_of t w found ≡ w' =
        some-injective (look rc url_of t w found) w' (rw at at h) in
      let hit = looked_up t w found e (ap (λ x. x.stage t) step ∙ out) in
      let c = (Reachable-IsTrue w r).kept (origin rc url_of t) e hit.0 in
      let soon : e.expires_at ≤ c.started + longest_ttl =
        rw c.made (expires_soon (url_of c.by) c.started c.given) in
      (c, omega (arith, hit.1, soon))
