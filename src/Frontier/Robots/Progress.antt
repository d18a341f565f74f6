-- ===== src/Frontier/Robots/Progress.antt =====
-- A call of `entryFor` can return from wherever it stands.
use rabbot_seo.Base.{
  ℕ, suc, ◌≤◌, ◌≡◌, refl, sym, ap, true, false, ◌||◌, Option, none, some, List, [], ◌∷◌, length,
  ltb, ◌==◌, eq_iff, arith, Bool-cases, Option-cases, inl, inr,
}
use rabbot_seo.Frontier.Robots.{
  RobotsEntry, RobotsCache, RawAnswer, Stage, looking, waiting, fetching, stored, returned,
  cancelled, World, Move, turn, answer, origin, at_stage, wait_or_lead, look, store, close, turn_at,
  answer_at, advance, Reachable, next, fetch_entry, Url,
}
use rabbot_seo.Frontier.Robots.Flight.{is_fetching, is_busy, is_done, eq_self, eq_of}
use rabbot_seo.Frontier.Robots.Calls.{Reachable-IsSound}

fetching_inv :
    {G : Type 0} (s : Stage G) → is_fetching s ≡ true → (started : ℕ) × (s ≡ fetching started)
fetching_inv (fetching started) h = (started, refl)
fetching_inv looking h = cc
fetching_inv (waiting l) h = cc
fetching_inv (stored e) h = cc
fetching_inv (returned e) h = cc
fetching_inv cancelled h = cc

module _ {D G : Type 0} (rc : RobotsCache D G) (url_of : ℕ → Url) where
  unfoldable pub run : List Move → World G → Option (World G)
  run [] w = some w
  run (m ∷ ms) w = elim (advance rc url_of m w) [ none ↦ none | some w' ↦ run ms w' ]

  -- So many moves at most make the call return.
  pub record Finishes (bound t : ℕ) (w : World G) : Type 0 where
    pub moves : List Move
    pub last : World G
    pub entry : RobotsEntry G
    pub ran : run moves w ≡ some last
    pub ended : last.stage t ≡ returned entry
    pub short : length moves ≤ bound

  ended-Finishes :
      (t : ℕ) (e : RobotsEntry G) (w : World G) → w.stage t ≡ returned e → Finishes 0 t w
  unfolding run
  ended-Finishes t e w at = record {
    moves = [];
    last = w;
    entry = e;
    ran = refl;
    ended = at;
    short = omega arith;
  }

  after_move :
      (bound t : ℕ) (m : Move) (w w' : World G)
      → advance rc url_of m w ≡ some w'
      → Finishes bound t w'
      → Finishes (suc bound) t w
  unfolding run
  after_move bound t m w w' h f = record {
    moves = m ∷ f.moves;
    last = f.last;
    entry = f.entry;
    ran = rw (run, h) f.ran;
    ended = f.ended;
    short = omega (arith, f.short);
  }

  weaken : (b b' t : ℕ) (w : World G) → b ≤ b' → Finishes b t w → Finishes b' t w
  weaken b b' t w le f = record {
    moves = f.moves;
    last = f.last;
    entry = f.entry;
    ran = f.ran;
    ended = f.ended;
    short = omega (arith, f.short);
  }

  stored-Finishes :
      (t : ℕ) (e : RobotsEntry G) (w : World G) → w.stage t ≡ stored e → Finishes 1 t w
  unfolding advance turn_at close
  stored-Finishes t e w at =
      after_move 0 t (turn t) w (close rc url_of t e w) (rw at refl)
        (ended-Finishes t e (close rc url_of t e w) (rw (eq_self t) refl))

  fetching-Finishes :
      (a : RawAnswer) (t started : ℕ) (w : World G) → w.stage t ≡ fetching started → Finishes 2 t w
  unfolding advance answer_at store
  fetching-Finishes a t started w at =
      let e = fetch_entry rc (url_of t) started a in
      after_move 1 t (answer t a) w (store rc url_of t e w) (rw at refl)
        (stored-Finishes t e (store rc url_of t e w) (rw (eq_self t) refl))

  led-Finishes :
      (a : RawAnswer) (t : ℕ) (w : World G)
      → w.in_flight (origin rc url_of t) ≡ none
      → Finishes 2 t (wait_or_lead rc url_of t w (w.in_flight (origin rc url_of t)))
  unfolding wait_or_lead
  led-Finishes a t w free =
      rw free (fetching-Finishes a t w.now (wait_or_lead rc url_of t w none) (rw (eq_self t) refl))

  look-Finishes :
      (a : RawAnswer) (t : ℕ) (w : World G) (o : Option (RobotsEntry G))
      → w.in_flight (origin rc url_of t) ≡ none
      → Finishes 2 t (look rc url_of t w o)
  unfolding look
  look-Finishes a t w none free = led-Finishes a t w free
  look-Finishes a t w (some e) free = elim (Bool-cases (ltb w.now e.expires_at)) [
    | inl fresh ↦ rw fresh (
        weaken 0 2 t (at_stage rc url_of t (returned e) w) (omega arith)
          (ended-Finishes t e (at_stage rc url_of t (returned e) w) (rw (eq_self t) refl)))
    | inr stale ↦ rw stale (led-Finishes a t w free)
  ]

  free-Finishes :
      (a : RawAnswer) (t : ℕ) (w : World G)
      → w.stage t ≡ looking
      → w.in_flight (origin rc url_of t) ≡ none
      → Finishes 3 t w
  unfolding advance turn_at
  free-Finishes a t w at free =
      after_move 2 t (turn t) w (look rc url_of t w (w.hosts (origin rc url_of t))) (rw at refl)
        (look-Finishes a t w (w.hosts (origin rc url_of t)) free)

  -- The stages of two different calls; a fetch that the first waits for ends.
  other_call :
      (t l : ℕ) (w : World G)
      → is_busy (w.stage l) ≡ true
      → is_busy (w.stage t) ≡ false
      → (t == l) ≡ false
  other_call t l w busy idle = elim (Bool-cases (t == l)) [
    | inl same ↦ let b = ap (λ n. is_busy (w.stage n)) (eq_of t l same) in cc
    | inr other ↦ other
  ]

  looking-Finishes :
      (a : RawAnswer) (t : ℕ) (w : World G)
      → Reachable rc url_of w
      → w.stage t ≡ looking
      → Finishes 4 t w
  unfolding advance answer_at store
  looking-Finishes a t w r at = elim (Option-cases (w.in_flight (origin rc url_of t))) [
    | inl free ↦ weaken 3 4 t w (omega arith) (free-Finishes a t w at free)
    | inr (l, led) ↦
        let leads = (Reachable-IsSound rc url_of w r).led (origin rc url_of t) l led in
        let (started, fetches) = fetching_inv (w.stage l) leads.0 in
        let e = fetch_entry rc (url_of l) started a in
        let w' = store rc url_of l e w in
        let apart = other_call t l w (rw fetches refl) (rw at refl) in
        after_move 3 t (answer l a) w w' (rw fetches refl) (
          free-Finishes a t w' (rw apart at)
            (rw ((eq_iff (origin rc url_of t) (origin rc url_of l)).1 (sym leads.1)) refl))
  ]

  woken-Finishes :
      (a : RawAnswer) (t l : ℕ) (w : World G)
      → Reachable rc url_of w
      → w.stage t ≡ waiting l
      → w.done l ≡ true
      → Finishes 5 t w
  unfolding advance turn_at
  woken-Finishes a t l w r at closed =
      let w' = at_stage rc url_of t looking w in
      let moves : advance rc url_of (turn t) w ≡ some w' = rw (at, closed) refl in
      after_move 4 t (turn t) w w' moves
        (looking-Finishes a t w' (next (turn t) w w' r moves) (rw (eq_self t) refl))

  stored_wakes :
      (a : RawAnswer) (t l : ℕ) (e : RobotsEntry G) (w : World G)
      → Reachable rc url_of w
      → w.stage t ≡ waiting l
      → w.stage l ≡ stored e
      → Finishes 6 t w
  unfolding advance turn_at close
  stored_wakes a t l e w r at leader =
      let w' = close rc url_of l e w in
      let moves : advance rc url_of (turn l) w ≡ some w' = rw leader refl in
      let apart = other_call t l w (rw leader refl) (rw at refl) in
      after_move 5 t (turn l) w w' moves
        (woken-Finishes a t l w' (next (turn l) w w' r moves) (rw apart at) (rw (eq_self l) refl))

  fetching_wakes :
      (a : RawAnswer) (t l started : ℕ) (w : World G)
      → Reachable rc url_of w
      → w.stage t ≡ waiting l
      → w.stage l ≡ fetching started
      → Finishes 7 t w
  unfolding advance answer_at store
  fetching_wakes a t l started w r at leader =
      let e = fetch_entry rc (url_of l) started a in
      let w' = store rc url_of l e w in
      let moves : advance rc url_of (answer l a) w ≡ some w' = rw leader refl in
      let apart = other_call t l w (rw leader refl) (rw at refl) in
      after_move 6 t (answer l a) w w' moves (
        stored_wakes a t l e w' (next (answer l a) w w' r moves) (rw apart at)
          (rw (eq_self l) refl))

  leader_wakes :
      (a : RawAnswer) (t l : ℕ) (s : Stage G) (w : World G)
      → Reachable rc url_of w
      → w.stage t ≡ waiting l
      → w.stage l ≡ s
      → is_busy s ≡ true
      → Finishes 7 t w
  leader_wakes a t l (fetching started) w r at leader busy =
      fetching_wakes a t l started w r at leader
  leader_wakes a t l (stored e) w r at leader busy =
      weaken 6 7 t w (omega arith) (stored_wakes a t l e w r at leader)
  leader_wakes a t l looking w r at leader busy = cc
  leader_wakes a t l (waiting k) w r at leader busy = cc
  leader_wakes a t l (returned e) w r at leader busy = cc
  leader_wakes a t l cancelled w r at leader busy = cc

  stage-Finishes :
      (a : RawAnswer) (t : ℕ) (s : Stage G) (w : World G)
      → Reachable rc url_of w
      → w.stage t ≡ s
      → is_done s ≡ false
      → Finishes 7 t w
  stage-Finishes a t looking w r at going =
      weaken 4 7 t w (omega arith) (looking-Finishes a t w r at)
  stage-Finishes a t (fetching started) w r at going =
      weaken 2 7 t w (omega arith) (fetching-Finishes a t started w at)
  stage-Finishes a t (stored e) w r at going =
      weaken 1 7 t w (omega arith) (stored-Finishes t e w at)
  stage-Finishes a t (waiting l) w r at going =
      let heard : (w.done l || is_busy (w.stage l)) ≡ true =
        rw at at ((Reachable-IsSound rc url_of w r).awaited t) in
      elim (Bool-cases (w.done l)) [
        | inl closed ↦ weaken 5 7 t w (omega arith) (woken-Finishes a t l w r at closed)
        | inr running ↦ leader_wakes a t l (w.stage l) w r at refl (rw running at heard)
      ]
  stage-Finishes a t (returned e) w r at going = cc
  stage-Finishes a t cancelled w r at going = cc

  -- In whatever order calls, answers, cancellations and time have gone on from a new cache: a call that was
  -- not cancelled and has not returned can return within seven moves, if each origin that is asked gives
  -- some answer.
  pub call-Finishes :
      (a : RawAnswer) (w : World G) (t : ℕ)
      → Reachable rc url_of w
      → is_done (w.stage t) ≡ false
      → Finishes 7 t w
  call-Finishes a w t r going = stage-Finishes a t (w.stage t) w r refl going
