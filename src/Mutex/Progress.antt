-- ===== src/Mutex/Progress.antt =====
-- The lock is always given back: a thread that waits for it can get it.
use smalt_mcp.Prelude.{
  ℕ, ◌+◌, ◌≡◌, refl, ap, sym, ◌∙◌, inl, inr, Bool-cases, true, false, Option, none, some, List, [],
  ◌∷◌, ◌==◌, ==_iff, Text,
}
use smalt_mcp.Mutex.{
  Phase, idle, waiting, entering, inside, leaving, Mutex, Move, take_lock, enter, leave, release,
  new_mutex, set_phase, move_from, step, and_then, run_schedule,
}
use smalt_mcp.Mutex.Exclusion.{holds, ==_refl, IsOwned, new_mutex-IsSafe, run_schedule-IsSafe}

module _ (i : ℕ) (name : Text) where
  -- Some moves lead the thread into the body of its `with`.
  pub record Gets (s : Mutex) : Type 0 where
    pub moves : List (ℕ × Move)
    pub after : Mutex
    pub runs : run_schedule moves s ≡ some after
    pub is_inside : after.threads i ≡ inside name

  Gets-step :
      (j : ℕ) (move : Move) (s s' : Mutex)
      → move_from (s.threads j) move j s ≡ some s'
      → Gets s'
      → Gets s
  unfolding run_schedule step
  Gets-step j move s s' e g = record {
    moves = (j, move) ∷ g.moves;
    after = g.after;
    runs = ap (λ o. and_then o (run_schedule g.moves)) e ∙ g.runs;
    is_inside = g.is_inside;
  }

  set_phase-same :
      (j : ℕ) (phase : Phase) (threads : ℕ → Phase) → set_phase j phase threads j ≡ phase
  set_phase-same j phase threads = rw (==_refl j) refl

  set_phase-other :
      (j : ℕ) (phase : Phase) (threads : ℕ → Phase)
      → (i == j) ≡ false
      → threads i ≡ waiting name
      → set_phase j phase threads i ≡ waiting name
  set_phase-other j phase threads other h = rw other h

  Gets-entering : (s : Mutex) → s.threads i ≡ entering name → Gets s
  unfolding run_schedule
  Gets-entering s h =
      let s' : Mutex = record s {
        holder_name = some name;
        acquires = s.acquires + 1;
        threads = set_phase i (inside name) s.threads;
      } in
      Gets-step i enter s s' (ap (λ p. move_from p enter i s) h) (record {
        moves = [];
        after = s';
        runs = refl;
        is_inside = set_phase-same i (inside name) s.threads;
      })

  -- A thread that waits while the lock is free.
  Gets-free : (s : Mutex) → s.threads i ≡ waiting name → s.lock_held ≡ false → Gets s
  Gets-free s h free =
      let s' : Mutex = record s {
        lock_held = true;
        threads = set_phase i (entering name) s.threads;
      } in
      Gets-step i take_lock s s' (ap (λ p. move_from p take_lock i s) h ∙ rw free refl)
        (Gets-entering s' (set_phase-same i (entering name) s.threads))

  -- A thread that waits for another one, which has the lock.
  module _ (j : ℕ) (other : (i == j) ≡ false) where
    Gets-leaving : (s : Mutex) → s.threads i ≡ waiting name → s.threads j ≡ leaving → Gets s
    Gets-leaving s h k =
        let s' : Mutex = record s { lock_held = false; threads = set_phase j idle s.threads } in
        Gets-step j release s s' (ap (λ p. move_from p release j s) k)
          (Gets-free s' (set_phase-other j idle s.threads other h) refl)

    Gets-inside :
        (s : Mutex) (body : Text) → s.threads i ≡ waiting name → s.threads j ≡ inside body → Gets s
    Gets-inside s body h k =
        let s' : Mutex = record s { holder_name = none; threads = set_phase j leaving s.threads } in
        Gets-step j leave s s' (ap (λ p. move_from p leave j s) k) (
          Gets-leaving s' (set_phase-other j leaving s.threads other h)
            (set_phase-same j leaving s.threads))

    Gets-phase :
        (s : Mutex) (phase : Phase)
        → s.threads i ≡ waiting name
        → s.threads j ≡ phase
        → holds phase ≡ true
        → Gets s
    Gets-phase s (entering body) h k c =
        let s' : Mutex = record s {
          holder_name = some body;
          acquires = s.acquires + 1;
          threads = set_phase j (inside body) s.threads;
        } in
        Gets-step j enter s s' (ap (λ p. move_from p enter j s) k) (
          Gets-inside s' body (set_phase-other j (inside body) s.threads other h)
            (set_phase-same j (inside body) s.threads))
    Gets-phase s (inside body) h k c = Gets-inside s body h k
    Gets-phase s leaving h k c = Gets-leaving s h k
    Gets-phase s _ h k c = cc

  waits-not :
      (s : Mutex) (j : ℕ)
      → s.threads i ≡ waiting name
      → holds (s.threads j) ≡ true
      → (i == j) ≡ false
  waits-not s j h k = elim (Bool-cases (i == j)) [
    | inl e ↦
        let same : s.threads i ≡ s.threads j = ap s.threads ((==_iff i j).0 e) in
        let no : false ≡ true = ap holds (sym h ∙ same) ∙ k in cc
    | inr e ↦ e
  ]

  Gets-owner :
      (s : Mutex) (owner : Option ℕ)
      → IsOwned s owner
      → s.threads i ≡ waiting name
      → s.lock_held ≡ true
      → Gets s
  Gets-owner s none h at_lock locked = let no : false ≡ true = sym h.held ∙ locked in cc
  Gets-owner s (some j) h at_lock locked =
      let has_it = h.holders j ∙ ==_refl j in
      Gets-phase j (waits-not s j at_lock has_it) s (s.threads j) at_lock refl has_it

-- After any schedule from a new mutex, where a thread waits for the lock, there are moves that lead
-- this thread into the body of its `with`.
pub run_schedule-progress :
    (moves : List (ℕ × Move)) (s : Mutex) (i : ℕ) (name : Text)
    → run_schedule moves new_mutex ≡ some s
    → s.threads i ≡ waiting name
    → Gets i name s
run_schedule-progress moves s i name q at_lock =
    let (owner, h) = run_schedule-IsSafe moves new_mutex s new_mutex-IsSafe q in
    elim (Bool-cases s.lock_held) [
      | inl b ↦ Gets-owner i name s owner h at_lock b
      | inr b ↦ Gets-free i name s at_lock b
    ]
