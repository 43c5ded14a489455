-- ===== src/Mutex/Exclusion.antt =====
-- At most one thread is between taking and releasing the lock.
use smalt_mcp.Prelude.{
  ℕ, ◌≡◌, ◌≢◌, refl, subst, ◌+◌, ap, sym, ◌∙◌, inl, inr, Bool-cases, arith, Bool, true, false,
  Option, none, some, is_some, List, [], ◌∷◌, ◌==◌, ==_iff, Text,
}
use mathlib.Core.Option.{some-injective}
use smalt_mcp.Mutex.{
  Phase, idle, waiting, entering, inside, leaving, Mutex, Move, ask, take_lock, enter, leave,
  release, new_mutex, set_phase, move_from, step, and_then, run_schedule,
}

-- The thread has the lock.
abbrev pub holds : Phase → Bool
holds idle = false
holds (waiting _) = false
holds (entering _) = true
holds (inside _) = true
holds leaving = true

-- The name under which the thread is to be seen as the holder.
abbrev pub shown : Phase → Option Text
shown (inside name) = some name
shown _ = none

abbrev pub is_owner : ℕ → Option ℕ → Bool
is_owner i none = false
is_owner i (some j) = i == j

abbrev pub shown_of : Option ℕ → (ℕ → Phase) → Option Text
shown_of none threads = none
shown_of (some i) threads = shown (threads i)

-- The lock has an owner exactly if it is held, the threads that hold it are the owner alone, and
-- the holder's name is what the owner shows.
pub record IsOwned (s : Mutex) (owner : Option ℕ) : Type 0 where
  pub held : s.lock_held ≡ is_some owner
  pub holders : (i : ℕ) → holds (s.threads i) ≡ is_owner i owner
  pub name : s.holder_name ≡ shown_of owner s.threads

abbrev pub IsSafe : Mutex → Type 0
IsSafe s = (owner : Option ℕ) × IsOwned s owner

pub new_mutex-IsSafe : IsSafe new_mutex
new_mutex-IsSafe = (none, record { held = refl; holders = λ i. refl; name = refl })

pub ==_refl : (i : ℕ) → (i == i) ≡ true
==_refl i = ground (arith, ==_iff i i)

-- A phase change that does not change who holds.
holders-kept :
    (i : ℕ) (phase : Phase) (threads : ℕ → Phase) (owner : Option ℕ)
    → ((j : ℕ) → holds (threads j) ≡ is_owner j owner)
    → holds phase ≡ is_owner i owner
    → (j : ℕ) → holds (set_phase i phase threads j) ≡ is_owner j owner
holders-kept i phase threads owner h k j = elim (Bool-cases (j == i)) [
  | inl e ↦ rw (e, (==_iff j i).0 e) k
  | inr e ↦ rw e (h j)
]

-- A thread that holds is the owner.
owner-holds : (i : ℕ) (owner : Option ℕ) → is_owner i owner ≡ true → owner ≡ some i
owner-holds i none h = cc
owner-holds i (some j) h = ap some (sym ((==_iff i j).0 h))

name-kept :
    (i : ℕ) (phase : Phase) (threads : ℕ → Phase) (owner : Option ℕ)
    → is_owner i owner ≡ false
    → shown_of owner (set_phase i phase threads) ≡ shown_of owner threads
name-kept i phase threads none h = refl
name-kept i phase threads (some j) h = let other : (j == i) ≡ false = ground (arith, h) in rw other

name-set :
    (i : ℕ) (phase : Phase) (threads : ℕ → Phase)
    → shown_of (some i) (set_phase i phase threads) ≡ shown phase
name-set i phase threads = rw (==_refl i)

unowned : (owner : Option ℕ) → is_some owner ≡ false → owner ≡ none
unowned none h = refl
unowned (some i) h = cc

module _ (i : ℕ) (s : Mutex) where
  ask-IsSafe :
      (name : Text)
      → s.threads i ≡ idle
      → IsSafe s
      → IsSafe (record s { threads = set_phase i (waiting name) s.threads })
  ask-IsSafe name at_idle (owner, h) =
      let free : is_owner i owner ≡ false = sym (h.holders i) ∙ ap holds at_idle in
      (
        owner,
        record {
          held = h.held;
          holders = holders-kept i _ s.threads owner h.holders (sym free);
          name = h.name ∙ sym (name-kept i _ s.threads owner free);
        },
      )

  take_lock-IsSafe :
      (name : Text)
      → s.lock_held ≡ false
      → IsSafe s
      → IsSafe (record s { lock_held = true; threads = set_phase i (entering name) s.threads })
  take_lock-IsSafe name free (owner, h') =
      let h = subst (IsOwned s) (unowned owner (sym h'.held ∙ free)) h' in
      (
        some i,
        record {
          held = refl;
          holders = λ j. elim (Bool-cases (j == i)) [ inl e ↦ rw e | inr e ↦ rw e (h.holders j) ];
          name = h.name ∙ sym (name-set i (entering name) s.threads);
        },
      )

  enter-IsSafe :
      (name : Text)
      → s.threads i ≡ entering name
      → IsSafe s
      → IsSafe (record s {
        holder_name = some name;
        acquires = s.acquires + 1;
        threads = set_phase i (inside name) s.threads;
      })
  enter-IsSafe name at_entering (owner, h') =
      let h =
        subst (IsOwned s) (owner-holds i owner (sym (h'.holders i) ∙ ap holds at_entering)) h' in
      (
        some i,
        record {
          held = h.held;
          holders = holders-kept i _ s.threads (some i) h.holders (sym (==_refl i));
          name = sym (name-set i (inside name) s.threads);
        },
      )

  leave-IsSafe :
      (name : Text)
      → s.threads i ≡ inside name
      → IsSafe s
      → IsSafe (record s { holder_name = none; threads = set_phase i leaving s.threads })
  leave-IsSafe name at_inside (owner, h') =
      let h =
        subst (IsOwned s) (owner-holds i owner (sym (h'.holders i) ∙ ap holds at_inside)) h' in
      (
        some i,
        record {
          held = h.held;
          holders = holders-kept i _ s.threads (some i) h.holders (sym (==_refl i));
          name = sym (name-set i leaving s.threads);
        },
      )

  release-IsSafe :
      s.threads i ≡ leaving
      → IsSafe s
      → IsSafe (record s { lock_held = false; threads = set_phase i idle s.threads })
  release-IsSafe at_leaving (owner, h') =
      let h =
        subst (IsOwned s) (owner-holds i owner (sym (h'.holders i) ∙ ap holds at_leaving)) h' in
      (
        none,
        record {
          held = refl;
          holders =
              λ j. elim (Bool-cases (j == i)) [ inl e ↦ rw e | inr e ↦ rw e (h.holders j ∙ e) ];
          name = h.name ∙ ap shown at_leaving;
        },
      )

-- Every move that a thread can make keeps the invariant.
move_from-IsSafe :
    (phase : Phase) (move : Move) (i : ℕ) (s s' : Mutex)
    → s.threads i ≡ phase
    → IsSafe s
    → move_from phase move i s ≡ some s'
    → IsSafe s'
move_from-IsSafe idle (ask name) i s s' e h q =
    subst IsSafe (some-injective _ _ q) (ask-IsSafe i s name e h)
move_from-IsSafe (waiting name) take_lock i s s' e h q = elim (Bool-cases s.lock_held) [
  | inl b ↦ let stuck : none ≡ some s' = rw b at q in cc
  | inr b ↦ subst IsSafe (some-injective _ _ (rw b at q)) (take_lock-IsSafe i s name b h)
]
move_from-IsSafe (entering name) enter i s s' e h q =
    subst IsSafe (some-injective _ _ q) (enter-IsSafe i s name e h)
move_from-IsSafe (inside name) leave i s s' e h q =
    subst IsSafe (some-injective _ _ q) (leave-IsSafe i s name e h)
move_from-IsSafe leaving release i s s' e h q =
    subst IsSafe (some-injective _ _ q) (release-IsSafe i s e h)
move_from-IsSafe idle take_lock i s s' e h q = cc
move_from-IsSafe idle enter i s s' e h q = cc
move_from-IsSafe idle leave i s s' e h q = cc
move_from-IsSafe idle release i s s' e h q = cc
move_from-IsSafe (waiting _) (ask _) i s s' e h q = cc
move_from-IsSafe (waiting _) enter i s s' e h q = cc
move_from-IsSafe (waiting _) leave i s s' e h q = cc
move_from-IsSafe (waiting _) release i s s' e h q = cc
move_from-IsSafe (entering _) (ask _) i s s' e h q = cc
move_from-IsSafe (entering _) take_lock i s s' e h q = cc
move_from-IsSafe (entering _) leave i s s' e h q = cc
move_from-IsSafe (entering _) release i s s' e h q = cc
move_from-IsSafe (inside _) (ask _) i s s' e h q = cc
move_from-IsSafe (inside _) take_lock i s s' e h q = cc
move_from-IsSafe (inside _) enter i s s' e h q = cc
move_from-IsSafe (inside _) release i s s' e h q = cc
move_from-IsSafe leaving (ask _) i s s' e h q = cc
move_from-IsSafe leaving take_lock i s s' e h q = cc
move_from-IsSafe leaving enter i s s' e h q = cc
move_from-IsSafe leaving leave i s s' e h q = cc

and_then-IsSafe :
    (o : Option Mutex) (f : Mutex → Option Mutex) (s' : Mutex)
    → ((s : Mutex) → o ≡ some s → IsSafe s)
    → ((s : Mutex) → IsSafe s → f s ≡ some s' → IsSafe s')
    → and_then o f ≡ some s'
    → IsSafe s'
and_then-IsSafe none f s' h k q = cc
and_then-IsSafe (some s) f s' h k q = k s (h s refl) q

pub run_schedule-IsSafe :
    (moves : List (ℕ × Move)) (s s' : Mutex) → IsSafe s → run_schedule moves s ≡ some s' → IsSafe s'
unfolding run_schedule step
run_schedule-IsSafe [] s s' h q = subst IsSafe (some-injective _ _ q) h
run_schedule-IsSafe ((i, move) ∷ moves) s s' h q =
    and_then-IsSafe (move_from (s.threads i) move i s) (run_schedule moves) s'
      (λ t e. move_from-IsSafe (s.threads i) move i s t refl h e)
      (λ t k e. run_schedule-IsSafe moves t s' k e) q

-- After any schedule from a new mutex, while one thread is between taking and releasing the lock, no
-- other thread is.
pub run_schedule-exclusive :
    (moves : List (ℕ × Move)) (s : Mutex) (i j : ℕ)
    → run_schedule moves new_mutex ≡ some s
    → i ≢ j
    → holds (s.threads i) ≡ true
    → holds (s.threads j) ≡ false
run_schedule-exclusive moves s i j q other held =
    let (owner, h) = run_schedule-IsSafe moves new_mutex s new_mutex-IsSafe q in
    let mine = owner-holds i owner (sym (h.holders i) ∙ held) in
    h.holders j ∙ ap (is_owner j) mine ∙ ground (arith, other, ==_iff j i)

-- After any schedule from a new mutex, while a thread is in the body of its `with`, the lock is held
-- and the holder's name is the thread's.
run_schedule-holder :
    (moves : List (ℕ × Move)) (s : Mutex) (i : ℕ) (name : Text)
    → run_schedule moves new_mutex ≡ some s
    → s.threads i ≡ inside name
    → (s.lock_held ≡ true) × (s.holder_name ≡ some name)
run_schedule-holder moves s i name q at_inside =
    let (owner, h) = run_schedule-IsSafe moves new_mutex s new_mutex-IsSafe q in
    let mine = owner-holds i owner (sym (h.holders i) ∙ ap holds at_inside) in
    (h.held ∙ ap is_some mine, h.name ∙ ap (λ o. shown_of o s.threads) mine ∙ ap shown at_inside)
