-- ===== src/App/Once.antt =====
-- The resource is made once, and every thread gets it.
use mathlib.Core.Option.{some-injective}
use smalt_mcp.Prelude.{
  ℕ, zero, suc, ◌+◌, ◌≤◌, ◌≡◌, refl, ap, ◌∙◌, sym, subst, arith, Bool, true, false, Option, none,
  some, is_some, List, [], ◌∷◌, ◌==◌, ==_iff, inl, inr, Bool-cases,
}
use smalt_mcp.App.{
  Phase, outside, looking, waiting, looking_again, constructing, leaving, raising, reading, raised,
  returned, Lazy, Move, call, look, take_lock, look_again, release, read, construct, new_lazy,
  set_at, move_from, step, after_step, run_schedule,
}

-- The thread has the lock.
abbrev holds : Phase → Bool
holds looking_again = true
holds constructing = true
holds leaving = true
holds raising = true
holds _ = false

abbrev is_owner : ℕ → Option ℕ → Bool
is_owner i none = false
is_owner i (some j) = i == j

-- What the phase of a thread says of the field.
abbrev fits : Option ℕ → Phase → Bool
fits none leaving = false
fits none reading = false
fits none (returned _) = false
fits (some k) constructing = false
fits (some k) (returned none) = false
fits (some k) (returned (some j)) = j == k
fits _ _ = true

-- The resource that was made last.
abbrev last_made : ℕ → Option ℕ
last_made zero = none
last_made (suc n) = some n

record IsOwned (s : Lazy) (owner : Option ℕ) : Type 0 where
  held : s.init_lock_held ≡ is_some owner
  holders : (i : ℕ) → holds (s.threads i) ≡ is_owner i owner
  once : s.constructed ≤ 1
  made : s.resource ≡ last_made s.constructed
  all_fit : (i : ℕ) → fits s.resource (s.threads i) ≡ true

abbrev IsSafe : Lazy → Type 0
IsSafe s = (owner : Option ℕ) × IsOwned s owner

new_lazy-IsSafe : IsSafe new_lazy
new_lazy-IsSafe = (
  none,
  record { held = refl; holders = λ i. refl; once = omega arith; made = refl; all_fit = λ i. refl },
)

-- What holds of the phase of every thread, after one thread changed its phase.
set_at-all :
    (P : ℕ → Phase → Type 0) (i : ℕ) (phase : Phase) (threads : ℕ → Phase)
    → P i phase
    → ((j : ℕ) → (j == i) ≡ false → P j (threads j))
    → (j : ℕ) → P j (set_at i phase threads j)
set_at-all P i phase threads h k j = elim (Bool-cases (j == i)) [
  | inl e ↦ rw e (subst (λ n. P n phase) (sym ((==_iff j i).0 e)) h)
  | inr e ↦ rw e (k j e)
]

module _ (i : ℕ) (s : Lazy) where
  -- A move that changes neither the lock nor the field.
  goes-IsSafe :
      (phase : Phase)
      → holds phase ≡ holds (s.threads i)
      → fits s.resource phase ≡ true
      → IsSafe s
      → IsSafe (record s { threads = set_at i phase s.threads })
  goes-IsSafe phase same good (owner, h) = (
    owner,
    record {
      held = h.held;
      holders =
          set_at-all (λ j p. holds p ≡ is_owner j owner) i phase s.threads (same ∙ h.holders i)
            (λ j e. h.holders j);
      once = h.once;
      made = h.made;
      all_fit =
          set_at-all (λ j p. fits s.resource p ≡ true) i phase s.threads good (λ j e. h.all_fit j);
    },
  )

  unowned : (owner : Option ℕ) → is_some owner ≡ false → owner ≡ none
  unowned none e = refl
  unowned (some j) e = cc

  take_lock-IsSafe :
      s.init_lock_held ≡ false
      → IsSafe s
      → IsSafe (record s { init_lock_held = true; threads = set_at i looking_again s.threads })
  take_lock-IsSafe free (owner, h) =
      let nobody = unowned owner (sym h.held ∙ free) in
      (
        some i,
        record {
          held = refl;
          holders =
              set_at-all (λ j p. holds p ≡ (j == i)) i looking_again s.threads
                (ground (arith, ==_iff i i))
                (λ j e. h.holders j ∙ (ap (is_owner j) nobody ∙ sym e));
          once = h.once;
          made = h.made;
          all_fit =
              set_at-all (λ j p. fits s.resource p ≡ true) i looking_again s.threads (ground arith)
                (λ j e. h.all_fit j);
        },
      )

  -- The owner, where a thread holds the lock.
  owned : (owner : Option ℕ) → is_owner i owner ≡ true → owner ≡ some i
  owned none e = cc
  owned (some j) e = ap some (sym ((==_iff i j).0 e))

  release-IsSafe :
      (phase : Phase)
      → holds (s.threads i) ≡ true
      → holds phase ≡ false
      → fits s.resource phase ≡ true
      → IsSafe s
      → IsSafe (record s { init_lock_held = false; threads = set_at i phase s.threads })
  release-IsSafe phase had gives good (owner, h) =
      let mine = owned owner (sym (h.holders i) ∙ had) in
      (
        none,
        record {
          held = refl;
          holders =
              set_at-all (λ j p. holds p ≡ false) i phase s.threads gives
                (λ j e. h.holders j ∙ (ap (is_owner j) mine ∙ e));
          once = h.once;
          made = h.made;
          all_fit =
              set_at-all (λ j p. fits s.resource p ≡ true) i phase s.threads good
                (λ j e. h.all_fit j);
        },
      )

  -- The thread that makes the resource finds none, and no other thread is about to make one.
  fits-made : (k : ℕ) (p : Phase) → fits none p ≡ true → holds p ≡ false → fits (some k) p ≡ true
  fits-made k (returned o) h free = cc
  fits-made k constructing h free = cc
  fits-made k outside h free = refl
  fits-made k looking h free = refl
  fits-made k waiting h free = refl
  fits-made k looking_again h free = refl
  fits-made k leaving h free = refl
  fits-made k raising h free = refl
  fits-made k reading h free = refl
  fits-made k raised h free = refl

  none_made : (o : Option ℕ) (n : ℕ) → o ≡ last_made n → fits o constructing ≡ true → n ≡ 0
  none_made o zero e h = refl
  none_made o (suc n) e h =
      let some_made : fits (some n) constructing ≡ true =
        ap (λ z. fits z constructing) (sym e) ∙ h in
      cc

  construct-IsSafe :
      s.threads i ≡ constructing
      → IsSafe s
      → IsSafe (record s {
        resource = some s.constructed;
        constructed = s.constructed + 1;
        threads = set_at i leaving s.threads;
      })
  construct-IsSafe here (owner, h) =
      let mine = owned owner (sym (h.holders i) ∙ ap holds here) in
      let fresh = ap (fits s.resource) (sym here) ∙ h.all_fit i in
      let first = none_made s.resource s.constructed h.made fresh in
      let nothing : s.resource ≡ none = h.made ∙ ap last_made first in
      (
        owner,
        record {
          held = h.held;
          holders =
              set_at-all (λ j p. holds p ≡ is_owner j owner) i leaving s.threads
                (ap holds (sym here) ∙ h.holders i) (λ j e. h.holders j);
          once = omega (arith, first);
          made = rw first refl;
          all_fit =
              set_at-all (λ j p. fits (some s.constructed) p ≡ true) i leaving s.threads refl
                (λ j e.
                  fits-made s.constructed (s.threads j)
                    (ap (λ r. fits r (s.threads j)) (sym nothing) ∙ h.all_fit j)
                    (h.holders j ∙ (ap (is_owner j) mine ∙ e)));
        },
      )

some-fits : (o : Option ℕ) → is_some o ≡ true → (fits o reading ≡ true) × (fits o leaving ≡ true)
some-fits none h = cc
some-fits (some k) h = (refl, refl)

left-fits : (o : Option ℕ) → fits o leaving ≡ true → fits o reading ≡ true
left-fits none h = cc
left-fits (some k) h = refl

returned-fits : (o : Option ℕ) → fits o reading ≡ true → fits o (returned o) ≡ true
returned-fits none h = cc
returned-fits (some k) h = ground (arith, ==_iff k k)

-- Every move that a thread can make keeps the invariant.
move_from-IsSafe :
    (phase : Phase) (move : Move) (i : ℕ) (s s' : Lazy)
    → s.threads i ≡ phase
    → IsSafe s
    → move_from phase move i s ≡ some s'
    → IsSafe s'
move_from-IsSafe outside call i s s' e h q =
    subst IsSafe (some-injective _ _ q)
      (goes-IsSafe i s looking (ap holds (sym e)) (ground arith) h)
move_from-IsSafe looking look i s s' e h q = elim (Bool-cases (is_some s.resource)) [
  | inl b ↦
      subst IsSafe (some-injective _ _ (rw b at q))
        (goes-IsSafe i s reading (ap holds (sym e)) (some-fits s.resource b).0 h)
  | inr b ↦
      subst IsSafe (some-injective _ _ (rw b at q))
        (goes-IsSafe i s waiting (ap holds (sym e)) (ground arith) h)
]
move_from-IsSafe waiting take_lock i s s' e h q = elim (Bool-cases s.init_lock_held) [
  | inl b ↦ let stuck : none ≡ some s' = rw b at q in cc
  | inr b ↦ subst IsSafe (some-injective _ _ (rw b at q)) (take_lock-IsSafe i s b h)
]
move_from-IsSafe looking_again look_again i s s' e h q = elim (Bool-cases (is_some s.resource)) [
  | inl b ↦
      subst IsSafe (some-injective _ _ (rw b at q))
        (goes-IsSafe i s leaving (ap holds (sym e)) (some-fits s.resource b).1 h)
  | inr b ↦
      subst IsSafe (some-injective _ _ (rw b at q))
        (goes-IsSafe i s constructing (ap holds (sym e)) (ground (arith, b)) h)
]
move_from-IsSafe constructing (construct true) i s s' e h q =
    subst IsSafe (some-injective _ _ q) (construct-IsSafe i s e h)
move_from-IsSafe constructing (construct false) i s s' e h q =
    subst IsSafe (some-injective _ _ q)
      (goes-IsSafe i s raising (ap holds (sym e)) (ground arith) h)
move_from-IsSafe leaving release i s s' e (owner, h) q =
    let there = ap (fits s.resource) (sym e) ∙ h.all_fit i in
    subst IsSafe (some-injective _ _ q)
      (release-IsSafe i s reading (ap holds e) refl (left-fits s.resource there) (owner, h))
move_from-IsSafe raising release i s s' e h q =
    subst IsSafe (some-injective _ _ q)
      (release-IsSafe i s raised (ap holds e) refl (ground arith) h)
move_from-IsSafe reading read i s s' e (owner, h) q =
    let there = ap (fits s.resource) (sym e) ∙ h.all_fit i in
    subst IsSafe (some-injective _ _ q) (
      goes-IsSafe i s (returned s.resource) (ap holds (sym e)) (returned-fits s.resource there)
        (owner, h))
move_from-IsSafe _ _ i s s' e h q = cc

after_step-IsSafe :
    (o : Option Lazy) (f : Lazy → Option Lazy) (s' : Lazy)
    → ((s : Lazy) → o ≡ some s → IsSafe s)
    → ((s : Lazy) → IsSafe s → f s ≡ some s' → IsSafe s')
    → after_step o f ≡ some s'
    → IsSafe s'
after_step-IsSafe none f s' h k q = cc
after_step-IsSafe (some s) f s' h k q = k s (h s refl) q

run_schedule-IsSafe :
    (moves : List (ℕ × Move)) (s s' : Lazy) → IsSafe s → run_schedule moves s ≡ some s' → IsSafe s'
unfolding run_schedule step
run_schedule-IsSafe [] s s' h q = subst IsSafe (some-injective _ _ q) h
run_schedule-IsSafe ((i, move) ∷ moves) s s' h q =
    after_step-IsSafe (move_from (s.threads i) move i s) (run_schedule moves) s'
      (λ t e. move_from-IsSafe (s.threads i) move i s t refl h e)
      (λ t k e. run_schedule-IsSafe moves t s' k e) q

returned-same : (o r : Option ℕ) → fits o (returned r) ≡ true → (r ≡ o) × (is_some r ≡ true)
returned-same none r h = cc
returned-same (some k) none h = cc
returned-same (some k) (some j) h = (ap some ((==_iff j k).0 h), refl)

-- After any schedule of any number of threads, at most one resource was made, and a thread whose call
-- returned has a resource, the one in the field.
pub run_schedule-once :
    (moves : List (ℕ × Move)) (s : Lazy) (i : ℕ) (r : Option ℕ)
    → run_schedule moves new_lazy ≡ some s
    → s.threads i ≡ returned r
    → (s.constructed ≤ 1) × (r ≡ s.resource) × (is_some r ≡ true)
run_schedule-once moves s i r q at_end =
    let (owner, h) = run_schedule-IsSafe moves new_lazy s new_lazy-IsSafe q in
    let same = returned-same s.resource r (ap (fits s.resource) (sym at_end) ∙ h.all_fit i) in
    (h.once, same.0, same.1)
