-- ===== src/Corpus/Respects.antt =====
-- Relations between the state before an action and the state after it, and the errors with which an
-- action can end: a rule for each way to build an action.
use smalt_mcp.Prelude.{subst, ◌≡◌, Bool, true, false, Option, none, some, if◌then◌else◌}
use smalt_mcp.Corpus.Actions.{
  Failure, Outcome, done, fail, Action, pure, stop, gets, or_stop, stop_if, continue, ◌>>=◌,
}

-- A relation on states that composes.
pub record IsPreorder {W : Type 0} (R : W → W → Type 0) : Type 0 where
  pub reflexive : (u : W) → R u u
  pub transitive : (u v w : W) → R u v → R v w → R u w

-- Whatever the outcome of `m`, its states are related.
pub record Respects {W A : Type 0} (R : W → W → Type 0) (m : Action W A) : Type 0 where
  pub at : (w : W) → R w (m w).1

module _ {W A : Type 0} {R : W → W → Type 0} (order : IsPreorder R) where
  pub Respects-pure : (a : A) → Respects R (pure a)
  unfolding ◌>>=◌
  Respects-pure a = record { at = order.reflexive }

  pub Respects-stop : (e : Failure) → Respects R (stop {A = A} e)
  unfolding ◌>>=◌
  Respects-stop e = record { at = order.reflexive }

  pub Respects-gets : (f : W → A) → Respects R (gets f)
  unfolding ◌>>=◌
  Respects-gets f = record { at = order.reflexive }

  pub Respects-or_stop : (o : Option A) (e : Failure) → Respects R (or_stop o e)
  unfolding ◌>>=◌
  Respects-or_stop o e = record { at = order.reflexive }

  pub Respects-if :
      (b : Bool) (m n : Action W A) → Respects R m → Respects R n → Respects R (if b then m else n)
  Respects-if true m n h k = h
  Respects-if false m n h k = k

module _ {W : Type 0} {R : W → W → Type 0} (order : IsPreorder R) where
  pub Respects-stop_if : (b : Bool) (e : Failure) → Respects R (stop_if b e)
  unfolding ◌>>=◌
  Respects-stop_if b e = record { at = order.reflexive }

module _ {W A B : Type 0} {R : W → W → Type 0} (order : IsPreorder R) where
  Respects-continue :
      (u v : W) (r : Outcome A) (f : A → Action W B)
      → R u v
      → ((a : A) → Respects R (f a))
      → R u (continue r f v).1
  Respects-continue u v (done a) f h k = order.transitive u v _ h ((k a).at v)
  Respects-continue u v (fail e) f h k = h

  pub Respects-bind :
      (m : Action W A) (f : A → Action W B)
      → Respects R m
      → ((a : A) → Respects R (f a))
      → Respects R (m >>= f)
  unfolding ◌>>=◌
  Respects-bind m f h k = record { at = λ w. Respects-continue w (m w).1 (m w).0 f (h.at w) k }

-- Every error of `m` satisfies `P`.
pub record FailsBy {W A : Type 0} (P : Failure → Type 0) (m : Action W A) : Type 0 where
  pub at : (w : W) (e : Failure) → (m w).0 ≡ fail e → P e

module _ {W A B : Type 0} {P : Failure → Type 0} where
  FailsBy-continue :
      (v : W) (r : Outcome A) (f : A → Action W B)
      → ((e : Failure) → r ≡ fail e → P e)
      → ((a : A) → FailsBy P (f a))
      → (e : Failure) → (continue r f v).0 ≡ fail e
      → P e
  FailsBy-continue v (done a) f h k e q = (k a).at v e q
  FailsBy-continue v (fail e') f h k e q = h e (cc)

  pub FailsBy-bind :
      (m : Action W A) (f : A → Action W B)
      → FailsBy P m
      → ((a : A) → FailsBy P (f a))
      → FailsBy P (m >>= f)
  unfolding ◌>>=◌
  FailsBy-bind m f h k = record { at = λ w e q. FailsBy-continue (m w).1 (m w).0 f (h.at w) k e q }

module _ {W A : Type 0} {P : Failure → Type 0} where
  pub FailsBy-pure : (a : A) → FailsBy {W = W} P (pure a)
  unfolding ◌>>=◌
  FailsBy-pure a = record { at = λ w e q. cc }

  pub FailsBy-gets : (f : W → A) → FailsBy {W = W} P (gets f)
  unfolding ◌>>=◌
  FailsBy-gets f = record { at = λ w e q. cc }

  pub FailsBy-or_stop : (o : Option A) (e : Failure) → P e → FailsBy {W = W} P (or_stop o e)
  unfolding ◌>>=◌
  FailsBy-or_stop none e h = record { at = λ w e' q. let same : e ≡ e' = cc in subst P same h }
  FailsBy-or_stop (some a) e h = record { at = λ w e' q. cc }

  pub FailsBy-if :
      (b : Bool) (m n : Action W A) → FailsBy P m → FailsBy P n → FailsBy P (if b then m else n)
  FailsBy-if true m n h k = h
  FailsBy-if false m n h k = k

module _ {W : Type 0} {P : Failure → Type 0} where
  pub FailsBy-stop_if : (b : Bool) (e : Failure) → P e → FailsBy {W = W} P (stop_if b e)
  unfolding ◌>>=◌
  FailsBy-stop_if true e h = record { at = λ w e' q. let same : e ≡ e' = cc in subst P same h }
  FailsBy-stop_if false e h = record { at = λ w e' q. cc }
