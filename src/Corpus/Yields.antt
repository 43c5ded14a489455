-- ===== src/Corpus/Yields.antt =====
-- What holds of the result of an action that succeeds: a rule for each way to build an action.
use smalt_mcp.Prelude.{subst, ◌≡◌, refl}
use smalt_mcp.Corpus.Actions.{Outcome, done, fail, Action, pure, gets, continue, settled, ◌>>=◌}

-- Where `m` succeeds, its result satisfies `P`.
pub record Yields {W A : Type 0} (P : A → Type 0) (m : Action W A) : Type 0 where
  pub at : (w : W) (a : A) → (m w).0 ≡ done a → P a

module _ {W A : Type 0} {P : A → Type 0} where
  pub Yields-pure : (a : A) → P a → Yields {W = W} P (pure a)
  unfolding ◌>>=◌
  Yields-pure a h = record { at = λ w b q. let same : a ≡ b = cc in subst P same h }

  pub Yields-gets : (f : W → A) → ((w : W) → P (f w)) → Yields P (gets f)
  unfolding ◌>>=◌
  Yields-gets f h = record { at = λ w b q. let same : f w ≡ b = cc in subst P same (h w) }

module _ {W A B : Type 0} {Q : A → Type 0} {P : B → Type 0} where
  Yields-continue :
      (v : W) (r : Outcome A) (f : A → Action W B)
      → ((a : A) → r ≡ done a → Q a)
      → ((a : A) → Q a → Yields P (f a))
      → (b : B) → (continue r f v).0 ≡ done b
      → P b
  Yields-continue v (done a) f h k b q = (k a (h a refl)).at v b q
  Yields-continue v (fail e) f h k b q = cc

  pub Yields-bind :
      (m : Action W A) (f : A → Action W B)
      → Yields Q m
      → ((a : A) → Q a → Yields P (f a))
      → Yields P (m >>= f)
  unfolding ◌>>=◌
  Yields-bind m f h k = record { at = λ w b q. Yields-continue (m w).1 (m w).0 f (h.at w) k b q }

module _ {W A B : Type 0} {P : B → Type 0} where
  -- What stands in front does not matter.
  pub Yields-then :
      (m : Action W A) (f : A → Action W B) → ((a : A) → Yields P (f a)) → Yields P (m >>= f)
  Yields-then m f k = Yields-bind {Q = λ a. Unit {0}} m f (record { at = λ w a q. tt }) λ a h. k a

module _ {W A B : Type 0} {P : B → Type 0} where
  pub Yields-settled :
      (o : Outcome A) (f : A → Action W B)
      → ((a : A) → o ≡ done a → Yields P (f a))
      → Yields P (settled o >>= f)
  Yields-settled o f k = Yields-bind {Q = λ a. o ≡ done a} _ f (record { at = λ w a q. q }) k
