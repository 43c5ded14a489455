-- ===== src/Corpus/Hoare.antt =====
-- What holds after an action that succeeds, of its result and its state.
use smalt_mcp.Prelude.{◌≡◌, refl, subst}
use smalt_mcp.Corpus.Actions.{Outcome, done, fail, Action, pure, gets, continue, ◌>>=◌}

-- From a state with `P`, where `m` succeeds, `Q` holds of its result and its last state.
pub record Hoare {W A : Type 0} (P : W → Type 0) (Q : A → W → Type 0) (m : Action W A)
    : Type 0 where
  pub at : (w : W) (a : A) → P w → (m w).0 ≡ done a → Q a (m w).1

module _ {W A : Type 0} {P : W → Type 0} where
  pub Hoare-pure : (a : A) → Hoare P (λ _. P) (pure a)
  unfolding ◌>>=◌
  Hoare-pure a = record { at = λ w b h q. h }

module _ {W A B : Type 0} {Q : A → W → Type 0} {R : B → W → Type 0} where
  Hoare-continue :
      (v : W) (r : Outcome A) (f : A → Action W B)
      → ((a : A) → r ≡ done a → Q a v)
      → ((a : A) → Hoare (Q a) R (f a))
      → (b : B) → (continue r f v).0 ≡ done b
      → R b (continue r f v).1
  Hoare-continue v (done a) f h k b q = (k a).at v b (h a refl) q
  Hoare-continue v (fail e) f h k b q = cc

  pub Hoare-bind :
      {P : W → Type 0} (m : Action W A) (f : A → Action W B)
      → Hoare P Q m
      → ((a : A) → Hoare (Q a) R (f a))
      → Hoare P R (m >>= f)
  unfolding ◌>>=◌
  Hoare-bind m f h k = record {
    at = λ w b p q. Hoare-continue (m w).1 (m w).0 f (λ a e. h.at w a p e) k b q;
  }

module _ {W A : Type 0} {P : W → Type 0} {Q : A → W → Type 0} where
  pub Hoare-gets : (f : W → A) → ((w : W) → P w → Q (f w) w) → Hoare P Q (gets f)
  unfolding ◌>>=◌
  Hoare-gets f k = record {
    at = λ w a h q. let same : f w ≡ a = cc in subst (λ b. Q b w) same (k w h);
  }
