-- ===== src/Tools/Replaced.antt =====
-- What `update_claim` does to the claims of a page.
use smalt_mcp.Prelude.{
  ◌≡◌, refl, ap, sym, ◌∙◌, true, false, Option, none, some, List, [], ◌∷◌, ◌++◌, inl, inr,
  Bool-cases, Text, text_eq, arith,
}
use mathlib.Core.Option.{some-injective}
use smalt_mcp.Schema.{Claim}
use smalt_mcp.Tools.Claims.{has_claim, replace_claim, kept_before}

-- The first claim with the id is `c` now, and the claims around it are as they were.
pub record IsReplaced (id : Text) (c : Claim) (claims claims' : List Claim) : Type 0 where
  pub before : List Claim
  pub old : Claim
  pub after : List Claim
  pub was : claims ≡ before ++ old ∷ after
  pub is_now : claims' ≡ before ++ c ∷ after
  pub same_id : text_eq old.id id ≡ true
  pub first : has_claim id before ≡ false

behind :
    (id : Text) (c d : Claim) (claims claims' : List Claim) (o : Option (List Claim))
    → text_eq d.id id ≡ false
    → ((rest : List Claim) → o ≡ some rest → IsReplaced id c claims rest)
    → kept_before d o ≡ some claims'
    → IsReplaced id c (d ∷ claims) claims'
behind id c d claims claims' none e k h = cc
behind id c d claims claims' (some rest) e k h =
    let r = k rest refl in
    record {
      before = d ∷ r.before;
      old = r.old;
      after = r.after;
      was = ap (λ l. d ∷ l) r.was;
      is_now = sym (some-injective _ _ h) ∙ ap (λ l. d ∷ l) r.is_now;
      same_id = r.same_id;
      first = ground (arith, e, r.first);
    }

pub replace_claim-IsReplaced :
    (id : Text) (c : Claim) (claims claims' : List Claim)
    → replace_claim id c claims ≡ some claims'
    → IsReplaced id c claims claims'
unfolding replace_claim
replace_claim-IsReplaced id c [] claims' h = cc
replace_claim-IsReplaced id c (d ∷ claims) claims' h = elim (Bool-cases (text_eq d.id id)) [
  | inl e ↦ record {
    before = [];
    old = d;
    after = claims;
    was = refl;
    is_now = sym (some-injective _ _ (rw e at h));
    same_id = e;
    first = refl;
  }
  | inr e ↦
      behind id c d claims claims' (replace_claim id c claims) e
        (λ rest q. replace_claim-IsReplaced id c claims rest q) (rw e at h)
]
