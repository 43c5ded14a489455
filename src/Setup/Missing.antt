-- ===== src/Setup/Missing.antt =====
-- A loop that makes what is missing and reports what it made.
use smalt_mcp.Prelude.{
  ◌≡◌, subst, refl, ap, ◌∙◌, sym, arith, Bool, true, false, List, [], ◌∷◌, ◌++◌, append_assoc,
  append-nil, any, any-append, All, Text, text_eq, text_eq_refl, text_eq→eq, member, inl, inr,
  Bool-cases,
}

module _ {A : Type 0} (key : A → Text) where
  -- Something with this name is there.
  abbrev pub is_there : Text → List A → Bool
  is_there name there = any (λ a. text_eq (key a) name) there

  -- What was made, by name, and what is there afterwards.
  unfoldable pub add_missing : List A → List A → List Text × List A
  add_missing [] there = ([], there)
  add_missing (a ∷ items) there = elim (is_there (key a) there) [
    | true ↦ add_missing items there
    | false ↦ let (made, all) = add_missing items (there ++ a ∷ []) in (key a ∷ made, all)
  ]

  -- What was there stays as it was, in front of what is new.
  pub add_missing-extends :
      (P : A → Type 0) (items there : List A)
      → All P items
      → (new : List A) × ((add_missing items there).1 ≡ there ++ new) × All P new
  unfolding add_missing
  add_missing-extends P [] there h = ([], sym (append-nil there), tt)
  add_missing-extends P (a ∷ items) there h = elim (Bool-cases (is_there (key a) there)) [
    | inl e ↦ rw (e, add_missing) (add_missing-extends P items there h.1)
    | inr e ↦
        let (new, q, k) = add_missing-extends P items (there ++ a ∷ []) h.1 in
        rw (e, add_missing) (a ∷ new, q ∙ append_assoc there (a ∷ []) new, (h.0, k))
  ]

  units-All : (items : List A) → All (λ a. Unit {0}) items
  units-All [] = tt
  units-All (a ∷ items) = (tt, units-All items)

  pub add_missing-keeps :
      (name : Text) (items there : List A)
      → is_there name there ≡ true
      → is_there name (add_missing items there).1 ≡ true
  add_missing-keeps name items there h =
      let (new, e, k) = add_missing-extends (λ a. Unit {0}) items there (units-All items) in
      ap (is_there name) e ∙ (any-append (λ a. text_eq (key a) name) there new ∙ ground (arith, h))

  -- The rest of the loop starts where the first item is there.
  add_missing-step :
      (a : A) (items there : List A)
      → (before : List A) × (is_there (key a) before ≡ true)
        × ((add_missing (a ∷ items) there).1 ≡ (add_missing items before).1)
  unfolding add_missing
  add_missing-step a items there = elim (Bool-cases (is_there (key a) there)) [
    | inl e ↦ (there, e, rw (e, add_missing) refl)
    | inr e ↦
        let here : is_there (key a) (there ++ a ∷ []) ≡ true =
          any-append (λ b. text_eq (key b) (key a)) there (a ∷ [])
          ∙ ground (arith, text_eq_refl (key a)) in
        (there ++ a ∷ [], here, rw (e, add_missing) refl)
  ]

  -- Afterwards all that is wanted is there.
  pub add_missing-All :
      (items there : List A) → All (λ a. is_there (key a) (add_missing items there).1 ≡ true) items
  add_missing-All [] there = tt
  add_missing-All (a ∷ items) there =
      let (before, h, e) = add_missing-step a items there in
      subst (λ z. All (λ b. is_there (key b) z ≡ true) (a ∷ items)) (sym e)
        (add_missing-keeps (key a) items before h, add_missing-All items before)

  -- Where all is there, nothing is made.
  pub add_missing-none :
      (items there : List A)
      → All (λ a. is_there (key a) there ≡ true) items
      → add_missing items there ≡ ([], there)
  unfolding add_missing
  add_missing-none [] there h = refl
  add_missing-none (a ∷ items) there h = rw (h.0, add_missing) (add_missing-none items there h.1)

  -- What was there is not made.
  pub add_missing-skips :
      (name : Text) (items there : List A)
      → is_there name there ≡ true
      → member name (add_missing items there).0 ≡ false
  unfolding add_missing
  add_missing-skips name [] there h = refl
  add_missing-skips name (a ∷ items) there h = elim (Bool-cases (is_there (key a) there)) [
    | inl e ↦ rw (e, add_missing) (add_missing-skips name items there h)
    | inr e ↦
        let kept : is_there name (there ++ a ∷ []) ≡ true =
          any-append (λ b. text_eq (key b) name) there (a ∷ []) ∙ ground (arith, h) in
        let other : text_eq name (key a) ≡ false = elim (Bool-cases (text_eq name (key a))) [
          | inl q ↦ let same = ap (λ n. is_there n there) (text_eq→eq name (key a) q) in cc
          | inr q ↦ q
        ] in
        let rest = add_missing-skips name items (there ++ a ∷ []) kept in
        rw (e, add_missing) (ground (arith, other, rest))
  ]

  -- What was wanted and not there is made.
  pub add_missing-makes :
      (name : Text) (items there : List A)
      → is_there name there ≡ false
      → is_there name items ≡ true
      → member name (add_missing items there).0 ≡ true
  unfolding add_missing
  add_missing-makes name [] there h k = cc
  add_missing-makes name (a ∷ items) there h k = elim (Bool-cases (text_eq (key a) name)) [
    | inl q ↦
        let same = text_eq→eq (key a) name q in
        let new : is_there (key a) there ≡ false = ap (λ n. is_there n there) same ∙ h in
        let first : text_eq name (key a) ≡ true =
          ap (λ n. text_eq name n) same ∙ text_eq_refl name in
        rw (new, add_missing) (ground (arith, first))
    | inr q ↦ elim (Bool-cases (is_there (key a) there)) [
      | inl e ↦ rw (e, add_missing) (add_missing-makes name items there h (ground (arith, k, q)))
      | inr e ↦
          let still : is_there name (there ++ a ∷ []) ≡ false =
            any-append (λ b. text_eq (key b) name) there (a ∷ []) ∙ ground (arith, h, q) in
          let rest = add_missing-makes name items (there ++ a ∷ []) still (ground (arith, k, q)) in
          rw (e, add_missing) (ground (arith, rest))
    ]
  ]
