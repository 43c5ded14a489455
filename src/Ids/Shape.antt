-- ===== src/Ids/Shape.antt =====
-- The characters of an accepted id, and the parts of an accepted section id.
use smalt_mcp.Prelude.{
  inl, inr, Bool-cases, true, zero, suc, false, ℕ, ◌≡◌, ◌≢◌, List, [], ◌∷◌, arith, Text, All, codes,
  text_eq_iff, length, ◌≤◌,
}
use smalt_mcp.Ids.{
  accepted, at_end, matches_up_to, matches_any, matches_component, validate_slug_id,
  check_component, check_components, check_rel_path, validate_section_id,
}
use smalt_mcp.Ids.Chars.{is_alnum, is_slug_char, is_component_char}
use smalt_mcp.Ids.Separators.{count_sep, split_sep, split_on, starts_with_slash}

-- Not a separator of paths or ids.
pub record IsPlain (c : ℕ) : Type 0 where
  pub no_slash : c ≢ b'/'
  pub no_colon : c ≢ b':'

abbrev pub IsPlainText : Text → Type 0
IsPlainText = All IsPlain

alnum-IsPlain : (c : ℕ) → is_alnum c ≡ true → IsPlain c
unfolding is_alnum
alnum-IsPlain c h = ground arith

slug_char-IsPlain : (c : ℕ) → is_slug_char c ≡ true → IsPlain c
unfolding is_slug_char
slug_char-IsPlain c h = ground arith

component_char-IsPlain : (c : ℕ) → is_component_char c ≡ true → IsPlain c
unfolding is_component_char
component_char-IsPlain c h = ground arith

at_end-IsPlain : (t : Text) → at_end t ≡ true → IsPlainText t
at_end-IsPlain [] h = tt
at_end-IsPlain (c ∷ []) h = ground arith
at_end-IsPlain (c ∷ d ∷ rest) h = ground arith

matches_up_to-IsPlain : (n : ℕ) (t : Text) → matches_up_to is_slug_char n t ≡ true → IsPlainText t
unfolding matches_up_to
matches_up_to-IsPlain n [] h = tt
matches_up_to-IsPlain zero (c ∷ t) h = at_end-IsPlain (c ∷ t) h
matches_up_to-IsPlain (suc n) (c ∷ t) h = elim (Bool-cases (is_slug_char c)) [
  | inl e ↦ (slug_char-IsPlain c e, matches_up_to-IsPlain n t (rw e at h))
  | inr e ↦ at_end-IsPlain (c ∷ t) (rw e at h)
]

matches_any-IsPlain : (t : Text) → matches_any is_component_char t ≡ true → IsPlainText t
unfolding matches_any
matches_any-IsPlain [] h = tt
matches_any-IsPlain (c ∷ t) h = elim (Bool-cases (is_component_char c)) [
  | inl e ↦ (component_char-IsPlain c e, matches_any-IsPlain t (rw e at h))
  | inr e ↦ at_end-IsPlain (c ∷ t) (rw e at h)
]

-- An accepted slug id is not empty, and holds no slash and no colon.
pub validate_slug_id-IsPlain : (v : Text) → validate_slug_id v ≡ accepted → (v ≢ []) × IsPlainText v
unfolding validate_slug_id
validate_slug_id-IsPlain [] h = ground arith
validate_slug_id-IsPlain (c ∷ t) h = (
  λ e. ground arith,
  (ground (arith, alnum-IsPlain c), ground (arith, matches_up_to-IsPlain 253 t)),
)

pub record IsComponent (comp : Text) : Type 0 where
  pub not_empty : comp ≢ []
  pub not_dot : comp ≢ codes "."
  pub not_dots : comp ≢ codes ".."
  pub plain : IsPlainText comp

matches_component-IsPlain : (t : Text) → matches_component t ≡ true → IsPlainText t
unfolding matches_component
matches_component-IsPlain [] h = tt
matches_component-IsPlain (c ∷ t) h =
    (ground (arith, alnum-IsPlain c), ground (arith, matches_any-IsPlain t))

pub IsPlainText-no_slash : (t : Text) → IsPlainText t → All (λ c. c ≢ b'/') t
IsPlainText-no_slash [] p = tt
IsPlainText-no_slash (c ∷ t) p = (p.0.no_slash, IsPlainText-no_slash t p.1)

alnum-ne-dot : (c : ℕ) → is_alnum c ≡ true → c ≢ b'.'
unfolding is_alnum
alnum-ne-dot c h = ground arith

slug-ne-dot : (t : Text) → validate_slug_id t ≡ accepted → (t ≢ codes ".") × (t ≢ codes "..")
unfolding validate_slug_id
slug-ne-dot [] h = ground arith
slug-ne-dot (c ∷ t) h = (λ e. ground (arith, alnum-ne-dot c), λ e. ground (arith, alnum-ne-dot c))

-- An accepted component is a plain name that does not stand for a directory above.
pub check_component-IsComponent : (t : Text) → check_component t ≡ accepted → IsComponent t
unfolding check_component
check_component-IsComponent t h = record {
  not_empty = λ e. ground (arith, text_eq_iff t []);
  not_dot = λ e. ground (arith, text_eq_iff t (codes "."));
  not_dots = λ e. ground (arith, text_eq_iff t (codes ".."));
  plain = ground (arith, matches_component-IsPlain t);
}

-- An accepted slug id would pass as a component too.
pub validate_slug_id-IsComponent : (t : Text) → validate_slug_id t ≡ accepted → IsComponent t
validate_slug_id-IsComponent t h = record {
  not_empty = (validate_slug_id-IsPlain t h).0;
  not_dot = (slug-ne-dot t h).0;
  not_dots = (slug-ne-dot t h).1;
  plain = (validate_slug_id-IsPlain t h).1;
}

pub check_components-All :
    (comps : List Text) → check_components comps ≡ accepted → All IsComponent comps
unfolding check_components
check_components-All [] h = tt
check_components-All (comp ∷ comps) h =
    (check_component-IsComponent comp (ground arith), check_components-All comps (ground arith))

check_rel_path_accepted :
    (r : Text)
    → check_rel_path r ≡ accepted
    → (starts_with_slash r ≡ false) × (check_components (split_on b'/' r) ≡ accepted)
unfolding check_rel_path
check_rel_path_accepted r h = ground arith

-- What an accepted section id is made of.
pub record IsSection (v : Text) : Type 0 where
  pub one_sep : count_sep v ≡ 1
  pub source : validate_slug_id (split_sep v).0 ≡ accepted
  pub relative : starts_with_slash (split_sep v).1 ≡ false
  pub components : All IsComponent (split_on b'/' (split_sep v).1)
  pub fits : length v ≤ 254

pub validate_section_id-IsSection : (v : Text) → validate_section_id v ≡ accepted → IsSection v
unfolding validate_section_id
validate_section_id-IsSection v h = record {
  one_sep = ground arith;
  source = ground arith;
  relative = ground (arith, check_rel_path_accepted (split_sep v).1);
  components = check_components-All _ (ground (arith, check_rel_path_accepted (split_sep v).1));
  fits = ground arith;
}
