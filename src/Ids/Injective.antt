-- ===== src/Ids/Injective.antt =====
-- Two pages of one type with different accepted ids never share a file.
use smalt_mcp.Prelude.{
  inl, inr, Bool-cases, sym, ◌∙◌, subst, ◌≡◌, ◌≢◌, refl, ap, [], ◌∷◌, ◌++◌, arith, Text, All, some,
}
use mathlib.Core.List.{append_cancel_left, append_cancel_right}
use mathlib.Core.Option.{some-injective}
use smalt_mcp.Schema.{PageType}
use smalt_mcp.Storage.Paths.{FilePath, pages_dir}
use smalt_mcp.Ids.{accepted, validate_slug_id, has_sep, validate_id}
use smalt_mcp.Ids.Separators.{split_sep, replace_sep, join_with, join-split, split_sep-join}
use smalt_mcp.Ids.Shape.{
  IsSection, validate_slug_id-IsPlain, validate_section_id-IsSection, IsPlainText-no_slash,
}
use smalt_mcp.Ids.Paths.{
  type_to_subdir, page_target_path, md_suffix, stored_name, section_name, target_path_parts,
}

-- The first slash cuts a text in one way.
cut_unique :
    (a a' : Text) {b b' : Text}
    → All (λ c. c ≢ b'/') a
    → All (λ c. c ≢ b'/') a'
    → a ++ b'/' ∷ b ≡ a' ++ b'/' ∷ b'
    → (a ≡ a') × (b ≡ b')
cut_unique [] [] h h' e = (refl, cc)
cut_unique [] (c ∷ a') h h' e = absurd (h'.0 (ground arith))
cut_unique (c ∷ a) [] h h' e = absurd (h.0 (ground arith))
cut_unique (c ∷ a) (c' ∷ a') {b} {b'} h h' e =
    let (p, q) = cut_unique a a' {b = b} {b' = b'} h.1 h'.1 (cc) in (cc, q)

no_slash-append : (x y : Text) → All (λ c. c ≢ b'/') (x ++ b'/' ∷ y) → ⊥
no_slash-append [] y h = h.0 refl
no_slash-append (c ∷ x) y h = no_slash-append x y h.1

section-ne-slug : (a b : Text) → IsSection a → validate_slug_id b ≡ accepted → replace_sep a ≢ b
section-ne-slug a b h k e =
    let plain = IsPlainText-no_slash b (validate_slug_id-IsPlain b k).1 in
    no_slash-append (split_sep a).0 (split_sep a).1
      (subst (All (λ c. c ≢ b'/')) (sym e ∙ section_name a h) plain)

section-injective : (a b : Text) → IsSection a → IsSection b → replace_sep a ≡ replace_sep b → a ≡ b
section-injective a b h k e =
    let (p, q) =
      cut_unique (split_sep a).0 (split_sep b).0
        (IsPlainText-no_slash _ (validate_slug_id-IsPlain _ h.source).1)
        (IsPlainText-no_slash _ (validate_slug_id-IsPlain _ k.source).1)
        (sym (section_name a h) ∙ e ∙ section_name b k) in
    sym (split_sep-join a (λ z. omega (arith, h.one_sep)))
    ∙ (rw (p, q) (split_sep-join b (λ z. omega (arith, k.one_sep))))

stored_name-injective :
    (a b : Text)
    → validate_id a ≡ accepted
    → validate_id b ≡ accepted
    → stored_name a ≡ stored_name b
    → a ≡ b
unfolding validate_id
stored_name-injective a b h k e = elim (Bool-cases (has_sep a)) [
  | inl p ↦ elim (Bool-cases (has_sep b)) [
    | inl q ↦
        section-injective a b (validate_section_id-IsSection a (rw p at h))
          (validate_section_id-IsSection b (rw q at k)) (rw (p, q) at e)
    | inr q ↦ absurd (
        section-ne-slug a b (validate_section_id-IsSection a (rw p at h)) (rw q at k)
          (rw (p, q) at e))
  ]
  | inr p ↦ elim (Bool-cases (has_sep b)) [
    | inl q ↦ absurd (
        section-ne-slug b a (validate_section_id-IsSection b (rw q at k)) (rw p at h)
          (sym (rw (p, q) at e)))
    | inr q ↦ rw (p, q) at e
  ]
]

-- Two accepted ids of pages of one type that have the same target path are the same id.
pub page_target_path-injective :
    (root : FilePath) (type : PageType) (a b : Text) {subdir : Text}
    → validate_id a ≡ accepted
    → validate_id b ≡ accepted
    → type_to_subdir type ≡ some subdir
    → page_target_path root type a ≡ page_target_path root type b
    → a ≡ b
page_target_path-injective root type a b {subdir} h k s e =
    let names = append_cancel_left (pages_dir root ++ subdir ∷ []) _ _ (
      some-injective _ _
        (sym (target_path_parts root type a h s) ∙ e ∙ target_path_parts root type b k s)) in
    stored_name-injective a b h k (
      append_cancel_right _ _ md_suffix
        (sym (join-split b'/' _) ∙ ap (join_with b'/') names ∙ join-split b'/' _))
