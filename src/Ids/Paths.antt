-- ===== src/Ids/Paths.antt =====
-- `_page_target_path` of src/smalt_mcp/tools.py: where a page lies on disk, and that an accepted id
-- cannot lead out of its directory.
use smalt_mcp.Prelude.{
  subst, inl, inr, Bool-cases, sym, ◌∙◌, true, false, ℕ, ◌≡◌, ◌≢◌, refl, ap, List, [], ◌∷◌, ◌++◌,
  arith, ◌==◌, if◌then◌else◌, Text, All, codes, text_eq_iff, All-append, Option, none, some, keep,
}
use mathlib.Core.List.{tail}
use mathlib.Core.Option.{some-injective}
use smalt_mcp.Schema.{PageType, entity, concept, source, synthesis, index}
use smalt_mcp.Storage.Paths.{FilePath, is_part, parts_of, join_path, pages_dir}
use smalt_mcp.Ids.{accepted, validate_slug_id, has_sep, validate_id}
use smalt_mcp.Ids.Separators.{
  split_sep, split_on, replace_sep, starts_with_slash, prepend, split_on-cons, replace_sep_one,
  split_on_none, split_on-append,
}
use smalt_mcp.Ids.Shape.{
  IsPlainText, IsComponent, IsSection, validate_slug_id-IsPlain, validate_section_id-IsSection,
  IsPlainText-no_slash, validate_slug_id-IsComponent,
}

-- `_TYPE_TO_SUBDIR`; an index page has no entry.
abbrev pub type_to_subdir : PageType → Option Text
type_to_subdir entity = some (codes "entities")
type_to_subdir concept = some (codes "concepts")
type_to_subdir source = some (codes "sources")
type_to_subdir synthesis = some (codes "syntheses")
type_to_subdir index = none

abbrev pub md_suffix : Text
md_suffix = codes ".md"

-- `none` is the `KeyError` at an index page.
unfoldable pub page_target_path : FilePath → PageType → Text → Option FilePath
unfolding has_sep
page_target_path smalt_root type id = elim (type_to_subdir type) [
  | none ↦ none
  | some subdir ↦
      if has_sep id
      then some (join_path (join_path (pages_dir smalt_root) subdir) (replace_sep id ++ md_suffix))
      else some (join_path (join_path (pages_dir smalt_root) subdir) (id ++ md_suffix))
]

-- A part that names an entry of the directory before it.
pub record IsEntry (part : Text) : Type 0 where
  pub not_empty : part ≢ []
  pub not_dot : part ≢ codes "."
  pub not_dots : part ≢ codes ".."
  pub no_slash : All (λ c. c ≢ b'/') part

-- The last part takes the suffix.
abbrev pub add_suffix : List Text → List Text
add_suffix [] = md_suffix ∷ []
add_suffix (part ∷ []) = (part ++ md_suffix) ∷ []
add_suffix (part ∷ next ∷ parts) = part ∷ add_suffix (next ∷ parts)

add_suffix-prepend :
    (c : ℕ) (part : Text) (parts : List Text)
    → add_suffix (prepend c (part ∷ parts)) ≡ prepend c (add_suffix (part ∷ parts))
add_suffix-prepend c part [] = refl
add_suffix-prepend c part (next ∷ parts) = refl

pub split_on-suffix : (t : Text) → split_on b'/' (t ++ md_suffix) ≡ add_suffix (split_on b'/' t)
unfolding split_on
split_on-suffix [] = refl
split_on-suffix (c ∷ t) = elim (Bool-cases (c == b'/')) [
  | inl e ↦
      let (part, parts, q) = split_on-cons b'/' t in
      rw e (ap (λ r. [] ∷ r) (split_on-suffix t) ∙ (rw q))
  | inr e ↦
      let (part, parts, q) = split_on-cons b'/' t in
      rw e
        (ap (λ r. prepend c r) (split_on-suffix t) ∙ (rw q (sym (add_suffix-prepend c part parts))))
]

long_suffix : (t : Text) → t ++ md_suffix ≢ []
long_suffix [] e = cc
long_suffix (c ∷ t) e = cc

long_suffix' : (t : Text) → t ++ md_suffix ≢ codes "."
long_suffix' [] e = ground arith
long_suffix' (c ∷ t) e = long_suffix t (ap tail e)

IsEntry-suffix : (part : Text) → part ≢ [] → IsPlainText part → IsEntry (part ++ md_suffix)
IsEntry-suffix [] h p = absurd (h refl)
IsEntry-suffix (c ∷ part) h p = record {
  not_empty = λ e. cc;
  not_dot = λ e. long_suffix part (ap tail e);
  not_dots = λ e. long_suffix' part (ap tail e);
  no_slash =
      All-append (λ c. c ≢ b'/') (c ∷ part) md_suffix (IsPlainText-no_slash (c ∷ part) p)
        (omega arith);
}

component-IsEntry : (part : Text) → IsComponent part → IsEntry part
component-IsEntry part h = record {
  not_empty = h.not_empty;
  not_dot = h.not_dot;
  not_dots = h.not_dots;
  no_slash = IsPlainText-no_slash part h.plain;
}

add_suffix-All :
    (parts : List Text) → parts ≢ [] → All IsComponent parts → All IsEntry (add_suffix parts)
add_suffix-All [] ne h = absurd (ne refl)
add_suffix-All (part ∷ []) ne h = (IsEntry-suffix part h.0.not_empty h.0.plain, tt)
add_suffix-All (part ∷ next ∷ parts) ne h =
    (component-IsEntry part h.0, add_suffix-All (next ∷ parts) (λ e. cc) h.1)

is_part-IsEntry : (part : Text) → IsEntry part → is_part part ≡ true
is_part-IsEntry part h =
    ground (arith, text_eq_iff part [], text_eq_iff part (codes "."), h.not_empty, h.not_dot)

keep_entries : (parts : List Text) → All IsEntry parts → keep is_part parts ≡ parts
keep_entries [] h = refl
keep_entries (part ∷ parts) h =
    rw (is_part-IsEntry part h.0) (ap (λ r. part ∷ r) (keep_entries parts h.1))

-- The name under the type's directory: the id itself, or the section id with its separator replaced.
abbrev pub stored_name : Text → Text
stored_name id = if has_sep id then replace_sep id else id

pub section_name :
    (id : Text) → IsSection id → replace_sep id ≡ (split_sep id).0 ++ b'/' ∷ (split_sep id).1
section_name id h = replace_sep_one id h.one_sep

section-components : (id : Text) → IsSection id → All IsComponent (split_on b'/' (replace_sep id))
section-components id h =
    let src = (split_sep id).0 in
    let no_slash = IsPlainText-no_slash src (validate_slug_id-IsPlain src h.source).1 in
    rw (section_name id h, split_on-append b'/' src (split_sep id).1 no_slash)
      (validate_slug_id-IsComponent src h.source, h.components)

slug-components : (id : Text) → validate_slug_id id ≡ accepted → All IsComponent (split_on b'/' id)
slug-components id h =
    rw (split_on_none b'/' id (IsPlainText-no_slash id (validate_slug_id-IsPlain id h).1))
      (validate_slug_id-IsComponent id h, tt)

-- Every part of the name of an accepted id is a component.
pub validate_id-components :
    (id : Text) → validate_id id ≡ accepted → All IsComponent (split_on b'/' (stored_name id))
unfolding validate_id
validate_id-components id h = elim (Bool-cases (has_sep id)) [
  | inl e ↦ rw e (section-components id (validate_section_id-IsSection id (rw e at h)))
  | inr e ↦ rw e (slug-components id (rw e at h))
]

relative-components :
    (t : Text) → All IsComponent (split_on b'/' t) → starts_with_slash (t ++ md_suffix) ≡ false
unfolding split_on
relative-components [] h = refl
relative-components (c ∷ t) h = elim (Bool-cases (c == b'/')) [
  | inl e ↦
      let k : All IsComponent ([] ∷ split_on b'/' t) = rw e at h in absurd (k.0.not_empty refl)
  | inr e ↦ e
]

pub split_on-ne-nil : (s : ℕ) (t : Text) → split_on s t ≢ []
split_on-ne-nil s t e = let (part, parts, q) = split_on-cons s t in cc

pub name-IsEntry :
    (id : Text)
    → validate_id id ≡ accepted
    → All IsEntry (split_on b'/' (stored_name id ++ md_suffix))
name-IsEntry id h =
    rw (split_on-suffix (stored_name id))
      (add_suffix-All _ (split_on-ne-nil b'/' (stored_name id)) (validate_id-components id h))

-- The parts of the name of an accepted id, as the path takes them.
pub parts_of_name :
    (base : FilePath) (id : Text)
    → validate_id id ≡ accepted
    → join_path base (stored_name id ++ md_suffix)
      ≡ base ++ split_on b'/' (stored_name id ++ md_suffix)
unfolding join_path parts_of
parts_of_name base id h =
    rw (relative-components (stored_name id) (validate_id-components id h))
      (ap (λ r. base ++ r) (keep_entries _ (name-IsEntry id h)))

target_name :
    (root : FilePath) (type : PageType) (id : Text) {subdir : Text}
    → type_to_subdir type ≡ some subdir
    → page_target_path root type id
      ≡ some (join_path (join_path (pages_dir root) subdir) (stored_name id ++ md_suffix))
unfolding page_target_path
target_name root type id e = ground arith

abbrev Under : FilePath → Text → Type 0
Under root subdir = join_path (pages_dir root) subdir ≡ pages_dir root ++ subdir ∷ []

pub subdir_path :
    (root : FilePath) (type : PageType) {subdir : Text}
    → type_to_subdir type ≡ some subdir
    → join_path (pages_dir root) subdir ≡ pages_dir root ++ subdir ∷ []
unfolding join_path parts_of split_on
subdir_path root entity e = subst (Under root) (some-injective _ _ e) refl
subdir_path root concept e = subst (Under root) (some-injective _ _ e) refl
subdir_path root source e = subst (Under root) (some-injective _ _ e) refl
subdir_path root synthesis e = subst (Under root) (some-injective _ _ e) refl
subdir_path root index e = cc

pub target_path_parts :
    (root : FilePath) (type : PageType) (id : Text) {subdir : Text}
    → validate_id id ≡ accepted
    → type_to_subdir type ≡ some subdir
    → page_target_path root type id
      ≡ some ((pages_dir root ++ subdir ∷ []) ++ split_on b'/' (stored_name id ++ md_suffix))
target_path_parts root type id h e =
    target_name root type id e
    ∙ ap some (
        parts_of_name _ id h
        ∙ ap (λ b. b ++ split_on b'/' (stored_name id ++ md_suffix)) (subdir_path root type e))

-- An accepted id of a page that is no index has a target path: it is the type's directory under
-- `pages`, followed by entries of which none is "", "." or ".." or holds a slash.
pub page_target_path-inside :
    (root : FilePath) (type : PageType) (id : Text) {subdir : Text}
    → validate_id id ≡ accepted
    → type_to_subdir type ≡ some subdir
    → (entries : List Text) × (page_target_path root type id
        ≡ some ((pages_dir root ++ subdir ∷ []) ++ entries))
      × (entries ≢ [])
      × All IsEntry entries
page_target_path-inside root type id h e = (
  split_on b'/' (stored_name id ++ md_suffix),
  target_path_parts root type id h e,
  split_on-ne-nil b'/' (stored_name id ++ md_suffix),
  name-IsEntry id h,
)
