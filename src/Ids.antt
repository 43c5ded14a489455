-- ===== src/Ids.antt =====
-- Page ids: the validators of src/smalt_mcp/schema.py (`_validate_id`, `_validate_slug_id`,
-- `_validate_section_id`) over code points, with a constructor for each `ValueError`.
pub mod Chars
pub mod Separators
pub mod Shape
pub mod Paths
pub mod Injective
mod Tests
use smalt_mcp.Prelude.{
  ℕ, zero, suc, ◌-◌, Bool, true, false, not, ◌&&◌, ◌||◌, List, [], ◌∷◌, ltb, ◌==◌, if◌then◌else◌,
  length, map, Text, codes, text_eq, member,
}
use smalt_mcp.Ids.Chars.{is_alnum, is_slug_char, is_component_char, lower}
use smalt_mcp.Ids.Separators.{count_sep, split_sep, split_on, starts_with_slash}

-- What the validators raise. `no_match` carries no text: the messages are not modelled.
pub data IdError : Type 0 where
  slug_no_match slug_reserved too_long separator_count empty_path absolute_path : IdError
  source_invalid : IdError → IdError
  empty_component traversal component_no_match component_reserved : IdError

pub data Checked : Type 0 where
  accepted : Checked
  rejected : IdError → Checked

-- `$` of the `re` module, with no flag: the end of the text, or just before a newline that ends it.
abbrev pub at_end : Text → Bool
at_end [] = true
at_end (c ∷ rest) = c == 10 && text_eq rest []

-- `[...]{0,n}$`; the newline lies in no class, so the greedy match never has to give back.
unfoldable pub matches_up_to : (ℕ → Bool) → ℕ → Text → Bool
matches_up_to p n [] = true
matches_up_to p zero (c ∷ rest) = at_end (c ∷ rest)
matches_up_to p (suc n) (c ∷ rest) =
    let more = matches_up_to p n rest in if p c then more else at_end (c ∷ rest)

-- `[...]*$`
unfoldable pub matches_any : (ℕ → Bool) → Text → Bool
matches_any p [] = true
matches_any p (c ∷ rest) = let more = matches_any p rest in if p c then more else at_end (c ∷ rest)

-- `_PAGE_ID_RE.match`
unfoldable pub matches_slug : Text → Bool
unfolding matches_up_to is_alnum is_slug_char
matches_slug [] = false
matches_slug (c ∷ rest) = is_alnum c && matches_up_to is_slug_char 253 rest

-- `_SECTION_PATH_COMPONENT_RE.match`
unfoldable pub matches_component : Text → Bool
unfolding matches_any is_alnum is_component_char
matches_component [] = false
matches_component (c ∷ rest) = is_alnum c && matches_any is_component_char rest

-- `_WINDOWS_RESERVED`
abbrev pub windows_reserved : List Text
windows_reserved =
    codes "con"
    ∷ codes "prn"
    ∷ codes "aux"
    ∷ codes "nul"
    ∷ codes "com1"
    ∷ codes "com2"
    ∷ codes "com3"
    ∷ codes "com4"
    ∷ codes "com5"
    ∷ codes "com6"
    ∷ codes "com7"
    ∷ codes "com8"
    ∷ codes "com9"
    ∷ codes "lpt1"
    ∷ codes "lpt2"
    ∷ codes "lpt3"
    ∷ codes "lpt4"
    ∷ codes "lpt5"
    ∷ codes "lpt6"
    ∷ codes "lpt7"
    ∷ codes "lpt8"
    ∷ codes "lpt9"
    ∷ []

unfoldable pub is_reserved : Text → Bool
unfolding lower
is_reserved value = member (map lower value) windows_reserved

unfoldable pub validate_slug_id : Text → Checked
unfolding matches_slug is_reserved
validate_slug_id value =
    if not (matches_slug value)
    then rejected slug_no_match
    else if is_reserved value
    then rejected slug_reserved
    else accepted

-- `comp.split(".", 1)[0]`
unfoldable pub base_name : Text → Text
base_name [] = []
base_name (c ∷ rest) = if c == b'.' then [] else c ∷ base_name rest

-- The body of the loop over the components.
unfoldable pub check_component : Text → Checked
unfolding matches_component is_reserved base_name
check_component comp =
    if text_eq comp []
    then rejected empty_component
    else if text_eq comp (codes ".") || text_eq comp (codes "..")
    then rejected traversal
    else if not (matches_component comp)
    then rejected component_no_match
    else if is_reserved (base_name comp)
    then rejected component_reserved
    else accepted

-- The loop over the components: the first rejection ends it.
unfoldable pub check_components : List Text → Checked
check_components [] = accepted
check_components (comp ∷ comps) = elim (check_component comp) [
  | accepted ↦ check_components comps
  | rejected e ↦ rejected e
]

-- The checks that follow the source id's.
unfoldable pub check_rel_path : Text → Checked
unfolding check_components
check_rel_path rel_path =
    if text_eq rel_path []
    then rejected empty_path
    else if starts_with_slash rel_path
    then rejected absolute_path
    else check_components (split_on b'/' rel_path)

unfoldable pub validate_section_id : Text → Checked
unfolding validate_slug_id check_rel_path
validate_section_id value =
    if ltb 254 (length value)
    then rejected too_long
    else if not (count_sep value == 1)
    then rejected separator_count
    else elim (validate_slug_id (split_sep value).0) [
      | accepted ↦ check_rel_path (split_sep value).1
      | rejected e ↦ rejected (source_invalid e)
    ]

-- `"::" in value`
unfoldable pub has_sep : Text → Bool
has_sep value = ltb 0 (count_sep value)

unfoldable pub validate_id : Text → Checked
unfolding has_sep validate_section_id validate_slug_id
validate_id value = if has_sep value then validate_section_id value else validate_slug_id value
