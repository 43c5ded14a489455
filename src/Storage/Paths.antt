-- ===== src/Storage/Paths.antt =====
-- Paths: `pathlib` paths by their parts, and the conventions of src/smalt_mcp/storage/paths.py.
use smalt_mcp.Prelude.{
  Bool, not, ◌||◌, List, [], ◌∷◌, ◌++◌, if◌then◌else◌, keep, Text, codes, text_eq,
}
use smalt_mcp.Ids.Separators.{split_on, starts_with_slash}

-- The parts of a path; an absolute path begins with the part "/".
abbrev pub FilePath : Type 0
FilePath = List Text

-- `pathlib` drops empty parts and "."; it keeps "..".
abbrev pub is_part : Text → Bool
is_part t = not (text_eq t [] || text_eq t (codes "."))

unfoldable pub parts_of : Text → List Text
parts_of t = keep is_part (split_on b'/' t)

-- `base / t`: an absolute right side replaces the left one.
unfoldable pub join_path : FilePath → Text → FilePath
join_path base t = if starts_with_slash t then codes "/" ∷ parts_of t else base ++ parts_of t

abbrev pub pages_dir : FilePath → FilePath
pages_dir smalt_root = smalt_root ++ codes "pages" ∷ []

abbrev pub entities_dir : FilePath → FilePath
entities_dir smalt_root = pages_dir smalt_root ++ codes "entities" ∷ []

abbrev pub concepts_dir : FilePath → FilePath
concepts_dir smalt_root = pages_dir smalt_root ++ codes "concepts" ∷ []

abbrev pub source_pages_dir : FilePath → FilePath
source_pages_dir smalt_root = pages_dir smalt_root ++ codes "sources" ∷ []

abbrev pub syntheses_dir : FilePath → FilePath
syntheses_dir smalt_root = pages_dir smalt_root ++ codes "syntheses" ∷ []
