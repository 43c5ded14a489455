-- ===== src/Ids/Chars.antt =====
-- The character classes of the id patterns of src/smalt_mcp/schema.py.
use smalt_mcp.Prelude.{ℕ, ◌+◌, Bool, ◌&&◌, ◌||◌, leb, ◌==◌, if◌then◌else◌}

-- `[A-Za-z0-9]`
unfoldable pub is_alnum : ℕ → Bool
is_alnum c = leb b'A' c && leb c b'Z' || leb b'a' c && leb c b'z' || leb b'0' c && leb c b'9'

-- `[A-Za-z0-9_-]`
unfoldable pub is_slug_char : ℕ → Bool
unfolding is_alnum
is_slug_char c = is_alnum c || c == b'_' || c == b'-'

-- `[A-Za-z0-9._-]`
unfoldable pub is_component_char : ℕ → Bool
unfolding is_alnum
is_component_char c = is_alnum c || c == b'.' || c == b'_' || c == b'-'

-- `str.lower` at an ASCII character; the texts that reach it have matched a pattern above.
unfoldable pub lower : ℕ → ℕ
lower c = if leb b'A' c && leb c b'Z' then c + 32 else c
