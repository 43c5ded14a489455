-- ===== src/Permissions/Tests.antt =====
-- The scopes of a server without a token, and of a caller with one.
use smalt_mcp.Prelude.{◌≡◌, refl, none, some, codes}
use smalt_mcp.Ids.Chars.{lower}
use smalt_mcp.Permissions.{read_only, server_scope, effective_scope}

asked-read_only : server_scope (some (codes "Remove_Destructive")) none ≡ some read_only
unfolding server_scope effective_scope lower
asked-read_only = refl
