-- ===== src/Permissions.antt =====
-- Permission scopes: src/smalt_mcp/permissions.py, and `_server_scope` of src/smalt_mcp/server.py.
mod Tests
use smalt_mcp.Prelude.{
  ℕ, suc, ◌≤◌, ◌≡◌, Bool, true, false, ◌&&◌, not, Option, none, List, [], map, if◌then◌else◌, Text,
  codes, text_eq, text_eq_iff, arith, inl, inr, ◌⊎◌, refl, ap, Bool-cases, some,
}
use smalt_mcp.Ids.Chars.{lower}

pub data Scope : Type 0 where
  read_only read_write remove_destructive : Scope

-- `SCOPE_TIER`
abbrev pub scope_tier : Scope → ℕ
scope_tier read_only = 0
scope_tier read_write = 1
scope_tier remove_destructive = 2

-- `expected_internal_token`, from the variable's value: an empty one counts as unset.
abbrev pub expected_internal_token : Option Text → Option Text
expected_internal_token none = none
expected_internal_token (some t) = if text_eq t [] then none else some t

unfoldable pub effective_scope : Scope → Option Text → Scope
effective_scope requested none = read_only
effective_scope requested (some _) = requested

-- `presented and presented == expected`
abbrev matches : Option Text → Text → Bool
matches none expected = false
matches (some presented) expected = not (text_eq presented []) && text_eq presented expected

abbrev scope_against : Option Text → Option Text → Scope
scope_against presented none = read_only
scope_against presented (some expected) =
    if matches presented expected then read_write else read_only

-- `scope_for_token`; the first argument is the value of `SMALT_INTERNAL_TOKEN`.
unfoldable pub scope_for_token : Option Text → Option Text → Scope
scope_for_token variable presented = scope_against presented (expected_internal_token variable)

-- `os.environ.get("SMALT_SCOPE") or "read_write"`
abbrev asked : Option Text → Text
asked none = codes "read_write"
asked (some t) = if text_eq t [] then codes "read_write" else t

abbrev named_scope : Text → Option Scope
named_scope raw =
    if text_eq raw (codes "read_only")
    then some read_only
    else if text_eq raw (codes "read_write")
    then some read_write
    else if text_eq raw (codes "remove_destructive")
    then some remove_destructive
    else none

abbrev capped : Option Scope → Option Text → Option Scope
capped none token = none
capped (some requested) token = some (effective_scope requested token)

-- `_server_scope` on the values of `SMALT_SCOPE` and `SMALT_INTERNAL_TOKEN`; `none` is its
-- `ValueError`.
unfoldable pub server_scope : Option Text → Option Text → Option Scope
unfolding effective_scope
server_scope scope token =
    capped (named_scope (map lower (asked scope))) (expected_internal_token token)

-- Without a token, the scope of the server, if it starts, and of every caller has tier 0.
unconfigured-is_read_only :
    (requested : Option Text) (presented : Option Text) (s : Scope)
    → server_scope requested none ≡ some s
    → (scope_tier s ≡ 0) × (scope_tier (scope_for_token none presented) ≡ 0)
unfolding server_scope scope_for_token effective_scope
unconfigured-is_read_only requested presented s h = ground arith

configured-cases :
    (t p : Text)
    → (scope_tier (scope_against (some p) (some t)) ≡ 0)
      ⊎ ((p ≡ t) × (scope_against (some p) (some t) ≡ read_write))
configured-cases t p = elim (Bool-cases (text_eq p [])) [
  | inl e ↦ inl (rw e)
  | inr e ↦ elim (Bool-cases (text_eq p t)) [
    | inl e' ↦ inr ((text_eq_iff p t).0 e', rw (e, e'))
    | inr e' ↦ inl (rw (e, e'))
  ]
]

-- A presented token gives at most the write tier, and more than reading only where it is the
-- configured one.
scope_for_token-cases :
    (variable presented : Option Text)
    → (scope_tier (scope_for_token variable presented) ≡ 0)
      ⊎ ((token : Text) × (variable ≡ some token)
          × (presented ≡ some token)
          × (scope_for_token variable presented ≡ read_write))
unfolding scope_for_token
scope_for_token-cases none presented = inl refl
scope_for_token-cases (some t) none = elim (Bool-cases (text_eq t [])) [
  | inl e ↦ inl (rw e)
  | inr e ↦ inl (rw e)
]
scope_for_token-cases (some t) (some p) = elim (Bool-cases (text_eq t [])) [
  | inl e ↦ inl (rw e)
  | inr e ↦ elim (configured-cases t p) [
    | inl h ↦ inl (rw (e, h))
    | inr (same, h) ↦ inr (t, refl, ap some same, rw e h)
  ]
]
