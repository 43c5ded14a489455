-- ===== src/Tools/Dispatch.antt =====
-- The tools by name: `dispatch` and `list_tools` of src/smalt_mcp/tools.py, over a table of tools.
use smalt_mcp.Prelude.{
  ◌≡◌, refl, subst, Bool, true, false, not, ◌&&◌, inl, inr, Bool-cases, Option, none, some, List,
  [], ◌∷◌, any, keep, map, if◌then◌else◌, leb, ltb, Text, text_eq, text_eq_iff, arith,
}
use smalt_mcp.Permissions.{Scope, scope_tier}
use smalt_mcp.Catalog.Inputs.{Shape}

-- `types.Tool`, without the description.
pub record ToolSpec : Type 0 where
  pub name : Text
  pub input_schema : Shape

-- `ToolDef`
pub record ToolDef (Handler : Type 0) : Type 0 where
  pub spec : ToolSpec
  pub scope : Scope
  pub handler : Handler

-- The handler that runs, a `KeyError`, or a `PermissionError`.
pub data Dispatched (Handler : Type 0) : Type 0 where
  runs : Handler → Dispatched Handler
  unknown_tool forbidden : Dispatched Handler

-- Whether a spec of the list has the name.
abbrev pub has_spec : Text → List ToolSpec → Bool
has_spec name specs = any (λ s. text_eq s.name name) specs

module _ {H : Type 0} where
  -- `_TOOLS_BY_NAME`: as in a `dict`, the last tool of a name counts.
  unfoldable pub tool_named : Text → List (ToolDef H) → Option (ToolDef H)
  tool_named name [] = none
  tool_named name (t ∷ tools) = elim (tool_named name tools) [
    | some later ↦ some later
    | none ↦ if text_eq t.spec.name name then some t else none
  ]

  unfoldable pub list_tools : Scope → List (ToolDef H) → List ToolSpec
  list_tools scope tools =
      map (λ t. t.spec) (keep (λ t. leb (scope_tier t.scope) (scope_tier scope)) tools)

  abbrev gate : Scope → Option (ToolDef H) → Dispatched H
  gate scope none = unknown_tool
  gate scope (some tool) =
      if ltb (scope_tier scope) (scope_tier tool.scope) then forbidden else runs tool.handler

  unfoldable pub dispatch : Text → Scope → List (ToolDef H) → Dispatched H
  unfolding tool_named
  dispatch name scope tools = gate scope (tool_named name tools)

  -- Whether some tool of the list has the name.
  abbrev pub has_tool : Text → List (ToolDef H) → Bool
  has_tool name tools = any (λ t. text_eq t.spec.name name) tools

  -- No name stands twice.
  abbrev pub IsDistinct : List (ToolDef H) → Type 0
  IsDistinct [] = Unit
  IsDistinct (t ∷ tools) = (has_tool t.spec.name tools ≡ false) × IsDistinct tools

  unfoldable pub are_distinct : List (ToolDef H) → Bool
  are_distinct [] = true
  are_distinct (t ∷ tools) = not (has_tool t.spec.name tools) && are_distinct tools

  pub are_distinct-IsDistinct :
      (tools : List (ToolDef H)) → are_distinct tools ≡ true → IsDistinct tools
  unfolding are_distinct
  are_distinct-IsDistinct [] h = tt
  are_distinct-IsDistinct (t ∷ tools) h =
      (ground (arith, h), are_distinct-IsDistinct tools (ground (arith, h)))

  listed-named :
      (name : Text) (scope : Scope) (tools : List (ToolDef H))
      → has_tool name tools ≡ false
      → has_spec name (list_tools scope tools) ≡ false
  unfolding list_tools
  listed-named name scope [] h = refl
  listed-named name scope (t ∷ tools) h = ground (arith, listed-named name scope tools)

  tool_named-none :
      (name : Text) (tools : List (ToolDef H))
      → has_tool name tools ≡ false
      → tool_named name tools ≡ none
  unfolding tool_named
  tool_named-none name [] h = refl
  tool_named-none name (t ∷ tools) h = ground (arith, tool_named-none name tools)

  abbrev pub is_run : Dispatched H → Bool
  is_run unknown_tool = false
  is_run forbidden = false
  is_run (runs h) = true

  -- Where the names are distinct, a tool runs exactly if it is listed for the scope.
  pub dispatch-list_tools :
      (name : Text) (scope : Scope) (tools : List (ToolDef H))
      → IsDistinct tools
      → is_run (dispatch name scope tools) ≡ has_spec name (list_tools scope tools)
  unfolding dispatch list_tools tool_named
  dispatch-list_tools name scope [] d = refl
  dispatch-list_tools name scope (t ∷ tools) d = elim (Bool-cases (text_eq t.spec.name name)) [
    | inl e ↦
        let same = (text_eq_iff t.spec.name name).0 e in
        let absent = subst (λ n. has_tool n tools ≡ false) same d.0 in
        rw (tool_named-none name tools absent, e)
          (ground (arith, e, listed-named name scope tools absent))
    | inr e ↦ ground (arith, e, dispatch-list_tools name scope tools d.1)
  ]
