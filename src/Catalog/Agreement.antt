-- ===== src/Catalog/Agreement.antt =====
-- The schemas that clients see and the arguments that the handlers accept.
use smalt_mcp.Prelude.{
  ℕ, ◌≡◌, ◌≢◌, refl, arith, Bool, true, false, ◌&&◌, Option, none, some, is_some, [], ◌∷◌, leb,
  if◌then◌else◌, Text, codes, text_eq, member,
}
use smalt_mcp.Corpus.{External, World}
use smalt_mcp.Corpus.Actions.{Outcome, done, fail, ◌>>=◌}
use smalt_mcp.Corpus.Pages.{ensure_initialized}
use smalt_mcp.Tools.Dispatch.{ToolDef}
use smalt_mcp.Tools.Links.{absent}
use smalt_mcp.Tools.Write.{parse_mode}
use smalt_mcp.Tools.Graph.{traverse}
use smalt_mcp.Tasks.Handlers.{parse_state, parse_limit, plus}
use smalt_mcp.Catalog.Inputs.{Shape, Fields, string, integer, one_of, object, end, field}
use smalt_mcp.Catalog.Handlers.{Handler}
use smalt_mcp.Catalog.Reading.{traverse_tool, task_list_tool}
use smalt_mcp.Catalog.Writing.{write_page_tool, write_pages_tool}

-- The schema of the argument `key`.
unfoldable pub property_of : Text → Fields → Option Shape
property_of key end = none
property_of key (field name shape default rest) =
    let later = property_of key rest in if text_eq name key then some shape else later

abbrev pub argument : Text → Shape → Option Shape
argument key (object fields required) = property_of key fields
argument key _ = none

-- What `enum` says of a string, and `minimum` and `maximum` of a number.
abbrev pub allows_text : Option Shape → Text → Bool
allows_text (some (one_of values)) t = member t values
allows_text (some string) t = true
allows_text _ t = false

abbrev at_least : Option ℕ → ℕ → Bool
at_least none n = true
at_least (some low) n = leb low n

abbrev at_most : Option ℕ → ℕ → Bool
at_most none n = true
at_most (some high) n = leb n high

abbrev pub allows_number : Option Shape → ℕ → Bool
allows_number (some (integer low high)) n = at_least low n && at_most high n
allows_number _ n = false

abbrev pub arg_of : Text → ToolDef Handler → Option Shape
arg_of key tool = argument key tool.spec.input_schema

abbrev pub is_done : {A : Type 0} → Outcome A → Bool
is_done (done a) = true
is_done (fail e) = false

-- A mode that is not empty is accepted exactly if the schemas of the two tools list it.
pub parse_mode-allows_text :
    (t : Text)
    → t ≢ []
    → (is_some (parse_mode (some t)) ≡ allows_text (arg_of (codes "mode") write_page_tool) t)
      × (is_some (parse_mode (some t)) ≡ allows_text (arg_of (codes "mode") write_pages_tool) t)
unfolding property_of
parse_mode-allows_text [] h = absurd (h refl)
parse_mode-allows_text (c ∷ t) h = (ground arith, ground arith)

-- `task_list` knows a state exactly if the enum of the tool's schema lists it.
pub parse_state-allows_text :
    (t : Text) → is_some (parse_state t) ≡ allows_text (arg_of (codes "state") task_list_tool) t
unfolding property_of
parse_state-allows_text t = ground arith

-- A limit that is no negative number is accepted exactly if the schema allows it.
pub parse_limit-allows_number :
    (n : ℕ)
    → is_done (parse_limit (plus n)) ≡ allows_number (arg_of (codes "limit") task_list_tool) n
unfolding property_of
parse_limit-allows_number n = ground arith

-- On a corpus that is there, `traverse` accepts a number of hops exactly if the tool's schema allows it.
pub traverse-allows_number :
    (x : External) (w : World x) (from_id : Text) (label : Option Text) (n : ℕ)
    → w.smalt_exists ≡ true
    → w.db_opens ≡ true
    → absent (some from_id) ≡ false
    → is_done (traverse x (some from_id) label (some n) w).0
      ≡ allows_number (arg_of (codes "hops") traverse_tool) n
unfolding property_of traverse ensure_initialized ◌>>=◌
traverse-allows_number x w from_id label n exists opens given = ground (arith, exists, opens, given)
