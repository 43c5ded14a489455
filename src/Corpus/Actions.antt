-- ===== src/Corpus/Actions.antt =====
-- A tool handler: it changes the state, and ends with a payload or with an error. What was written
-- before an error stays written, so the state comes back beside the error too.
use smalt_mcp.Prelude.{ℕ, Bool, true, false, Option, none, some, List, ◌∷◌, Text}

-- The `error` of an error payload, with the fields by which callers tell them apart. An uncaught
-- exception is `tool_error`, and the errors `unknown_tool` and `forbidden` are `no_such_tool` and
-- `forbidden_tool`, as `call_tool` of src/smalt_mcp/server.py reports them.
pub data Failure : Type 0 where
  smalt_not_initialized missing_argument invalid_argument validation_error : Failure
  forbidden_page_type tool_error task_cancelled no_such_tool forbidden_tool : Failure
  validation_error_at forbidden_page_type_at invalid_argument_at unknown_kind_at : ℕ → Failure
  not_found uuid_collision file_not_found vector_search_failed : Text → Failure
  not_found_at parse_error_at uuid_collision_at : ℕ → Text → Failure
  claim_not_found : Text → Text → Failure
  -- the alias, whether the matches are fuzzy, and their ids
  ambiguous_alias : Text → Bool → List Text → Failure
  -- `claim_lost_at` is a `claim_not_found` whose message says `at commit time`.
  claim_not_found_at claim_lost_at : ℕ → Text → Text → Failure

pub data Outcome (A : Type 0) : Type 0 where
  done : A → Outcome A
  fail : Failure → Outcome A

abbrev pub Action : Type 0 → Type 0 → Type 0
Action W A = W → Outcome A × W

abbrev found : {A : Type 0} → Option A → Failure → Outcome A
found none e = fail e
found (some a) e = done a

abbrev stopped : Bool → Failure → Outcome (Unit {0})
stopped true e = fail e
stopped false e = done tt

-- A list of outcomes that are all wanted: the first failure counts.
abbrev pub cons_outcome : {A : Type 0} → Outcome A → Outcome (List A) → Outcome (List A)
cons_outcome (fail e) rest = fail e
cons_outcome (done a) (fail e) = fail e
cons_outcome (done a) (done rest) = done (a ∷ rest)

-- An outcome that was found without the state.
abbrev pub settled : {W A : Type 0} → Outcome A → Action W A
settled o w = (o, w)

module _ {W : Type 0} {A : Type 0} where
  pub pure : A → Action W A
  pure a w = (done a, w)

  pub stop : Failure → Action W A
  stop e w = (fail e, w)

  pub gets : (W → A) → Action W A
  gets f w = (done (f w), w)

  -- An absent value ends the handler with `e`.
  pub or_stop : Option A → Failure → Action W A
  or_stop o e w = (found o e, w)

module _ {W : Type 0} where
  pub stop_if : Bool → Failure → Action W (Unit {0})
  stop_if b e w = (stopped b e, w)

abbrev pub continue : {W A B : Type 0} → Outcome A → (A → Action W B) → Action W B
continue (done a) f w = f a w
continue (fail e) f w = (fail e, w)

infixl 5 ◌>>=◌ ◌>>◌
-- opening this opens `pure`, `stop`, `gets`, `or_stop` and `stop_if` too
unfoldable pub ◌>>=◌ : {W A B : Type 0} → Action W A → (A → Action W B) → Action W B
unfolding pure stop gets or_stop stop_if
◌>>=◌ m f w = continue (m w).0 f (m w).1

abbrev pub ◌>>◌ : {W A B : Type 0} → Action W A → Action W B → Action W B
m >> k = m >>= λ _. k
