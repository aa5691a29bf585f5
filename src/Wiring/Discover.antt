-- ===== src/Wiring/Discover.antt =====
-- `discover` and `get_integrations` of henry/integrations/registry.py. What each module of the builtins
-- gives is the input.
use henry.Prelude.{Bool, true, false, Option, none, some, List, [], ◌∷◌, ◌++◌}
use henry.Text.{Text, codes}
use henry.Dict.{Dict, lookup, insert}
use henry.Result.{Result, ok, value_error, ◌>>◌, raise_if}
use henry.Mcp.Definition.{ServerDef, Toolset}

-- An integration: one of the builtins, by its name, or an MCPIntegration with its `_toolset`.
pub data Integration : Type 0 where
  builtin : (name : Text) → Integration
  mcp : (name : Text) (definition : ServerDef) (toolset : Option Toolset) → Integration

unfoldable pub is_in : Dict Integration → Text → Bool
is_in d name = elim (lookup name d) [ none ↦ false | some i ↦ true ]

-- `discover`, from the names of the integrations that the modules give
unfoldable pub discover : Dict Integration → List Text → Result (Dict Integration)
unfolding is_in
discover found [] = ok found
discover found (name ∷ names) = do
  raise_if (is_in found name) (value_error (codes "duplicate integration " ++ name))
  discover (insert name (builtin name) found) names

-- `get_integrations`
unfoldable pub get_integrations : List Text → Dict Integration → List Integration
get_integrations [] registry = []
get_integrations (name ∷ names) registry =
    let rest = get_integrations names registry in
    elim (lookup name registry) [ none ↦ rest | some i ↦ i ∷ rest ]
