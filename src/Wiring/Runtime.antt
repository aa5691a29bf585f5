-- ===== src/Wiring/Runtime.antt =====
-- build_runtime's registry of integrations and HenryRuntime.close of henry/wiring.py.
pub mod Registry
pub mod Closed
use henry.Prelude.{
  ℕ, Bool, true, false, not, Option, none, some, List, [], ◌∷◌, ◌++◌, map, keep_if, if◌then◌else◌,
}
use henry.Text.{Text, codes, ◌===◌, join}
use henry.Dict.{Dict, lookup, insert}
use henry.Result.{Result, ok, err, Error, value_error, ◌>>=◌, ◌>>◌, raise_if}
use henry.Wiring.Discover.{Integration, builtin, mcp, is_in, discover}
use henry.Mcp.Definition.{ServerDef, Validated, Toolset, CloseOutcome, aclose}

-- The loop that adds the servers.
add_servers : Dict Integration → List (Text × Validated) → Dict Integration
add_servers registry [] = registry
add_servers registry ((name, v) ∷ servers) =
    add_servers (insert name (mcp name v.definition none) registry) servers

server_names : List (Text × Validated) → List Text
server_names servers = map (λ (s : Text × Validated). s.0) servers

-- `set(registry) & set(mcp_definitions)`
overlap : Dict Integration → List (Text × Validated) → List Text
unfolding server_names is_in
overlap registry servers = keep_if (λ n. is_in registry n) (server_names servers)

refuse_overlap : (List Text → List Text) → List Text → Result (Unit {0})
refuse_overlap sorted [] = ok tt
refuse_overlap sorted (n ∷ names) = err (
    value_error (
      codes "mcp server name(s) collide with builtin integrations: "
      ++ join (codes ", ") (sorted (n ∷ names))))

-- The registry of build_runtime: the one that is given, or the builtins and the servers. `servers` is
-- what load_mcp_config returns.
unfoldable pub build_registry :
    (sorted : List Text → List Text)
    → Option (Dict Integration)
    → (names : List Text) (servers : Result (List (Text × Validated))) → Result (Dict Integration)
unfolding add_servers overlap refuse_overlap
build_registry sorted (some given) names servers = ok given
build_registry sorted none names servers = do
  registry ← discover [] names
  definitions ← servers
  refuse_overlap sorted (overlap registry definitions)
  ok (add_servers registry definitions)

-- What `close` asks of the outside, in order.
pub data Closing : Type 0 where
  toolset_closed : (name : Text) → Closing
  http_closed engine_disposed : Closing

asked : Text → Option Toolset → List Closing
asked name none = []
asked name (some t) = toolset_closed name ∷ []

-- The `finally` clause: the engine is disposed of in each case, and its exception goes first.
dispose : Result (Unit {0}) → Result (Unit {0}) → Result (Unit {0})
dispose (err e) http = err e
dispose (ok u) http = http

module _ (outcome : Text → CloseOutcome) (http engine : Result (Unit {0})) where
  close_rest : List Closing → List Closing × Result (Unit {0})
  unfolding dispose
  close_rest so_far = (so_far ++ http_closed ∷ engine_disposed ∷ [], dispose engine http)

  -- One server has been closed, or its closing was cancelled, which no handler catches.
  after_server :
      Result (List Text)
      → List Closing
      → (List Closing → List Closing × Result (Unit {0}))
      → List Closing × Result (Unit {0})
  after_server (ok logged) so_far go_on = go_on so_far
  after_server (err e) so_far go_on = (so_far, err e)

  close_from : List Closing → List Integration → List Closing × Result (Unit {0})
  unfolding close_rest after_server asked
  close_from so_far [] = close_rest so_far
  close_from so_far (builtin name ∷ is) = close_from so_far is
  close_from so_far (mcp name d toolset ∷ is) =
      after_server (aclose toolset (outcome name)).0 (so_far ++ asked name toolset)
        (λ so_far'. close_from so_far' is)

  -- `HenryRuntime.close`
  unfoldable pub close : List Integration → List Closing × Result (Unit {0})
  unfolding close_from
  close integrations = close_from [] integrations
