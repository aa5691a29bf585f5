-- ===== src/Mcp/Load.antt =====
-- `_expand_all` and `load_mcp_config` of henry/integrations/mcp.py. What the file holds is the input, and
-- `validate`, pydantic's validation of the fields by their types, is a parameter.
pub mod Named
use henry.Prelude.{
  ℕ, Bool, true, false, not, ◌&&◌, ◌||◌, Option, none, some, List, [], ◌∷◌, ◌++◌, length, leb, ◌==◌,
  if◌then◌else◌,
}
use henry.Text.{Text, codes}
use henry.Json.{
  Json, Items, Fields, null, boolean, integer, float, str, arr, obj, nil, cons, done, field, get,
}
use henry.Result.{
  Result, ok, err, Error, value_error, file_not_found, message, ◌>>=◌, ◌>>◌, raise_if,
}
use henry.Mcp.Expand.{expand}
use henry.Mcp.Definition.{Validated, exactly_one_transport}

module _ (environ : Text → Option Text) (server : Text) where
  -- `walk`
  mutual
    walk : Json → Result Json
    walk null = ok null
    walk (boolean b) = ok (boolean b)
    walk (integer i) = ok (integer i)
    walk (float f) = ok (float f)
    walk (str t) = expand environ server t >>= (λ t'. ok (str t'))
    walk (arr items) = walk_items items >>= (λ items'. ok (arr items'))
    walk (obj fields) = walk_fields fields >>= (λ fields'. ok (obj fields'))

    walk_items : Items → Result Items
    walk_items nil = ok nil
    walk_items (cons v items) =
        walk v >>= (λ v'. walk_items items >>= (λ items'. ok (cons v' items')))

    -- `_expand_all`; the keys stay as they are.
    walk_fields : Fields → Result Fields
    walk_fields done = ok done
    walk_fields (field k v fields) =
        walk v >>= (λ v'. walk_fields fields >>= (λ fields'. ok (field k v' fields')))

-- `_NAME_RE.fullmatch`
unfoldable pub is_name_char : ℕ → Bool
is_name_char c =
    (leb b'a' c && leb c b'z')
    || ((leb b'A' c && leb c b'Z') || ((leb b'0' c && leb c b'9') || (c == b'_' || c == b'-')))

all_name_chars : Text → Bool
unfolding is_name_char
all_name_chars [] = true
all_name_chars (c ∷ t) = is_name_char c && all_name_chars t

pub is_server_name : Text → Bool
unfolding all_name_chars
is_server_name name = (leb 1 (length name) && leb (length name) 64) && all_name_chars name

-- What the path of the configuration leads to.
pub data File : Type 0 where
  missing : File
  malformed : Text → File
  parsed : Json → File

-- A message of the pattern `{file}: server {name!r} {what}`
server_error : (path name what : Text) → Error
server_error path name what =
    value_error (path ++ (codes ": server '" ++ (name ++ (codes "'" ++ what))))

module _ (environ : Text → Option Text) (validate : Fields → Result Validated) (path : Text) where
  wrapped : Text → Result Validated → Result Validated
  unfolding server_error
  wrapped name (ok v) = ok v
  wrapped name (err e) = err (server_error path name (codes ": " ++ message e))

  -- One server: the type of its value, the expansion and the validation.
  define : Text → Json → Result Validated
  unfolding wrapped walk_fields server_error
  define name (obj raw) =
      walk_fields environ name raw
      >>= (λ expanded. wrapped name (validate expanded >>= exactly_one_transport))
  define name other = err (server_error path name (codes " must be an object"))

  -- The loop over the servers.
  pub define_all : Fields → Result (List (Text × Validated))
  unfolding define is_server_name
  define_all done = ok []
  define_all (field name raw fields) = do
    raise_if (not (is_server_name name))
        (value_error (path ++ (codes ": invalid server name '" ++ (name ++ codes "'"))))
    v ← define name raw
    rest ← define_all fields
    ok ((name, v) ∷ rest)

  no_servers : Error
  no_servers = value_error (path ++ codes ": top-level 'mcpServers' object is required")

  of_servers : Json → Result (List (Text × Validated))
  unfolding no_servers define_all
  of_servers (obj servers) = define_all servers
  of_servers other = err no_servers

  of_payload : Json → Result (List (Text × Validated))
  unfolding of_servers no_servers
  of_payload (obj payload) = of_servers (get (codes "mcpServers") payload)
  of_payload other = err no_servers

  -- `load_mcp_config`
  unfoldable pub load_mcp_config : File → (explicit : Bool) → Result (List (Text × Validated))
  unfolding of_payload
  load_mcp_config missing true =
      err (file_not_found (codes "HENRY_MCP_CONFIG_PATH points to a missing file: " ++ path))
  load_mcp_config missing false = ok []
  load_mcp_config (malformed detail) explicit =
      err (value_error (codes "malformed JSON in " ++ (path ++ (codes ": " ++ detail))))
  load_mcp_config (parsed payload) explicit = of_payload payload
