-- ===== src/Mcp/Expand.antt =====
-- `_VAR_RE` and `_expand` of henry/integrations/mcp.py. The environment is a function.
pub mod Course
use henry.Prelude.{
  ℕ, zero, suc, ◌+◌, ◌-◌, Bool, true, false, not, ◌&&◌, ◌||◌, Option, none, some, List, [], ◌∷◌,
  ◌++◌, length, leb, ◌==◌, if◌then◌else◌,
}
use mathlib.Core.Option
use henry.Text.{Text, codes}
use henry.Result.{Result, ok, err, Error, value_error, ◌>>=◌}

-- A match of the pattern at the start of a text: its groups, and how many characters it takes.
pub record Var : Type 0 where
  pub name : Text
  pub default : Option Text
  pub size : ℕ

-- `[A-Za-z_]` and `[A-Za-z0-9_]`
unfoldable pub is_name_start : ℕ → Bool
is_name_start c = (leb b'A' c && leb c b'Z') || ((leb b'a' c && leb c b'z') || c == b'_')

unfoldable pub is_name_char : ℕ → Bool
unfolding is_name_start
is_name_char c = is_name_start c || (leb b'0' c && leb c b'9')

-- `[^}]*\}`: what stands before the brace, if there is one.
until_brace : Text → Option Text
until_brace [] = none
until_brace (c ∷ t) =
    let rest = until_brace t in if c == b'}' then some [] else Option.map (λ w. c ∷ w) rest

-- `(?::-(?P<default>[^}]*))?\}`, behind a name.
after_name : Text → Text → Option Var
unfolding until_brace
after_name name [] = none
after_name name (c ∷ []) =
    if c == b'}'
    then some (record { name = name; default = none; size = length name + 3 })
    else none
after_name name (c ∷ d ∷ t) =
    if c == b'}'
    then some (record { name = name; default = none; size = length name + 3 })
    else if c == b':' && d == b'-'
    then Option.map
        (λ w. record { name = name; default = some w; size = length name + (length w + 5) })
        (until_brace t)
    else none

-- The name, as long as its characters go on: what follows it is none of them.
more_name : Text → Text → Option Var
unfolding after_name
more_name name [] = none
more_name name (c ∷ t) =
    let longer = more_name (name ++ c ∷ []) t in
    if is_name_char c then longer else after_name name (c ∷ t)

start_name : Text → Option Var
unfolding more_name
start_name [] = none
start_name (c ∷ t) = if is_name_start c then more_name (c ∷ []) t else none

-- `_VAR_RE` at the start of the text.
pub var_at : Text → Option Var
unfolding start_name
var_at [] = none
var_at (c ∷ []) = none
var_at (c ∷ d ∷ t) = if c == b'$' && d == b'{' then start_name t else none

module _ (environ : Text → Option Text) (server : Text) where
  pub undefined : Text → Error
  undefined name = value_error (
      codes "mcp server '"
      ++ (server ++ (codes "': undefined environment variable ${" ++ (name ++ codes "}"))))

  -- `os.environ.get(name, default)`, and the exception.
  resolved : Text → Option Text → Option Text → Result Text
  unfolding undefined
  resolved name default (some value) = ok value
  resolved name (some default) none = ok default
  resolved name none none = err (undefined name)

  pub resolve : Text → Option Text → Result Text
  unfolding resolved
  resolve name default = resolved name default (environ name)

  -- What stands for the text's first character, and how many characters behind it are used up.
  replacement : ℕ → Option Var → Result Text
  unfolding resolve
  replacement c none = ok (c ∷ [])
  replacement c (some v) = resolve v.name v.default

  used : Option Var → ℕ
  used none = 0
  used (some v) = v.size - 1

  -- `_VAR_RE.sub`, from left to right. The number counts the characters of a match still to be passed.
  substitute : ℕ → Text → Result Text
  unfolding replacement used var_at
  substitute k [] = ok []
  substitute (suc k) (c ∷ t) = substitute k t
  substitute zero (c ∷ t) =
      let v = var_at (c ∷ t) in
      replacement c v >>= (λ piece. substitute (used v) t >>= (λ rest. ok (piece ++ rest)))

  -- `_expand`
  unfoldable pub expand : Text → Result Text
  unfolding substitute
  expand value = substitute 0 value
