-- ===== src/Mcp/Expand/Course.antt =====
-- What `_expand` makes of a reference and of the text around it.
use henry.Prelude.{ℕ, ◌≡◌, true, false, Option, none, some, [], ◌∷◌, ◌++◌, All}
use henry.Text.{Text, has_char}
use henry.Result.{Result}
use henry.Mcp.Expand.{is_name_start, is_name_char}

-- A name of a variable, as the pattern has it.
pub record IsVarName (name : Text) : Type 0 where
  pub first : ℕ
  pub others : Text
  pub shape : name ≡ first ∷ others
  pub start : is_name_start first ≡ true
  pub chars : All (λ c. is_name_char c ≡ true) others

abbrev opening : Text
opening = b'$' ∷ b'{' ∷ []

abbrev colon_dash : Text
colon_dash = b':' ∷ b'-' ∷ []

abbrev closing : Text
closing = b'}' ∷ []

-- How a reference is written: `${name}` or `${name:-default}`.
unfoldable pub written : Text → Option Text → Text
written name none = b'$' ∷ b'{' ∷ (name ++ b'}' ∷ [])
written name (some default) = b'$' ∷ b'{' ∷ (name ++ b':' ∷ b'-' ∷ (default ++ b'}' ∷ []))

-- A default ends at the first brace.
abbrev pub DefaultCloses : Option Text → Type 0
DefaultCloses none = Unit
DefaultCloses (some default) = has_char b'}' default ≡ false
