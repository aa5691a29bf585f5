-- ===== src/Agent/Prompt/Forged.antt =====
-- A reserved tag that the user leaves open is closed by the frame of the prompt.
use henry.Prelude.{ℕ, ◌≡◌, Bool, true, ◌++◌}
use henry.Text.{Text, codes}
use henry.Sanitize.{matches_tag}

pub open_tag : Text
open_tag = codes "</user_request"

-- The prompt falls into two parts, of which the second starts with a reserved tag in the user's words.
pub record IsForged (is_alnum : ℕ → Bool) (prompt words : Text) : Type 0 where
  pub before : Text
  pub after : Text
  pub parts : prompt ≡ before ++ (words ++ after)
  pub tag : matches_tag is_alnum (words ++ after) ≡ true
