-- ===== src/Sanitize.antt =====
-- henry/sanitize.py: the reserved tags and `neutralize_delimiters`. `is_alnum` is `str.isalnum` of one
-- character.
pub mod Clean
pub mod Unclosed
pub mod Cut
mod Tests
use henry.Prelude.{
  ℕ, ◌+◌, Bool, true, false, not, ◌&&◌, ◌||◌, List, [], ◌∷◌, ◌++◌, leb, ◌==◌, if◌then◌else◌,
}
use henry.Text.{Text, codes, has_char}
use henry.Text.Words.{is_space}

-- `RESERVED_TAGS`
pub reserved_tags : List Text
reserved_tags =
    codes "slack_thread" ∷ codes "user_request" ∷ codes "channel_memory" ∷ codes "integrations" ∷ []

abbrev pub less : ℕ
less = b'<'

abbrev pub greater : ℕ
greater = b'>'

-- The letter of the tags' names that `re.IGNORECASE` takes a character for: beside the capitals,
-- the long s, the dotted capital and the dotless i, and the sign for kelvin.
fold : ℕ → ℕ
fold c =
    if leb b'A' c && leb c b'Z'
    then c + 32
    else if c == 0x17f
    then b's'
    else if c == 0x130 || c == 0x131
    then b'i'
    else if c == 0x212a
    then b'k'
    else c

-- `\s*`
pub skip_spaces : Text → Text
skip_spaces [] = []
skip_spaces (c ∷ t) = let rest = skip_spaces t in if is_space c then rest else c ∷ t

-- `/?`
pub skip_slash : Text → Text
skip_slash [] = []
skip_slash (c ∷ t) = if c == b'/' then t else c ∷ t

-- The two replacements, on one character of a match.
escape : ℕ → Text
escape c =
    if c == less
    then b'&' ∷ b'l' ∷ b't' ∷ b';' ∷ []
    else if c == greater
    then b'&' ∷ b'g' ∷ b't' ∷ b';' ∷ []
    else c ∷ []

module _ (is_alnum : ℕ → Bool) where
  is_word : ℕ → Bool
  is_word c = is_alnum c || c == b'_'

  -- `\b[^>]*>`, behind a word character.
  closes : Text → Bool
  unfolding is_word
  closes [] = false
  closes (c ∷ t) = not (is_word c) && has_char greater (c ∷ t)

  -- One name, and what follows it.
  pub names_tag : Text → Text → Bool
  unfolding closes fold
  names_tag [] t = closes t
  names_tag (p ∷ name) [] = false
  names_tag (p ∷ name) (c ∷ t) = fold c == p && names_tag name t

  pub names_any : List Text → Text → Bool
  unfolding names_tag
  names_any [] t = false
  names_any (name ∷ names) t = names_tag name t || names_any names t

  -- The pattern matches at the start of the text. The match ends at the next `>`.
  pub matches_tag : Text → Bool
  unfolding names_any skip_spaces skip_slash
  matches_tag [] = false
  matches_tag (c ∷ t) =
      c == less && names_any reserved_tags (skip_spaces (skip_slash (skip_spaces t)))

  -- `sub`, from left to right; the flag says that a match has begun and its `>` is still to come.
  substitute : Bool → Text → Text
  unfolding escape
  substitute inside [] = []
  substitute true (c ∷ t) = escape c ++ substitute (not (c == greater)) t
  substitute false (c ∷ t) =
      let here = matches_tag (c ∷ t) in (if here then escape c else c ∷ []) ++ substitute here t

  unfoldable pub neutralize_delimiters : Text → Text
  unfolding substitute matches_tag reserved_tags
  neutralize_delimiters text = substitute false text
