-- ===== src/Github/Paths.antt =====
-- _repo_path and _content_path of henry/integrations/builtins/github.py, with urllib's `quote`.
pub mod Segments
use henry.Prelude.{
  ℕ, ◌+◌, ◌/◌, ◌%◌, Bool, true, false, not, ◌&&◌, ◌||◌, List, [], ◌∷◌, ◌++◌, ltb, leb, ◌==◌,
  if◌then◌else◌,
}
use henry.Text.{Text, codes, ◌===◌, has_char, split}
use henry.Json.Bytes.{is_surrogate}
use henry.Result.{Result, ok, err, value_error, ◌>>=◌, ◌>>◌, raise_if}

-- The bytes of a character in UTF-8.
unfoldable pub encode_char : ℕ → List ℕ
encode_char c =
    if ltb c 0x80
    then c ∷ []
    else if ltb c 0x800
    then (192 + c / 64) ∷ (128 + c % 64) ∷ []
    else if ltb c 0x10000
    then (224 + c / 4096) ∷ (128 + c / 64 % 64) ∷ (128 + c % 64) ∷ []
    else (240 + c / 262144) ∷ (128 + c / 4096 % 64) ∷ (128 + c / 64 % 64) ∷ (128 + c % 64) ∷ []

-- Letters, digits and `_.-~`, which `quote` leaves as they are.
unfoldable pub is_unreserved : ℕ → Bool
is_unreserved b =
    (leb 65 b && leb b 90)
    || ((leb 97 b && leb b 122)
        || ((leb 48 b && leb b 57) || (b == 95 || (b == 46 || (b == 45 || b == 126)))))

hex_digit : ℕ → ℕ
hex_digit d = if ltb d 10 then 48 + d else 55 + d

unfoldable pub quote_byte : Text → ℕ → Text
unfolding hex_digit
quote_byte safe b =
    if is_unreserved b || has_char b safe
    then b ∷ []
    else 37 ∷ hex_digit (b / 16) ∷ hex_digit (b % 16) ∷ []

quote_bytes : Text → List ℕ → Text
quote_bytes safe [] = []
quote_bytes safe (b ∷ bytes) = quote_byte safe b ++ quote_bytes safe bytes

-- `quote(t, safe=safe)`; a lone surrogate has no UTF-8.
unfoldable pub quote : Text → Text → Result Text
unfolding quote_bytes
quote safe [] = ok []
quote safe (c ∷ t) = do
  raise_if (is_surrogate c) (value_error (codes "surrogates not allowed"))
  rest ← quote safe t
  ok (quote_bytes safe (encode_char c) ++ rest)

unfoldable pub repo_path : Text → Text → Result Text
repo_path owner repo = do
  raise_if (owner === [] || (repo === [] || (has_char 47 owner || has_char 47 repo)))
      (value_error (codes "owner and repo must be simple GitHub owner/name segments"))
  quoted_owner ← quote [] owner
  quoted_repo ← quote [] repo
  ok (quoted_owner ++ (codes "/" ++ quoted_repo))

-- `path.strip("/")`
strip_left : Text → Text
strip_left [] = []
strip_left (c ∷ t) = if c == 47 then strip_left t else c ∷ t

strip_right : Text → Text
strip_right [] = []
strip_right (c ∷ t) = let rest = strip_right t in if rest === [] && c == 47 then [] else c ∷ rest

has_segment : Text → List Text → Bool
has_segment w [] = false
has_segment w (v ∷ vs) = v === w || has_segment w vs

unfoldable pub content_path : Text → Result Text
unfolding strip_left strip_right has_segment
content_path path =
    let cleaned = strip_right (strip_left path) in
    raise_if (cleaned === [] || has_char 0 cleaned)
      (value_error (codes "path must be a non-empty repository path"))
    >> (raise_if (has_segment (codes "..") (split 47 cleaned))
          (value_error (codes "path must not contain parent directory segments"))
        >> quote (47 ∷ []) cleaned)
