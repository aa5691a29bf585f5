-- ===== src/Tools/Clone.antt =====
-- clone_repo's host side in henry/sandbox/tools.py: `_REPO_RE`, `_download_github_tarball`,
-- `_safe_files_from_github_tarball` and `_safe_relative_dest`. The archive's members, as `tarfile`
-- lists them, are the input.
pub mod Download
pub mod Archive
pub mod Limits
use henry.Prelude.{if◌then◌else◌, ℕ, Bool, true, false, ◌&&◌, ◌||◌, [], ◌∷◌, ◌++◌, leb, ◌==◌}
use henry.Text.{Text, codes, ◌===◌, starts_with, has_char}
use henry.Result.{Result, ok, value_error, ◌>>=◌, ◌>>◌, raise_if}
use henry.PosixPath.{normpath, root, dot, dotdot}

-- One of `[A-Za-z0-9_.-]`.
unfoldable pub is_repo_char : ℕ → Bool
is_repo_char c =
    (leb b'A' c && leb c b'Z')
    || ((leb b'a' c && leb c b'z')
        || ((leb b'0' c && leb c b'9') || (c == b'_' || (c == b'.' || c == b'-'))))

-- `[A-Za-z0-9_.-]*`, then the rest of the pattern, whose first character is not in the class.
more_chars : (Text → Bool) → Text → Bool
more_chars next [] = next []
more_chars next (c ∷ t) = let on = more_chars next t in if is_repo_char c then on else next (c ∷ t)

-- `[A-Za-z0-9_.-]+`
some_chars : (Text → Bool) → Text → Bool
unfolding more_chars
some_chars next [] = false
some_chars next (c ∷ t) = is_repo_char c && more_chars next t

-- `$` stands at the end, and before a newline at the end.
at_end : Text → Bool
at_end [] = true
at_end (c ∷ t) = c == 10 && t === []

name_part : Text → Bool
unfolding some_chars at_end
name_part [] = false
name_part (c ∷ t) = c == b'/' && some_chars at_end t

-- `_REPO_RE.match(repo)`
unfoldable pub is_repo : Text → Bool
unfolding some_chars name_part is_repo_char
is_repo repo = some_chars name_part repo

-- `_safe_relative_dest`
unfoldable pub safe_relative_dest : Text → Result Text
safe_relative_dest dest = do
  raise_if (has_char 0 dest || starts_with root dest)
      (value_error (codes "dest must be a relative sandbox path"))
  let normalized = normpath dest
  raise_if
      ((normalized === [] || normalized === dot)
        || (normalized === dotdot || starts_with (codes "../") normalized))
      (value_error (codes "dest must stay inside the sandbox workspace"))
  ok normalized
