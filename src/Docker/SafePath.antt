-- ===== src/Docker/SafePath.antt =====
-- DockerSandbox._safe_path of henry/sandbox/docker.py.
pub mod Inside
use henry.Prelude.{Bool, not, ◌&&◌, ◌||◌, ◌++◌, if◌then◌else◌}
use henry.Text.{Text, codes, ◌===◌, starts_with, has_char}
use henry.Result.{Result, ok, path_error, ◌>>=◌, ◌>>◌, raise_if}
use henry.PosixPath.{normpath, join_path, root, dot}

-- A path is taken from the workspace, unless it starts with a slash.
raw_path : Text → Text → Text
raw_path workdir path = if starts_with root path then path else join_path workdir path

check_inside : Text → Text → Text → Result Text
check_inside workdir path normalized = do
  raise_if (normalized === dot || normalized === root)
      (path_error (codes "path must stay inside the sandbox workspace"))
  raise_if (not (normalized === workdir) && not (starts_with (workdir ++ root) normalized))
      (path_error (codes "path escapes sandbox workspace: " ++ path))
  ok normalized

unfoldable pub safe_path : Text → Text → Result Text
unfolding raw_path check_inside
safe_path policy_workdir path = do
  raise_if (has_char 0 path) (path_error (codes "paths may not contain NUL bytes"))
  let workdir = normpath policy_workdir
  check_inside workdir path (normpath (raw_path workdir path))
