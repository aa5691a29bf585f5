-- ===== src/Tools/Clone/Archive.antt =====
-- `_safe_files_from_github_tarball` of henry/sandbox/tools.py: the loop over the members of the archive.
pub mod Sound
pub mod Complete
use henry.Prelude.{
  ℕ, suc, ◌+◌, ◌*◌, ltb, ◌==◌, Bool, true, false, not, ◌&&◌, ◌||◌, Option, none, some, List, [],
  ◌∷◌, ◌++◌, length, take, if◌then◌else◌,
}
use henry.Text.{Text, codes, ◌===◌, starts_with, split}
use henry.Result.{Result, ok, err, value_error, ◌>>=◌, ◌>>◌, raise_if}
use henry.PosixPath.{normpath, join_path, root, slash, dot, dotdot}

-- `_MAX_CLONE_FILE_BYTES`, `_MAX_CLONE_TOTAL_BYTES` and `_MAX_CLONE_FILES`
unfoldable pub max_clone_file_bytes : ℕ
max_clone_file_bytes = 4 * 1024 * 1024

unfoldable pub max_clone_total_bytes : ℕ
max_clone_total_bytes = 64 * 1024 * 1024

unfoldable pub max_clone_files : ℕ
max_clone_files = 2000

-- What `isdir`, `issym` or `islnk`, and `isfile` say of a member.
pub data Kind : Type 0 where
  directory link regular special : Kind

-- A member of the archive. `extracted` is what `extractfile` gives, read to its end.
pub record Member : Type 0 where
  pub name : Text
  pub kind : Kind
  pub size : ℕ
  pub extracted : Option Text

-- The variables of the loop.
pub record Scan : Type 0 where
  pub top : Option Text
  pub total_bytes : ℕ
  pub files : List (Text × Text)

abbrev pub start_scan : Scan
start_scan = record { top = none; total_bytes = 0; files = [] }

abbrev pub climb : Text
climb = b'.' ∷ b'.' ∷ b'/' ∷ []

-- `posixpath.join(*parts)`
pub join_parts : Text → List Text → Text
join_parts a [] = a
join_parts a (b ∷ bs) = join_parts (join_path a b) bs

is_directory : Kind → Bool
is_directory directory = true
is_directory k = false

is_link : Kind → Bool
is_link link = true
is_link k = false

is_regular : Kind → Bool
is_regular regular = true
is_regular k = false

-- From the check of the size in the header to the end of the round.
read_member : Member → Text → Scan → Option Text → Result Scan
read_member m rel_path s none =
    err (value_error (codes "repository file could not be extracted: " ++ rel_path))
read_member m rel_path s (some contents) = do
  let content = take (suc max_clone_file_bytes) contents
  raise_if (ltb max_clone_file_bytes (length content))
      (value_error (codes "repository file exceeds sandbox clone size limit: " ++ rel_path))
  raise_if (ltb max_clone_total_bytes (s.total_bytes + length content))
      (value_error (codes "repository archive exceeds sandbox clone total size limit"))
  raise_if (ltb max_clone_files (length (s.files ++ (rel_path, content) ∷ [])))
      (value_error (codes "repository archive exceeds sandbox clone file-count limit"))
  ok (record s {
    total_bytes = s.total_bytes + length content;
    files = s.files ++ (rel_path, content) ∷ [];
  })

-- From the check of the kind on.
add_file : Member → Text → Scan → Result Scan
unfolding is_link is_regular read_member
add_file m rel_path s = do
  raise_if (is_link m.kind)
      (value_error (codes "repository archive links are not supported: " ++ rel_path))
  raise_if (not (is_regular m.kind))
      (value_error (codes "repository archive member is not a regular file: " ++ rel_path))
  raise_if (ltb max_clone_file_bytes m.size)
      (value_error (codes "repository file exceeds sandbox clone size limit: " ++ rel_path))
  read_member m rel_path s m.extracted

add_below : Member → Text → Scan → Result Scan
unfolding add_file is_directory
add_below m rel_path s = do
  raise_if (rel_path === dot || (starts_with climb rel_path || starts_with root rel_path))
      (value_error (codes "unsafe repository path: " ++ m.name))
  if is_directory m.kind then ok s else add_file m rel_path s

-- `root`, which the first member sets.
set_top : Option Text → Text → Text
set_top none first = first
set_top (some top) first = top

-- From `if len(parts) == 1: continue` on, for the parts below the first.
add_rest : Member → Scan → List Text → Result Scan
unfolding add_below join_parts
add_rest m s [] = ok s
add_rest m s (part ∷ parts) = add_below m (normpath (join_parts part parts)) s

-- The rest of a round, from the parts of the normal path.
add_parts : Member → Scan → List Text → Result Scan
unfolding add_rest set_top
add_parts m s [] = err (value_error (codes "repository archive contains multiple roots"))
add_parts m s (first ∷ below) = do
  let top = set_top s.top first
  raise_if (not (first === top)) (value_error (codes "repository archive contains multiple roots"))
  add_rest m (record s { top = some top }) below

-- One round of the loop.
add_member : Scan → Member → Result Scan
unfolding add_parts
add_member s m = do
  let normalized = normpath m.name
  raise_if (starts_with root m.name || (normalized === dotdot || starts_with climb normalized))
      (value_error (codes "unsafe archive path: " ++ m.name))
  add_parts m s (split slash normalized)

scan_members : Scan → List Member → Result Scan
scan_members s [] = ok s
scan_members s (m ∷ ms) = do s' ← add_member s m; scan_members s' ms

unfoldable pub safe_files : List Member → Result (List (Text × Text))
unfolding add_member scan_members
safe_files members = do s ← scan_members start_scan members; ok s.files
