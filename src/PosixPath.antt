-- ===== src/PosixPath.antt =====
-- posixpath.normpath, join, dirname and basename of the Python standard library, over code points.
pub mod Normal
pub mod Relative
pub mod Joined
use henry.Prelude.{ℕ, Bool, true, false, not, ◌&&◌, ◌||◌, List, [], ◌∷◌, ◌++◌, ◌==◌, if◌then◌else◌}
use henry.Text.{Text, ◌===◌, starts_with, has_char, split, join}

-- The separator, `.` and `..`.
abbrev pub slash : ℕ
slash = b'/'

abbrev pub dot : Text
dot = b'.' ∷ []

abbrev pub dotdot : Text
dotdot = b'.' ∷ b'.' ∷ []

abbrev pub root : Text
root = slash ∷ []

-- Two slashes at the start stay two; one, or three and more, count as one.
initial_slashes : Text → Text
initial_slashes path =
    if starts_with (slash ∷ slash ∷ []) path && not (starts_with (slash ∷ slash ∷ slash ∷ []) path)
    then slash ∷ slash ∷ []
    else if starts_with (slash ∷ []) path
    then slash ∷ []
    else []

-- One round of normpath's loop. The components found so far stand last first.
push_component : Bool → List Text → Text → List Text
push_component rooted [] comp = if comp === dotdot && rooted then [] else comp ∷ []
push_component rooted (last ∷ done) comp =
    if not (comp === dotdot) || last === dotdot then comp ∷ last ∷ done else done

step : Bool → List Text → Text → List Text
unfolding push_component
step rooted done comp =
    if comp === [] || comp === dot then done else push_component rooted done comp

components : Bool → List Text → List Text → List Text
components rooted done [] = done
components rooted done (comp ∷ rest) = components rooted (step rooted done comp) rest

pub rev : List Text → List Text → List Text
rev acc [] = acc
rev acc (w ∷ ws) = rev (w ∷ acc) ws

pub or_dot : Text → Text
or_dot [] = dot
or_dot (c ∷ t) = c ∷ t

-- `posixpath.normpath(path)`; the empty path gives `.` too.
unfoldable pub normpath : Text → Text
unfolding initial_slashes step components rev or_dot
normpath path =
    let comps = components (starts_with root path) [] (split slash path) in
    or_dot (initial_slashes path ++ join root (rev [] comps))

ends_with_slash : Text → Bool
ends_with_slash [] = false
ends_with_slash (c ∷ []) = c == slash
ends_with_slash (c ∷ d ∷ t) = ends_with_slash (d ∷ t)

-- `posixpath.join(a, b)`
unfoldable pub join_path : Text → Text → Text
unfolding ends_with_slash
join_path a b =
    if starts_with root b
    then b
    else if a === [] || ends_with_slash a
    then a ++ b
    else a ++ slash ∷ b
