-- ===== src/PosixPath/Normal.antt =====
-- What normpath returns for a path that starts with a slash.
use henry.Prelude.{◌≡◌, refl, ◌∙◌, ◌≢◌, ◌⊎◌, inl, inr, true, false, List, [], ◌∷◌, ◌++◌, arith, All}
use henry.Text.{Text, codes, text_ops, ===_iff, starts_with, has_char, split, join}
use henry.Text.Split.{split-All}
use henry.PosixPath.{
  normpath, dot, dotdot, slash, root, initial_slashes, step, components, rev, or_dot,
}

-- A name that one step down the tree may use.
abbrev pub IsName : Text → Type 0
IsName w = (w ≢ []) × (w ≢ dot) × (w ≢ dotdot) × (has_char slash w ≡ false)

pub names-slash_free : (ds : List Text) → All IsName ds → All (λ w. has_char slash w ≡ false) ds
names-slash_free [] h = tt
names-slash_free (d ∷ ds) h = (h.0.3, names-slash_free ds h.1)

-- One slash, or the two that POSIX leaves to the system, and then names only.
pub data IsRooted (p : Text) : Type 0 where
  one_slash : (ds : List Text) → All IsName ds → p ≡ slash ∷ join root ds → IsRooted p
  two_slashes : (ds : List Text) → All IsName ds → p ≡ slash ∷ slash ∷ join root ds → IsRooted p

step-IsName :
    (done : List Text) (comp : Text)
    → All IsName done
    → has_char slash comp ≡ false
    → All IsName (step true done comp)
unfolding step
step-IsName [] comp h k = ground (arith, ===_iff comp [], ===_iff comp dot, ===_iff comp dotdot)
step-IsName (last ∷ done) comp h k =
    ground (arith, ===_iff comp [], ===_iff comp dot, ===_iff comp dotdot, ===_iff last dotdot)

components-IsName :
    (done parts : List Text)
    → All IsName done
    → All (λ w. has_char slash w ≡ false) parts
    → All IsName (components true done parts)
unfolding components
components-IsName done [] h k = h
components-IsName done (comp ∷ rest) h k =
    components-IsName (step true done comp) rest (step-IsName done comp h k.0) k.1

pub rev-All {κ} :
    (P : Text → Type κ) (acc ws : List Text) → All P acc → All P ws → All P (rev acc ws)
unfolding rev
rev-All P acc [] h k = h
rev-All P acc (w ∷ ws) h k = rev-All P (w ∷ acc) ws (k.0, h) k.1

initial_slashes-cases :
    (path : Text)
    → starts_with root path ≡ true
    → (initial_slashes path ≡ slash ∷ []) ⊎ (initial_slashes path ≡ slash ∷ slash ∷ [])
unfolding initial_slashes
initial_slashes-cases path h = ground arith

path_components : Text → List Text
path_components path = rev [] (components true [] (split slash path))

path_components-IsName : (path : Text) → All IsName (path_components path)
unfolding path_components
path_components-IsName path =
    rev-All IsName [] (components true [] (split slash path)) tt
      (components-IsName [] (split slash path) tt (split-All slash path))

normpath-rooted :
    (path : Text)
    → starts_with root path ≡ true
    → normpath path ≡ or_dot (initial_slashes path ++ join root (path_components path))
unfolding normpath path_components
normpath-rooted path h = rw h

-- The normal form of a path from the root has no component that is empty, `.` or `..`.
pub normpath-IsRooted : (path : Text) → starts_with root path ≡ true → IsRooted (normpath path)
unfolding or_dot
normpath-IsRooted path h = elim (initial_slashes-cases path h) [
  | inl e ↦
      one_slash (path_components path) (path_components-IsName path) (normpath-rooted path h ∙ rw e)
  | inr e ↦
      two_slashes (path_components path) (path_components-IsName path)
        (normpath-rooted path h ∙ rw e)
]

n1 : normpath (codes "/a/./b/../c//d/") ≡ codes "/a/c/d"
unfolding normpath text_ops
n1 = refl

n2 : normpath (codes "../a/../../b") ≡ codes "../../b"
unfolding normpath text_ops
n2 = refl

n3 : normpath (codes "//../..//a") ≡ codes "//a"
unfolding normpath text_ops
n3 = refl
