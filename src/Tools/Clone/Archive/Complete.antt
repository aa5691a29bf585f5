-- ===== src/Tools/Clone/Archive/Complete.antt =====
-- Which files `_safe_files_from_github_tarball` returns: all of the archive, whole and in order.
use henry.Prelude.{
  ℕ, zero, suc, ◌+◌, ◌≤◌, ltb, ltb-false→le, ◌≡◌, refl, ap, sym, subst, ◌∙◌, Bool, true, false, not,
  ◌||◌, Option, none, some, List, [], ◌∷◌, ◌++◌, arith, length, take, append-nil, append_assoc,
  if◌then◌else◌, All, concat, map,
}
use henry.Text.{Text, ◌===◌, starts_with, split, join}
use henry.Result.{ok, Ensures, Ensures-bind-with, Ensures-ok, Ensures-unless}
use henry.PosixPath.{normpath, root, slash, dot}
use henry.PosixPath.Normal.{IsName}
use henry.PosixPath.Relative.{IsBelow}
use henry.Tools.Clone.Archive.{
  max_clone_file_bytes, max_clone_total_bytes, max_clone_files, Member, Scan, start_scan, climb,
  is_directory, is_link, is_regular, set_top, read_member, add_file, add_below, add_rest, add_parts,
  add_member, scan_members, safe_files,
}
use henry.Tools.Clone.Archive.Sound.{rel_path-names, IsBelow-parts, is_unsafe, member-IsBelow}

contents_or_empty : Option Text → Text
contents_or_empty none = []
contents_or_empty (some contents) = contents

-- A member that is not a directory, by its path below the top.
listed_below : Member → List Text → List (Text × Text)
unfolding contents_or_empty is_directory
listed_below m [] = []
listed_below m (first ∷ []) = []
listed_below m (first ∷ part ∷ parts) =
    if is_directory m.kind
    then []
    else (join root (part ∷ parts), contents_or_empty m.extracted) ∷ []

-- The files that stand in the archive below its top directory.
unfoldable pub files_below : List Member → List (Text × Text)
unfolding listed_below
files_below members =
    concat (map (λ (m : Member). listed_below m (split slash (normpath m.name))) members)

abbrev Adds : Scan → List (Text × Text) → Scan → Type 0
Adds s fs s' = s'.files ≡ s.files ++ fs

take-short : (n : ℕ) (t : Text) → length (take (suc n) t) ≤ n → take (suc n) t ≡ t
take-short zero [] h = refl
take-short zero (c ∷ t) h = absurd (omega arith)
take-short (suc n) [] h = refl
take-short (suc n) (c ∷ t) h = ap (λ r. c ∷ r) (take-short n t (omega arith))

read_member-Adds :
    (m : Member) (rel_path : Text) (s : Scan) (contents : Option Text)
    → Ensures
        (Adds s ((rel_path, contents_or_empty contents) ∷ []))
        (read_member m rel_path s contents)
unfolding read_member contents_or_empty
read_member-Adds m rel_path s none = λ a e. absurd (cc)
read_member-Adds m rel_path s (some contents) =
    let content : Text = take (suc max_clone_file_bytes) contents in
    Ensures-unless (ltb max_clone_file_bytes (length content)) _ (λ small.
      Ensures-unless (ltb max_clone_total_bytes (s.total_bytes + length content)) _ (λ fits.
        Ensures-unless (ltb max_clone_files (length (s.files ++ (rel_path, content) ∷ []))) _
          (λ few. Ensures-ok (Adds s ((rel_path, contents) ∷ [])) _ (
            ap (λ c. s.files ++ (rel_path, c) ∷ [])
              (take-short max_clone_file_bytes contents (ltb-false→le _ _ small))))))

add_file-Adds :
    (m : Member) (rel_path : Text) (s : Scan)
    → Ensures (Adds s ((rel_path, contents_or_empty m.extracted) ∷ [])) (add_file m rel_path s)
unfolding add_file
add_file-Adds m rel_path s = Ensures-unless (is_link m.kind) _ (λ a.
    Ensures-unless (not (is_regular m.kind)) _ (λ b.
      Ensures-unless (ltb max_clone_file_bytes m.size) _
        (λ c. read_member-Adds m rel_path s m.extracted)))

add_below-Adds :
    (m : Member) (first part : Text) (parts : List Text) (s : Scan)
    → Ensures
        (Adds s (listed_below m (first ∷ part ∷ parts)))
        (add_below m (join root (part ∷ parts)) s)
unfolding add_below listed_below
add_below-Adds m first part parts s =
    Ensures-unless (rel_path === dot || (starts_with climb rel_path || starts_with root rel_path)) _
      (λ fine. by_kind (is_directory m.kind))
  where
    rel_path : Text
    rel_path = join root (part ∷ parts)

    file : List (Text × Text)
    file = (rel_path, contents_or_empty m.extracted) ∷ []

    by_kind :
        (b : Bool)
        → Ensures (Adds s (if b then [] else file)) (if b then ok s else add_file m rel_path s)
    by_kind true = Ensures-ok (Adds s []) s (sym (append-nil s.files))
    by_kind false = add_file-Adds m rel_path s

add_rest-Adds :
    (m : Member) (first : Text) (s : Scan) (below : List Text)
    → ((part : Text) (parts : List Text) → below ≡ part ∷ parts → All IsName (part ∷ parts))
    → Ensures (Adds s (listed_below m (first ∷ below))) (add_rest m s below)
unfolding add_rest
add_rest-Adds m first s [] n =
    Ensures-ok (Adds s (listed_below m (first ∷ []))) s
      (unfold listed_below in sym (append-nil s.files))
add_rest-Adds m first s (part ∷ parts) n =
    subst (λ p. Ensures (Adds s (listed_below m (first ∷ part ∷ parts))) (add_below m p s))
      (sym (rel_path-names part parts (n part parts refl))) (add_below-Adds m first part parts s)

add_parts-Adds :
    (m : Member) (s : Scan) (p : Text) (parts : List Text)
    → IsBelow p
    → split slash p ≡ parts
    → Ensures (Adds s (listed_below m parts)) (add_parts m s parts)
unfolding add_parts
add_parts-Adds m s p [] b e = λ a z. absurd (cc)
add_parts-Adds m s p (first ∷ below) b e =
    Ensures-unless (not (first === set_top s.top first)) _ (λ u.
      add_rest-Adds m first (record s { top = some (set_top s.top first) }) below
        (λ part parts z. IsBelow-parts p first part parts b (e ∙ ap (λ ws. first ∷ ws) z)))

add_member-Adds :
    (s : Scan) (m : Member)
    → Ensures (Adds s (listed_below m (split slash (normpath m.name)))) (add_member s m)
unfolding add_member
add_member-Adds s m = Ensures-unless (is_unsafe m) _ (λ fine.
    add_parts-Adds m s (normpath m.name) (split slash (normpath m.name)) (member-IsBelow m fine)
      refl)

scan_members-Adds :
    (s : Scan) (ms : List Member) → Ensures (Adds s (files_below ms)) (scan_members s ms)
unfolding scan_members files_below
scan_members-Adds s [] = Ensures-ok (Adds s []) s (sym (append-nil s.files))
scan_members-Adds s (m ∷ ms) =
    Ensures-bind-with (add_member s m) _ (add_member-Adds s m) (λ s' e a q.
      scan_members-Adds s' ms a q
      ∙ (ap (λ fs. fs ++ files_below ms) e
          ∙ append_assoc s.files (listed_below m (split slash (normpath m.name))) (files_below ms)))

-- An archive that is accepted gives every member below its top directory that is no directory, with its
-- whole content, in the order of the archive and under its path below the top.
pub safe_files_complete :
    (members : List Member) → Ensures (λ files. files ≡ files_below members) (safe_files members)
unfolding safe_files
safe_files_complete members =
    Ensures-bind-with (scan_members start_scan members) _ (scan_members-Adds start_scan members)
      (λ s e. Ensures-ok (λ files. files ≡ files_below members) s.files e)
