-- ===== src/Tools/Clone/Archive/Sound.antt =====
-- What the files have that `_safe_files_from_github_tarball` accepts.
use henry.Prelude.{
  ℕ, suc, ◌+◌, ◌≤◌, ltb, ltb-false→le, ◌≡◌, refl, ap, sym, subst, ◌∙◌, Bool, true, false, not, ◌||◌,
  Option, none, some, List, [], ◌∷◌, ◌++◌, arith, length, take, append-nil, append_assoc,
  if◌then◌else◌, All, All-append,
}
use henry.Text.{Text, ◌===◌, ===_iff, starts_with, has_char, split, join}
use henry.Text.Split.{split-join, split-single}
use henry.Result.{ok, Ensures, Ensures-bind-with, Ensures-ok, Ensures-unless}
use henry.PosixPath.{normpath, join_path, root, slash, dot, dotdot, or_dot}
use henry.PosixPath.Normal.{IsName, names-slash_free}
use henry.PosixPath.Relative.{IsBelow, normpath-IsBelow, normpath-names, or_dot-join, or_dot-nil}
use henry.PosixPath.Joined.{join_path-names}
use henry.Tools.Clone.Archive.{
  max_clone_file_bytes, max_clone_total_bytes, max_clone_files, Member, Scan, start_scan, climb,
  join_parts, is_directory, is_link, is_regular, set_top, read_member, add_file, add_below,
  add_rest, add_parts, add_member, scan_members, safe_files,
}

-- A path that steps down by one name or more.
pub record IsFilePath (p : Text) : Type 0 where
  pub first : Text
  pub others : List Text
  pub proper : All IsName (first ∷ others)
  pub path : p ≡ join root (first ∷ others)

join-one : (w : Text) → join root (w ∷ []) ≡ w
unfolding join
join-one w = refl

join_parts-names :
    (d : Text) (ds es : List Text)
    → All IsName (d ∷ ds)
    → All IsName es
    → join_parts (join root (d ∷ ds)) es ≡ join root (d ∷ (ds ++ es))
unfolding join_parts
join_parts-names d ds [] h k = ap (λ ws. join root (d ∷ ws)) (sym (append-nil ds))
join_parts-names d ds (e ∷ es) h k =
    ap (λ t. join_parts t es)
      (ap (λ t. join_path (join root (d ∷ ds)) t) (sym (join-one e))
        ∙ join_path-names d e ds [] h k.0)
    ∙ (join_parts-names d (ds ++ e ∷ []) es (h.0, All-append IsName ds (e ∷ []) h.1 (k.0, tt)) k.1
        ∙ ap (λ ws. join root (d ∷ ws)) (append_assoc ds (e ∷ []) es))

-- `posixpath.normpath(posixpath.join(*parts[1:]))` puts the parts together again.
pub rel_path-names :
    (part : Text) (parts : List Text)
    → All IsName (part ∷ parts)
    → normpath (join_parts part parts) ≡ join root (part ∷ parts)
rel_path-names part parts h =
    ap (λ t. normpath t)
      (ap (λ t. join_parts t parts) (sym (join-one part))
        ∙ join_parts-names part [] parts (h.0, tt) h.1)
    ∙ normpath-names part parts h

parts-IsFilePath :
    (part : Text) (parts : List Text)
    → All IsName (part ∷ parts)
    → IsFilePath (normpath (join_parts part parts))
parts-IsFilePath part parts h = record {
  first = part;
  others = parts;
  proper = h;
  path = rel_path-names part parts h;
}

tail_names :
    (d first part : Text) (ds parts : List Text)
    → All IsName (d ∷ ds)
    → d ∷ ds ≡ first ∷ part ∷ parts
    → All IsName (part ∷ parts)
tail_names d first part ds parts h z = subst (All IsName) {y = part ∷ parts} (cc) h.1

-- The parts of a path below.
pub IsBelow-parts :
    (p first part : Text) (parts : List Text)
    → IsBelow p
    → split slash p ≡ first ∷ part ∷ parts
    → All IsName (part ∷ parts)
IsBelow-parts p first part parts b e = by_names b.names b.proper b.path
  where
    by_names :
        (ds : List Text) → All IsName ds → p ≡ or_dot (join root ds) → All IsName (part ∷ parts)
    by_names [] h q = absurd (
        cc (
          ap (λ t. split slash t) (q ∙ or_dot-nil),
          split-single slash dot (unfold has_char in refl),
        ))
    by_names (d ∷ ds) h q = tail_names d first part ds parts h (
        sym (split-join slash (d ∷ ds) (λ z. cc) (names-slash_free (d ∷ ds) h))
        ∙ (ap (λ t. split slash t) (sym (q ∙ or_dot-join d ds h.0)) ∙ e))

pub total : List (Text × Text) → ℕ
total [] = 0
total ((path, content) ∷ fs) = length content + total fs

-- A file with a path below the top and no more than the limit of content.
abbrev pub IsSafeFile : Text × Text → Type 0
IsSafeFile f = IsFilePath f.0 × (length f.1 ≤ max_clone_file_bytes)

record IsSound (s : Scan) : Type 0 where
  safe : All IsSafeFile s.files
  counted : s.total_bytes ≡ total s.files
  bounded : s.total_bytes ≤ max_clone_total_bytes
  few : length s.files ≤ max_clone_files

start-IsSound : IsSound start_scan
unfolding total
start-IsSound = record { safe = tt; counted = refl; bounded = omega arith; few = omega arith }

total-append : (fs gs : List (Text × Text)) → total (fs ++ gs) ≡ total fs + total gs
unfolding total
total-append [] gs = omega arith
total-append ((p, c) ∷ fs) gs = omega (arith, total-append fs gs)

kept-IsSound :
    (s : Scan) (rel_path content : Text)
    → IsFilePath rel_path
    → IsSound s
    → ltb max_clone_file_bytes (length content) ≡ false
    → ltb max_clone_total_bytes (s.total_bytes + length content) ≡ false
    → ltb max_clone_files (length (s.files ++ (rel_path, content) ∷ [])) ≡ false
    → IsSound (record s {
      total_bytes = s.total_bytes + length content;
      files = s.files ++ (rel_path, content) ∷ [];
    })
unfolding total
kept-IsSound s rel_path content f h small fits few = record {
  safe =
      All-append IsSafeFile s.files ((rel_path, content) ∷ []) h.safe
        ((f, ltb-false→le _ _ small), tt);
  counted = omega (arith, total-append s.files ((rel_path, content) ∷ []), h.counted);
  bounded = ltb-false→le _ _ fits;
  few = ltb-false→le _ _ few;
}

read_member-IsSound :
    (m : Member) (rel_path : Text) (s : Scan) (contents : Option Text)
    → IsFilePath rel_path
    → IsSound s
    → Ensures IsSound (read_member m rel_path s contents)
unfolding read_member
read_member-IsSound m rel_path s none f h = λ a e. absurd (cc)
read_member-IsSound m rel_path s (some contents) f h =
    let content : Text = take (suc max_clone_file_bytes) contents in
    Ensures-unless (ltb max_clone_file_bytes (length content)) _ (λ small.
      Ensures-unless (ltb max_clone_total_bytes (s.total_bytes + length content)) _ (λ fits.
        Ensures-unless (ltb max_clone_files (length (s.files ++ (rel_path, content) ∷ []))) _
          (λ few. Ensures-ok IsSound _ (kept-IsSound s rel_path content f h small fits few))))

add_file-IsSound :
    (m : Member) (rel_path : Text) (s : Scan)
    → IsFilePath rel_path
    → IsSound s
    → Ensures IsSound (add_file m rel_path s)
unfolding add_file
add_file-IsSound m rel_path s f h = Ensures-unless (is_link m.kind) _ (λ a.
    Ensures-unless (not (is_regular m.kind)) _ (λ b.
      Ensures-unless (ltb max_clone_file_bytes m.size) _
        (λ c. read_member-IsSound m rel_path s m.extracted f h)))

add_below-IsSound :
    (m : Member) (rel_path : Text) (s : Scan)
    → IsFilePath rel_path
    → IsSound s
    → Ensures IsSound (add_below m rel_path s)
unfolding add_below
add_below-IsSound m rel_path s f h =
    Ensures-unless (rel_path === dot || (starts_with climb rel_path || starts_with root rel_path)) _
      (λ u. by_kind (is_directory m.kind))
  where
    by_kind : (b : Bool) → Ensures IsSound (if b then ok s else add_file m rel_path s)
    by_kind true = Ensures-ok IsSound s h
    by_kind false = add_file-IsSound m rel_path s f h

add_rest-IsSound :
    (m : Member) (s : Scan) (below : List Text)
    → ((part : Text) (parts : List Text) → below ≡ part ∷ parts → All IsName (part ∷ parts))
    → IsSound s
    → Ensures IsSound (add_rest m s below)
unfolding add_rest
add_rest-IsSound m s [] n h = Ensures-ok IsSound s h
add_rest-IsSound m s (part ∷ parts) n h =
    add_below-IsSound m _ s (parts-IsFilePath part parts (n part parts refl)) h

add_parts-IsSound :
    (m : Member) (s : Scan) (p : Text) (parts : List Text)
    → IsBelow p
    → split slash p ≡ parts
    → IsSound s
    → Ensures IsSound (add_parts m s parts)
unfolding add_parts
add_parts-IsSound m s p [] b e h = λ a z. absurd (cc)
add_parts-IsSound m s p (first ∷ below) b e h =
    Ensures-unless (not (first === set_top s.top first)) _ (λ u.
      add_rest-IsSound m _ below
        (λ part parts z. IsBelow-parts p first part parts b (e ∙ ap (λ ws. first ∷ ws) z))
        (record { safe = h.safe; counted = h.counted; bounded = h.bounded; few = h.few }))

-- The test of the member's name.
abbrev pub is_unsafe : Member → Bool
is_unsafe m =
    starts_with root m.name || (normpath m.name === dotdot || starts_with climb (normpath m.name))

pub member-IsBelow : (m : Member) → is_unsafe m ≡ false → IsBelow (normpath m.name)
member-IsBelow m fine =
    normpath-IsBelow m.name (ground arith)
      (λ e. absurd (ground (arith, ===_iff (normpath m.name) dotdot))) (ground arith)

add_member-IsSound : (s : Scan) (m : Member) → IsSound s → Ensures IsSound (add_member s m)
unfolding add_member
add_member-IsSound s m h = Ensures-unless (is_unsafe m) _ (λ fine.
    add_parts-IsSound m s (normpath m.name) (split slash (normpath m.name)) (member-IsBelow m fine)
      refl h)

scan_members-IsSound :
    (s : Scan) (ms : List Member) → IsSound s → Ensures IsSound (scan_members s ms)
unfolding scan_members
scan_members-IsSound s [] h = Ensures-ok IsSound s h
scan_members-IsSound s (m ∷ ms) h =
    Ensures-bind-with (add_member s m) _ (add_member-IsSound s m h)
      (λ s' h'. scan_members-IsSound s' ms h')

-- What `_safe_files_from_github_tarball` promises of the files that it returns.
pub record AreSafe (files : List (Text × Text)) : Type 0 where
  pub safe : All IsSafeFile files
  pub bounded : total files ≤ max_clone_total_bytes
  pub few : length files ≤ max_clone_files

-- Whatever the archive holds, the files that are accepted have paths of proper names below its top
-- directory, each is within the limit for one file, and together they keep the limits of size and number.
pub safe_files-AreSafe : (members : List Member) → Ensures AreSafe (safe_files members)
unfolding safe_files
safe_files-AreSafe members =
    Ensures-bind-with (scan_members start_scan members) _
      (scan_members-IsSound start_scan members start-IsSound)
      (λ s h.
        Ensures-ok AreSafe s.files
          (record { safe = h.safe; bounded = omega (arith, h.counted, h.bounded); few = h.few }))
