-- ===== src/Docker/SafePath/Inside.antt =====
-- A path that `safe_path` accepts lies under the workspace.
use henry.Prelude.{
  suc, ◌≤◌, ◌≡◌, refl, ap, sym, subst, ◌∙◌, ◌≢◌, inl, inr, true, List, [], ◌∷◌, ◌++◌, arith, length,
  length-append, Bool-cases, All, All-suffix, append_assoc,
}
use henry.Text.{
  Text, ◌===◌, ===_iff, starts_with, starts_with-append, starts_with-true, split, join,
}
use henry.Text.Split.{split-append, split-join, split-ne-nil, join-split, join-cons}
use henry.Result.{ok}
use henry.PosixPath.{normpath, join_path, root, slash}
use henry.PosixPath.Normal.{
  IsName, IsRooted, one_slash, two_slashes, normpath-IsRooted, names-slash_free,
}
use henry.Docker.SafePath.{safe_path, raw_path, check_inside}

raw_path-rooted :
    (workdir path : Text)
    → starts_with root workdir ≡ true
    → starts_with root (raw_path workdir path) ≡ true
unfolding raw_path join_path starts_with
raw_path-rooted [] path h = cc
raw_path-rooted (c ∷ w) path h = ground arith

IsRooted-cons : {p : Text} → IsRooted p → (t : Text) × (p ≡ slash ∷ t)
IsRooted-cons (one_slash ds h e) = (join root ds, e)
IsRooted-cons (two_slashes ds h e) = (slash ∷ join root ds, e)

split-slash : (t : Text) → split slash (slash ∷ t) ≡ [] ∷ split slash t
unfolding split
split-slash t = refl

record Parts (p : Text) : Type 0 where
  pre : List Text
  names : List Text
  parts : split slash p ≡ pre ++ names
  short : length pre ≤ 2
  proper : All IsName names

one_slash-Parts : (ds : List Text) → All IsName ds → Parts (slash ∷ join root ds)
one_slash-Parts [] h = record {
  pre = [] ∷ [] ∷ [];
  names = [];
  parts = unfold split join in refl;
  short = omega arith;
  proper = tt;
}
one_slash-Parts (d ∷ ds) h = record {
  pre = [] ∷ [];
  names = d ∷ ds;
  parts =
      split-slash (join root (d ∷ ds))
      ∙ ap (λ r. [] ∷ r) (split-join slash (d ∷ ds) (λ e. cc) (names-slash_free (d ∷ ds) h));
  short = omega arith;
  proper = h;
}

two_slashes-Parts :
    (ds : List Text) → All IsName ds → ds ≢ [] → Parts (slash ∷ slash ∷ join root ds)
two_slashes-Parts ds h n = record {
  pre = [] ∷ [] ∷ [];
  names = ds;
  parts =
      split-slash (slash ∷ join root ds)
      ∙ ap (λ r. [] ∷ r)
          (split-slash (join root ds)
            ∙ ap (λ r. [] ∷ r) (split-join slash ds n (names-slash_free ds h)));
  short = omega arith;
  proper = h;
}

IsRooted-Parts : {p : Text} → IsRooted p → 3 ≤ length p → Parts p
IsRooted-Parts (one_slash ds h e) l = subst Parts (sym e) (one_slash-Parts ds h)
IsRooted-Parts (two_slashes [] h e) l = absurd (unfold join in omega (arith, ap (length {0}) e))
IsRooted-Parts (two_slashes (d ∷ ds) h e) l =
    subst Parts (sym e) (two_slashes-Parts (d ∷ ds) h (λ q. cc))

length-split-cons : (t : Text) → 2 ≤ length (split slash (slash ∷ t))
length-split-cons t = rw (split-slash t) (positive (split slash t) (split-ne-nil slash t))
  where
    positive : (ws : List Text) → ws ≢ [] → 2 ≤ suc (length ws)
    positive [] n = absurd (n refl)
    positive (w ∷ ws) n = omega arith

below-names :
    (t q : Text) → t ≢ [] → IsRooted ((slash ∷ t) ++ slash ∷ q) → All IsName (split slash q)
below-names [] q n r = absurd (n refl)
below-names (c ∷ t) q n r =
    All-suffix IsName ps.pre ps.names (split slash (slash ∷ c ∷ t)) (split slash q)
      (sym ps.parts ∙ split-append slash (slash ∷ c ∷ t) q)
      (omega (arith, ps.short, length-split-cons (c ∷ t))) ps.proper
  where
    ps : Parts ((slash ∷ c ∷ t) ++ slash ∷ q)
    ps = IsRooted-Parts r (omega (arith, length-append (c ∷ t) (slash ∷ q)))

-- A path at the workspace, or below it by one name at a time.
pub record Inside (workdir p : Text) : Type 0 where
  pub steps : List Text
  pub proper : All IsName steps
  pub path : p ≡ join root (workdir ∷ steps)

at_workdir : (workdir : Text) → Inside workdir workdir
at_workdir workdir = record { steps = []; proper = tt; path = unfold join in refl }

below_workdir :
    (workdir q : Text)
    → workdir ≢ root
    → IsRooted workdir
    → IsRooted (workdir ++ slash ∷ q)
    → Inside workdir (workdir ++ slash ∷ q)
below_workdir workdir q n w r =
    let (t, e) = IsRooted-cons w in
    record {
      steps = split slash q;
      proper =
          below-names t q (λ z. n (e ∙ ap (λ u. slash ∷ u) z))
            (subst (λ u. IsRooted (u ++ slash ∷ q)) e r);
      path = rw (join-cons root workdir (split slash q) (split-ne-nil slash q), join-split slash q);
    }

check_inside-Inside :
    (workdir path normalized p : Text)
    → workdir ≢ root
    → IsRooted workdir
    → IsRooted normalized
    → check_inside workdir path normalized ≡ ok p
    → Inside workdir p
unfolding check_inside
check_inside-Inside workdir path normalized p n w r h = elim (Bool-cases (normalized === workdir)) [
  | inl same ↦
      subst (Inside workdir) (sym ((===_iff normalized workdir).0 same) ∙ (ground arith))
        (at_workdir workdir)
  | inr other ↦
      let (q, e) = starts_with-true (workdir ++ root) normalized (ground arith) in
      let e' : normalized ≡ workdir ++ slash ∷ q = e ∙ append_assoc workdir root q in
      subst (Inside workdir) (sym e' ∙ (ground arith))
        (below_workdir workdir q n w (subst IsRooted e' r))
]

-- Whatever path is asked for, an accepted one names the workspace itself or is reached from it by
-- proper names only: none is empty, `.` or `..`, and none holds a slash. The workspace has to be
-- an absolute directory other than the root.
pub safe_path-Inside :
    (workdir path p : Text)
    → starts_with root workdir ≡ true
    → normpath workdir ≢ root
    → safe_path workdir path ≡ ok p
    → Inside (normpath workdir) p
unfolding safe_path
safe_path-Inside workdir path p rooted n h =
    check_inside-Inside (normpath workdir) path (normpath (raw_path (normpath workdir) path)) p n
      (normpath-IsRooted workdir rooted)
      (normpath-IsRooted _ (raw_path-rooted (normpath workdir) path rooted')) (ground arith)
  where
    rooted' : starts_with root (normpath workdir) ≡ true
    rooted' =
        let (t, e) = IsRooted-cons (normpath-IsRooted workdir rooted) in
        subst (λ u. starts_with root u ≡ true) (sym e) (starts_with-append root t)
