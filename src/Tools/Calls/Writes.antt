-- ===== src/Tools/Calls/Writes.antt =====
-- What clone_repo asks of the sandbox.
use henry.Prelude.{
  ◌≤◌, Bool, true, false, not, List, [], ◌∷◌, ◌++◌, ◌≡◌, refl, ap, ◌∙◌, All, All-append, length,
  if◌then◌else◌,
}
use henry.Text.{Text, join}
use henry.Result.{Result, ok, err, Error, Ensures}
use henry.PosixPath.{join_path, root}
use henry.PosixPath.Normal.{IsName}
use henry.PosixPath.Joined.{join_path-names}
use henry.Tools.Clone.{is_repo, safe_relative_dest}
use henry.Tools.Clone.Download.{Streamed, download_github_tarball}
use henry.Tools.Clone.Archive.{max_clone_file_bytes, Member, safe_files}
use henry.Tools.Clone.Archive.Sound.{IsFilePath, IsSafeFile, safe_files-AreSafe}
use henry.Tools.Clone.Limits.{safe_relative_dest-IsFilePath}
use henry.Tools.Calls.{
  Run, Sandbox, Deps, and_then, session_for, write_files, checked_dest, clone_repo,
}

pub join_path-IsFilePath : (p q : Text) → IsFilePath p → IsFilePath q → IsFilePath (join_path p q)
join_path-IsFilePath p q f g = record {
  first = f.first;
  others = f.others ++ g.first ∷ g.others;
  proper = (f.proper.0, All-append IsName f.others (g.first ∷ g.others) f.proper.1 g.proper);
  path =
      ap (λ t. join_path t q) f.path
      ∙ (ap (λ t. join_path (join root (f.first ∷ f.others)) t) g.path
          ∙ join_path-names f.first g.first f.others g.others f.proper g.proper.0);
}

checked_dest-IsFilePath : (repo dest : Text) → Ensures IsFilePath (checked_dest repo dest)
unfolding checked_dest
checked_dest-IsFilePath repo dest = by_pattern (not (is_repo repo)) _
  where
    by_pattern :
        (b : Bool) (e : Error) → Ensures IsFilePath (if b then err e else safe_relative_dest dest)
    by_pattern true e = λ a q. absurd (cc)
    by_pattern false e = safe_relative_dest-IsFilePath dest

module _ {W : Type 0} (P : Run W → Type 0) where
  and_then-keeps :
      {A B : Type 0} (m : Result A × Run W) (next : A → Run W → Result B × Run W)
      → P m.1
      → ((a : A) (s : Run W) → m.0 ≡ ok a → P s → P (next a s).1)
      → P (and_then m next).1
  and_then-keeps (err e, s) next h k = h
  and_then-keeps (ok a, s) next h k = k a s refl h

module _ {W : Type 0} (box : Sandbox W) (deps : Deps) (P : Run W → Type 0)
    (starts : (s : Run W) → P s → P (session_for box deps s).1)
    (writes : (session path bytes : Text) (s : Run W)
      → IsFilePath path
      → length bytes ≤ max_clone_file_bytes
      → P s
      → P (box.write_file session path bytes s).1) where
  write_files-keeps :
      (session dest : Text) (files : List (Text × Text)) (s : Run W)
      → IsFilePath dest
      → All IsSafeFile files
      → P s
      → P (write_files box deps session dest files s).1
  unfolding write_files
  write_files-keeps session dest [] s d h p = p
  write_files-keeps session dest ((rel_path, bytes) ∷ files) s d h p =
      and_then-keeps P (box.write_file session (join_path dest rel_path) bytes s) _
        (writes session (join_path dest rel_path) bytes s
          (join_path-IsFilePath dest rel_path d h.0.0) h.0.1 p)
        (λ done s' e p'. write_files-keeps session dest files s' d h.1 p')

  -- All that clone_repo does to the sandbox is to get the run's session and to write files: each to a
  -- path of proper names, with no more content than the limit. Whatever those keep, clone_repo keeps.
  pub clone_repo-keeps :
      (stream : Text → List (Text × Text) → Result Streamed) (members : Text → Result (List Member))
      (repo ref dest : Text) (s : Run W)
      → P s
      → P (clone_repo box deps stream members repo ref dest s).1
  unfolding clone_repo
  clone_repo-keeps stream members repo ref dest s p =
      and_then-keeps P {B = Text} (checked_dest repo dest, s) _ p
        (λ safe_dest s₁ d p₁.
          and_then-keeps P {B = Text}
            (download_github_tarball stream deps.github_token repo ref, s₁) _ p₁
            (λ archive s₂ e p₂.
              and_then-keeps P {B = Text} (members archive, s₂) _ p₂
                (λ listed s₃ e p₃.
                  and_then-keeps P {B = Text} (safe_files listed, s₃) _ p₃
                    (λ files s₄ f p₄.
                      and_then-keeps P {B = Text} (session_for box deps s₄) _ (starts s₄ p₄)
                        (λ session s₅ e p₅.
                          and_then-keeps P {B = Text}
                            (write_files box deps session safe_dest files s₅) _
                            (write_files-keeps session safe_dest files s₅
                              (checked_dest-IsFilePath repo dest safe_dest d)
                              (safe_files-AreSafe listed files f).safe p₅)
                            (λ done s₆ e p₆. p₆))))))
