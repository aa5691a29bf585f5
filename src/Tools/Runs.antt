-- ===== src/Tools/Runs.antt =====
-- Runs of the models of clone_repo and run_python of henry/sandbox/tools.py.
use henry.Prelude.{◌≤◌, ◌≡◌, refl, sym, subst, Option, none, some, List, [], ◌∷◌, All, length}
use henry.Text.{Text, codes, text_ops}
use henry.Json.{Json}
use henry.Result.{ok, err, Ensures, session_not_found}
use henry.PosixPath.{normpath, join_path}
use henry.Tools.Clone.Download.{Streamed}
use henry.Tools.Clone.Archive.{
  max_clone_total_bytes, max_clone_files, max_clone_file_bytes, Member, directory, regular,
  safe_files,
}
use henry.Tools.Clone.Archive.Complete.{files_below, safe_files_complete}
use henry.Tools.Calls.{Run, Sandbox, Deps, session_for, run_python, clone_repo}
use henry.Tools.Calls.Sessions.{not_found, Reset, run_python-Reset}
use henry.Tools.Calls.Writes.{clone_repo-keeps}

abbrev top : Member
top = record { name = codes "o-n-1/"; kind = directory; size = 0; extracted = none }

abbrev readme : Member
readme = record {
  name = codes "o-n-1/doc/../README";
  kind = regular;
  size = 2;
  extracted = some (codes "hi");
}

abbrev members : List Member
members = top ∷ readme ∷ []

listed : safe_files members ≡ ok ((codes "README", codes "hi") ∷ [])
unfolding safe_files normpath join_path text_ops max_clone_file_bytes max_clone_total_bytes
    max_clone_files
listed = refl

safe_files_complete_example : Ensures (λ files. files ≡ files_below members) (safe_files members)
safe_files_complete_example = safe_files_complete members

abbrev Log : Type 0
Log = List (Text × Text)

abbrev recorder : Sandbox Log
recorder = record {
  start = λ policy w. (ok (codes "c1"), w);
  exec_cell = λ session code timeout_s s. (err (session_not_found (codes "gone")), s);
  write_file = λ session path content s. (ok tt, record s { world = (path, content) ∷ s.world });
  read_file = λ session path s. (ok [], s);
  destroy = λ session w. (ok tt, w);
}

abbrev deps : Deps
deps = record { run_id = codes "r"; sandbox_image = codes "henry"; github_token = [] }

abbrev fresh : Run Log
fresh = record { cached = none; world = [] }

abbrev started : Run Log
started = record { cached = some (codes "c1"); world = [] }

first_session : session_for recorder deps fresh ≡ (ok (codes "c1"), started)
unfolding session_for text_ops
first_session = refl

abbrev show : Json → Text
show v = codes "{}"

abbrev body : Streamed
body = record { raise_for_status = ok tt; chunks = codes "tar" ∷ [] }

run_python-Reset_example :
    Reset (codes "c1") started (run_python recorder deps show (codes "1") none fresh)
run_python-Reset_example =
    (run_python-Reset recorder deps show (codes "1") (codes "c1") none fresh started started
        (err (session_not_found (codes "gone"))) first_session refl).0
      (not_found (codes "gone") refl)

-- Each entry of the log is within the limit for one file.
abbrev AreSmall : Run Log → Type 0
AreSmall s = All (λ f. length f.1 ≤ max_clone_file_bytes) s.world

same_log :
    (c : Option Text) (w : Log)
    → (session_for recorder deps (record { cached = c; world = w })).1.world ≡ w
unfolding session_for text_ops
same_log none w = refl
same_log (some session) w = refl

starts : (s : Run Log) → AreSmall s → AreSmall (session_for recorder deps s).1
starts s h =
    subst (λ (w : Log). All (λ f. length f.1 ≤ max_clone_file_bytes) w)
      (sym (same_log s.cached s.world)) h

clone_repo-keeps_example :
    AreSmall
      (clone_repo recorder deps
        (λ url headers. ok body)
        (λ archive. ok members)
        (codes "octo/cat")
        (codes "HEAD")
        (codes "repo")
        fresh).1
clone_repo-keeps_example =
    clone_repo-keeps recorder deps AreSmall starts (λ session path bytes s f small h. (small, h))
      (λ url headers. ok body) (λ archive. ok members) (codes "octo/cat") (codes "HEAD")
      (codes "repo") fresh tt
