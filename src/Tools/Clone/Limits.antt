-- ===== src/Tools/Clone/Limits.antt =====
-- What the pattern of repository names, the destination and the download let through.
use henry.Prelude.{
  ℕ, ◌≡◌, ◌≢◌, refl, ap, ◌∙◌, ◌⊎◌, inl, inr, Bool, true, ◌||◌, List, [], ◌∷◌, ◌++◌, arith, ==_iff,
  All, Bool-cases, &&-true,
}
use henry.Text.{Text, codes, ◌===◌, ===_iff, starts_with, has_char, join}
use henry.Result.{Ensures, Ensures-ok, Ensures-unless}
use henry.PosixPath.{normpath, root, dot, dotdot, or_dot}
use henry.PosixPath.Normal.{IsName}
use henry.PosixPath.Relative.{IsBelow, normpath-IsBelow, or_dot-join, or_dot-nil}
use henry.Tools.Clone.{
  is_repo_char, more_chars, some_chars, at_end, name_part, is_repo, safe_relative_dest,
}
use henry.Tools.Clone.Archive.Sound.{IsFilePath}

not_dot-IsFilePath : (p : Text) → IsBelow p → p ≢ dot → IsFilePath p
not_dot-IsFilePath p b n = by_names b.names b.proper b.path
  where
    by_names : (ds : List Text) → All IsName ds → p ≡ or_dot (join root ds) → IsFilePath p
    by_names [] h e = absurd (n (e ∙ or_dot-nil))
    by_names (d ∷ ds) h e = record {
      first = d;
      others = ds;
      proper = h;
      path = e ∙ or_dot-join d ds h.0;
    }

-- A destination that is accepted steps down by one name or more.
pub safe_relative_dest-IsFilePath : (dest : Text) → Ensures IsFilePath (safe_relative_dest dest)
unfolding safe_relative_dest codes
safe_relative_dest-IsFilePath dest =
    Ensures-unless (has_char 0 dest || starts_with root dest) _ (λ a.
      Ensures-unless
        ((normpath dest === [] || normpath dest === dot)
          || (normpath dest === dotdot || starts_with (b'.' ∷ b'.' ∷ b'/' ∷ []) (normpath dest)))
        _
        (λ b. Ensures-ok IsFilePath (normpath dest) (
          not_dot-IsFilePath (normpath dest)
            (normpath-IsBelow dest (ground arith)
              (λ e. absurd (ground (arith, ===_iff (normpath dest) dotdot))) (ground arith))
            (λ e. absurd (ground (arith, ===_iff (normpath dest) dot))))))

-- The pattern's shape: two names over its class, and no more than a newline behind them.
pub record IsRepo (repo : Text) : Type 0 where
  pub owner : Text
  pub name : Text
  pub tail : Text
  pub owner_chars : (owner ≢ []) × All (λ c. is_repo_char c ≡ true) owner
  pub name_chars : (name ≢ []) × All (λ c. is_repo_char c ≡ true) name
  pub ending : (tail ≡ []) ⊎ (tail ≡ 10 ∷ [])
  pub shape : repo ≡ owner ++ (b'/' ∷ (name ++ tail))

record Run (next : Text → Bool) (t : Text) : Type 0 where
  run : Text
  rest : Text
  chars : All (λ c. is_repo_char c ≡ true) run
  shape : t ≡ run ++ rest
  on : next rest ≡ true

longer :
    (next : Text → Bool) (c : ℕ) (t : Text) → is_repo_char c ≡ true → Run next t → Run next (c ∷ t)
longer next c t e r = record {
  run = c ∷ r.run;
  rest = r.rest;
  chars = (e, r.chars);
  shape = ap (λ u. c ∷ u) r.shape;
  on = r.on;
}

more_chars-Run : (next : Text → Bool) (t : Text) → more_chars next t ≡ true → Run next t
unfolding more_chars
more_chars-Run next [] h = record { run = []; rest = []; chars = tt; shape = refl; on = h }
more_chars-Run next (c ∷ t) h = elim (Bool-cases (is_repo_char c)) [
  | inl e ↦ longer next c t e (more_chars-Run next t (ground arith))
  | inr e ↦ record { run = []; rest = c ∷ t; chars = tt; shape = refl; on = ground arith }
]

cons-ne-nil : (c : ℕ) (t : Text) → c ∷ t ≢ []
cons-ne-nil c t e = cc

some_chars-Run :
    (next : Text → Bool) (t : Text) → some_chars next t ≡ true → (r : Run next t) × (r.run ≢ [])
unfolding some_chars longer
some_chars-Run next [] h = absurd (cc)
some_chars-Run next (c ∷ t) h =
    (longer next c t (&&-true _ _ h).0 (more_chars-Run next t (&&-true _ _ h).1), cons-ne-nil c _)

at_end-cases : (t : Text) → at_end t ≡ true → (t ≡ []) ⊎ (t ≡ 10 ∷ [])
unfolding at_end
at_end-cases [] h = inl refl
at_end-cases (c ∷ t) h = inr (ground (arith, ===_iff t [], ==_iff c 10))

name_part-cons :
    (t : Text) → name_part t ≡ true → (u : Text) × (t ≡ b'/' ∷ u) × (some_chars at_end u ≡ true)
unfolding name_part
name_part-cons [] h = absurd (cc)
name_part-cons (c ∷ t) h = (t, ground (arith, ==_iff c b'/'), (&&-true _ _ h).1)

-- What the pattern accepts is two names of letters, digits, `_`, `.` and `-` around one slash, with
-- nothing behind them but possibly one newline.
pub is_repo-IsRepo : (repo : Text) → is_repo repo ≡ true → IsRepo repo
unfolding is_repo
is_repo-IsRepo repo h =
    let (r, n) = some_chars-Run name_part repo h in
    let (u, e, on) = name_part-cons r.rest r.on in
    let (s, m) = some_chars-Run at_end u on in
    record {
      owner = r.run;
      name = s.run;
      tail = s.rest;
      owner_chars = (n, r.chars);
      name_chars = (m, s.chars);
      ending = at_end-cases s.rest s.on;
      shape = r.shape ∙ ap (λ w. r.run ++ w) (e ∙ ap (λ w. b'/' ∷ w) s.shape);
    }
