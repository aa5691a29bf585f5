-- ===== src/Tools/Clone/Download.antt =====
-- `_download_github_tarball` of henry/sandbox/tools.py: the request, and the loop that reads the body
-- in chunks and stops when it is too long.
use henry.Prelude.{
  ℕ, ◌*◌, ltb, ◌==◌, ◌≡◌, refl, sym, Bool, true, false, inl, inr, Bool-cases, List, [], ◌∷◌, ◌++◌,
  arith, append-nil, append_assoc, if◌then◌else◌, length, length-append, concat,
}
use henry.Text.{Text, codes, ◌===◌}
use henry.Result.{Result, ok, err, Error, value_error, ◌>>=◌, ◌>>◌}

-- `_MAX_CLONE_ARCHIVE_BYTES`
unfoldable pub max_clone_archive_bytes : ℕ
max_clone_archive_bytes = 50 * 1024 * 1024

-- `repo.split("/", 1)`: what stands before the first slash, and what stands after it.
unfoldable pub split_repo : Text → Text × Text
split_repo [] = ([], [])
split_repo (c ∷ t) =
    let (owner, name) = split_repo t in if c == b'/' then ([], t) else (c ∷ owner, name)

unfoldable pub tarball_url : Text → Text → Text
unfolding split_repo
tarball_url repo ref =
    let (owner, name) = split_repo repo in
    codes "https://api.github.com/repos/"
    ++ (owner ++ (codes "/" ++ (name ++ (codes "/tarball/" ++ ref))))

unfoldable pub tarball_headers : Text → List (Text × Text)
tarball_headers token =
    (codes "Accept", codes "application/vnd.github+json")
    ∷ (codes "X-GitHub-Api-Version", codes "2022-11-28")
    ∷ (if token === [] then [] else (codes "Authorization", codes "Bearer " ++ token) ∷ [])

-- What the HTTP client gives: the status check, and the body in chunks.
pub record Streamed : Type 0 where
  pub raise_for_status : Result (Unit {0})
  pub chunks : List Text

too_long : Error
too_long = value_error (codes "repository archive exceeds sandbox clone size limit")

-- The loop over the chunks, with what it has read.
pub read_chunks : Text → List Text → Result Text
unfolding too_long
read_chunks content [] = ok content
read_chunks content (chunk ∷ chunks) =
    let rest = read_chunks (content ++ chunk) chunks in
    if ltb max_clone_archive_bytes (length (content ++ chunk)) then err too_long else rest

module _ (stream : Text → List (Text × Text) → Result Streamed) where
  unfoldable pub download_github_tarball : Text → Text → Text → Result Text
  unfolding tarball_url tarball_headers read_chunks
  download_github_tarball token repo ref = do
    response ← stream (tarball_url repo ref) (tarball_headers token)
    response.raise_for_status
    read_chunks [] response.chunks

-- The body read to its end and measured then.
pub whole_body : List Text → Result Text
unfolding too_long
whole_body chunks =
    if ltb max_clone_archive_bytes (length (concat chunks))
    then err too_long
    else ok (concat chunks)

abbrev is_too_long : Text → Bool
is_too_long content = ltb max_clone_archive_bytes (length content)

too_long-append : (s t : Text) → is_too_long s ≡ true → is_too_long (s ++ t) ≡ true
too_long-append s t h = ground (arith, length-append s t)

read_chunks-eq :
    (content : Text) (chunks : List Text)
    → is_too_long content ≡ false
    → read_chunks content chunks ≡ (
        if is_too_long (content ++ concat chunks)
        then err too_long
        else ok (content ++ concat chunks))
unfolding read_chunks
read_chunks-eq content [] h = rw (append-nil content, h)
read_chunks-eq content (chunk ∷ chunks) h = elim (Bool-cases (is_too_long (content ++ chunk))) [
  | inl long ↦ rw (
    long,
    sym (append_assoc content chunk (concat chunks)),
    too_long-append (content ++ chunk) (concat chunks) long,
  )
  | inr short ↦
      rw (short, sym (append_assoc content chunk (concat chunks)))
        (read_chunks-eq (content ++ chunk) chunks short)
]

-- The loop stops at the first chunk that exceeds the limit, and still gives what reading the whole
-- body and measuring it then would give: the body, or the error.
pub read_chunks_lem : (chunks : List Text) → read_chunks [] chunks ≡ whole_body chunks
unfolding whole_body
read_chunks_lem chunks = read_chunks-eq [] chunks (unfold max_clone_archive_bytes in refl)
