-- ===== src/Github/Tools/Reads.antt =====
-- The tools of henry/integrations/builtins/github.py that read: get_file, search_code and list_commits.
use henry.Prelude.{ℕ, Option, none, some, List, [], ◌∷◌, ◌++◌, take, min, max, if◌then◌else◌}
use henry.Prelude.Int.{ℤ, pos, negsuc}
use henry.Text.{Text, codes, decimal}
use henry.Text.Words.{strip}
use henry.Json.{
  Json, Fields, str, arr, nil, obj, done, get, get_default, py_str, equals_text, of_items,
}
use henry.Result.{Result, ok, err, runtime_error, type_error, other_error, ◌>>=◌}
use henry.Github.Paths.{repo_path, content_path}
use henry.Github.Tools.{
  GithubSettings, ApiRequest, Called, Api, redact, trim, or_else, resolve_repo, sent, shown,
}

-- `max(1, min(limit, 25))`
per_page : ℤ → ℕ
per_page (pos n) = max 1 (min n 25)
per_page (negsuc n) = 1

fields_of : Json → Result Fields
fields_of (obj fs) = ok fs
fields_of v = err (other_error (codes "AttributeError: get"))

-- A list comprehension whose item may raise.
map_ok : (Json → Result (List (Text × Text))) → List Json → Result (List (List (Text × Text)))
map_ok f [] = ok []
map_ok f (x ∷ xs) = do y ← f x; ys ← map_ok f xs; ok (y ∷ ys)

module _ (show : Json → Text) (settings : GithubSettings) (api : Api) where
  -- `if ref` and the like: an empty text counts as none.
  param : Text → Option Text → List (Text × Text)
  param key none = []
  param key (some []) = []
  param key (some (c ∷ t)) = (key, c ∷ t) ∷ []

  get_request : Text → Text → (Text → Result Text) → List (Text × Text) → Result ApiRequest
  get_request owner repo suffix params = do
    names ← resolve_repo settings owner repo
    path ← repo_path names.0 names.1
    rest ← suffix path
    ok (record { method = codes "GET"; path = codes "/repos/" ++ rest; params = params; body = [] })

  contents_of : Text → Text → Result Text
  contents_of path repo = content_path path >>= λ p. ok (repo ++ (codes "/contents/" ++ p))

  -- A file; `decode` is base64 and UTF-8 with replacement.
  file_of : (Text → Result Text) → Text → Json → Result (List (Text × Text))
  unfolding shown
  file_of decode path (obj fs) =
      let name = redact (py_str show (get_default (codes "path") (str path) fs)) settings.token in
      if equals_text (get (codes "encoding") fs) (codes "base64")
      then (decode (py_str show (get_default (codes "content") (str []) fs)) >>= λ content. ok (
          (codes "path", name)
          ∷ (codes "sha", shown show settings api (codes "sha") fs)
          ∷ (codes "content", redact (trim content) settings.token)
          ∷ []))
      else ok (
          (codes "path", name)
          ∷ (codes "content", [])
          ∷ (codes "message", codes "github file content was not base64 encoded")
          ∷ [])
  file_of decode path v = err (runtime_error (codes "github returned an unexpected file response"))

  unfoldable pub get_file :
      (Text → Result Text) → Text → Text → Text → Option Text → Called (List (Text × Text))
  unfolding param get_request contents_of file_of sent
  get_file decode owner repo path ref =
      sent settings api (get_request owner repo (contents_of path) (param (codes "ref") ref))
        (file_of decode path)

  -- `item.get(key, {})`, and the error of `.get` on what is no dictionary.
  sub_fields : Text → Fields → Result Fields
  sub_fields key fs = fields_of (get_default key (obj done) fs)

  found_item : Json → Result (List (Text × Text))
  unfolding shown sub_fields
  found_item item = do
    fs ← fields_of item
    repository ← sub_fields (codes "repository") fs
    ok (
        (codes "name", shown show settings api (codes "name") fs)
        ∷ (codes "path", shown show settings api (codes "path") fs)
        ∷ (codes "repository", shown show settings api (codes "full_name") repository)
        ∷ (codes "url", shown show settings api (codes "html_url") fs)
        ∷ [])

  commit_item : Json → Result (List (Text × Text))
  unfolding shown sub_fields
  commit_item item = do
    fs ← fields_of item
    commit ← sub_fields (codes "commit") fs
    author ← sub_fields (codes "author") commit
    ok (
        (codes "sha", shown show settings api (codes "sha") fs)
        ∷ (codes "message", shown show settings api (codes "message") commit)
        ∷ (codes "author", shown show settings api (codes "name") author)
        ∷ (codes "url", shown show settings api (codes "html_url") fs)
        ∷ [])

  items_of : Json → List Json
  items_of (arr xs) = of_items xs
  items_of v = []

  -- `items[:per_page]`
  first_items : ℕ → Json → Result (List Json)
  first_items n (arr xs) = ok (take n (of_items xs))
  first_items n v = err (type_error (codes "items is no list"))

  found_of : ℕ → Json → Result (List (List (Text × Text)))
  unfolding found_item first_items
  found_of n (obj fs) =
      first_items n (get_default (codes "items") (arr nil) fs) >>= λ items. map_ok found_item items
  found_of n v = ok []

  -- `f"{query} repo:{scope}" if scope else query`
  scoped : Text → Text → Text
  scoped query [] = query
  scoped query (c ∷ scope) = query ++ (codes " repo:" ++ c ∷ scope)

  -- `repo or _default_repo(...)`
  scope_of : Option Text → Text
  unfolding or_else
  scope_of none = strip settings.default_repo
  scope_of (some repo) = or_else repo (strip settings.default_repo)

  unfoldable pub search_code : Text → Option Text → ℤ → Called (List (List (Text × Text)))
  unfolding per_page found_of map_ok fields_of scoped scope_of sent
  search_code query repo limit =
      sent settings api
        (ok (record {
          method = codes "GET";
          path = codes "/search/code";
          params =
              (codes "q", scoped query (scope_of repo))
              ∷ (codes "per_page", decimal (per_page limit))
              ∷ [];
          body = [];
        }))
        (found_of (per_page limit))

  unfoldable pub list_commits :
      Text → Text → Option Text → Option Text → ℤ → Called (List (List (Text × Text)))
  unfolding per_page param get_request commit_item map_ok fields_of items_of sent
  list_commits owner repo ref path limit =
      sent settings api
        (get_request owner repo (λ p. ok (p ++ codes "/commits"))
          ((codes "per_page", decimal (per_page limit))
            ∷ (param (codes "sha") ref ++ param (codes "path") path)))
        (λ data_value. map_ok commit_item (items_of data_value))
