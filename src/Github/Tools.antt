-- ===== src/Github/Tools.antt =====
-- The tools of henry/integrations/builtins/github.py: what they ask of the API and what they return.
-- The API is a function of the request that may raise; `show` is Python's `str` of a JSON value.
pub mod Gated
pub mod Reads
use henry.Prelude.{
  ℕ, ◌*◌, Bool, true, false, not, ◌&&◌, ◌||◌, ◌==◌, Option, none, some, List, [], ◌∷◌, ◌++◌, map,
  keep_if, length, take, leb, min, max, if◌then◌else◌,
}
use henry.Prelude.Int.{ℤ, pos, negsuc}
use henry.Text.{Text, codes, ◌===◌, has_char, split, decimal}
use henry.Text.Words.{strip, replace}
use henry.Json.{
  Json, Fields, null, str, arr, nil, obj, done, field, get, get_default, py_str, equals_text,
  of_items,
}
use henry.Result.{
  Result, ok, err, Error, value_error, runtime_error, type_error, other_error, message, ◌>>=◌, ◌>>◌,
}
use henry.Github.Paths.{repo_path, content_path}

abbrev pub max_body_chars : ℕ
max_body_chars = 8 * 1000

-- `github_write_enabled_channels` of the settings: absent, one text, or a list.
pub data Channels : Type 0 where
  no_channels : Channels
  comma_list : Text → Channels
  channel_list : List Text → Channels

pub record GithubSettings : Type 0 where
  pub token : Text
  pub default_repo : Text
  pub write_channels : Channels

pub record ApiRequest : Type 0 where
  pub method : Text
  pub path : Text
  pub params : List (Text × Text)
  pub body : List (Text × Text)

-- The requests of a tool call and its result.
pub record Called (A : Type 0) : Type 0 where
  pub requests : List ApiRequest
  pub result : Result A

-- The answer of the API; `none` is a response without content.
abbrev pub Api : Type 0
Api = ApiRequest → Result (Option Json)

unfoldable pub redact : Text → Text → Text
redact text [] = text
redact text (c ∷ token) = replace (c ∷ token) (codes "[redacted]") text

-- A failure is raised anew without the token.
answered : Text → Result (Option Json) → Result Json
answered token (ok none) = ok (obj done)
answered token (ok (some v)) = ok v
answered token (err e) =
    err (runtime_error (redact (codes "github request failed: " ++ message e) token))

request_json : GithubSettings → Api → ApiRequest → Result Json
unfolding answered
request_json settings api request = answered settings.token (api request)

unfoldable pub trim : Text → Text
trim value =
    if leb (length value) max_body_chars
    then value
    else take max_body_chars value ++ codes "\n...[truncated]"

is_listed : Text → List Text → Bool
is_listed channel [] = false
is_listed channel (c ∷ cs) = c === channel || is_listed channel cs

unfoldable pub write_enabled : GithubSettings → Text → Bool
unfolding is_listed
write_enabled settings channel = elim settings.write_channels [
  | no_channels ↦ false
  | comma_list t ↦ is_listed channel (keep_if (λ c. not (c === [])) (map strip (split 44 t)))
  | channel_list cs ↦ is_listed channel cs
]

-- `default.partition("/")`
before_slash : Text → Text
before_slash [] = []
before_slash (c ∷ t) = let rest = before_slash t in if c == 47 then [] else c ∷ rest

after_slash : Text → Text
after_slash [] = []
after_slash (c ∷ t) = let rest = after_slash t in if c == 47 then t else rest

-- `a or b`
or_else : Text → Text → Text
or_else [] b = b
or_else (c ∷ a) b = c ∷ a

unfoldable pub resolve_repo : GithubSettings → Text → Text → Result (Text × Text)
unfolding before_slash after_slash or_else
resolve_repo settings owner repo =
    let default = strip settings.default_repo in
    if not (owner === []) && not (repo === [])
    then ok (owner, repo)
    else if has_char 47 default
    then ok (or_else owner (before_slash default), or_else repo (after_slash default))
    else err (
        value_error (
          codes
            "owner and repo are required: no default repository is configured (set HENRY_GITHUB_DEFAULT_REPO to 'owner/repo')"))

-- A tool call that sends the request it makes, if it can make one.
sent : {A : Type 0} → GithubSettings → Api → Result ApiRequest → (Json → Result A) → Called A
unfolding request_json
sent settings api (err e) k = record { requests = []; result = err e }
sent settings api (ok request) k = record {
  requests = request ∷ [];
  result = request_json settings api request >>= k;
}

module _ (show : Json → Text) (settings : GithubSettings) (api : Api) where
  -- `_redact(str(d.get(key, "")), token)`
  shown : Text → Fields → Text
  shown key fs = redact (py_str show (get_default key (str []) fs)) settings.token

  created : Json → Result (List (Text × Text))
  unfolding shown
  created (obj fs) = ok (
      (codes "status", codes "created")
      ∷ (codes "number", shown (codes "number") fs)
      ∷ (codes "url", shown (codes "html_url") fs)
      ∷ [])
  created v = err (other_error (codes "AttributeError: get"))

  post_request : Text → Text → Text → List (Text × Text) → Result ApiRequest
  post_request owner repo suffix body = do
    path ← repo_path owner repo
    ok (record {
      method = codes "POST";
      path = codes "/repos/" ++ (path ++ suffix);
      params = [];
      body = body;
    })

  blocked : Called (List (Text × Text))
  blocked = record {
    requests = [];
    result = ok (
        (codes "status", codes "blocked")
        ∷ (codes "message", codes "GitHub write tools are not enabled for this channel.")
        ∷ []);
  }

  unfoldable pub open_pr :
      Text → Text → Text → Text → Text → Text → Text → Called (List (Text × Text))
  unfolding created post_request blocked sent
  open_pr channel owner repo title head base body =
      if not (write_enabled settings channel)
      then blocked
      else sent settings api
          (post_request owner repo (codes "/pulls") (
            (codes "title", title)
            ∷ (codes "head", head)
            ∷ (codes "base", base)
            ∷ (codes "body", body)
            ∷ []))
          created

  unfoldable pub create_issue : Text → Text → Text → Text → Text → Called (List (Text × Text))
  unfolding created post_request blocked sent
  create_issue channel owner repo title body =
      if not (write_enabled settings channel)
      then blocked
      else sent settings api
          (post_request owner repo (codes "/issues")
            ((codes "title", title) ∷ (codes "body", body) ∷ []))
          created
