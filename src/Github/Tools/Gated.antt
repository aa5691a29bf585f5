-- ===== src/Github/Tools/Gated.antt =====
-- Writing to GitHub needs a channel that is enabled for it.
use henry.Prelude.{
  ◌≡◌, refl, ◌⊎◌, inl, inr, Bool, true, false, not, List, [], ◌∷◌, ◌++◌, if◌then◌else◌,
}
use henry.Text.{Text, codes}
use henry.Json.{Json}
use henry.Result.{Result, ok, err, Ensures, Ensures-bind-with, Ensures-ok}
use henry.Github.Paths.{repo_path}
use henry.Github.Tools.{
  GithubSettings, Api, ApiRequest, write_enabled, sent, blocked, created, post_request, open_pr,
  create_issue,
}

-- Nothing is sent, or the channel is enabled and what is sent is one POST below the repository.
abbrev pub Gated : GithubSettings → Text → Text → Text → Text → List ApiRequest → Type 0
Gated settings channel owner repo suffix requests =
    (requests ≡ [])
    ⊎ ((write_enabled settings channel ≡ true)
        × ((path : Text) × (request : ApiRequest) × (repo_path owner repo ≡ ok path)
            × (requests ≡ request ∷ [])
            × (request.method ≡ codes "POST")
            × (request.path ≡ codes "/repos/" ++ (path ++ suffix))))

module _ (show : Json → Text) (settings : GithubSettings) (api : Api)
    (channel owner repo : Text) where
  abbrev Posts : Text → ApiRequest → Type 0
  Posts suffix request =
      (path : Text) × (repo_path owner repo ≡ ok path)
      × (request.method ≡ codes "POST")
      × (request.path ≡ codes "/repos/" ++ (path ++ suffix))

  post_request-Posts :
      (suffix : Text) (body : List (Text × Text))
      → Ensures (Posts suffix) (post_request show settings api owner repo suffix body)
  unfolding post_request
  post_request-Posts suffix body =
      Ensures-bind-with (repo_path owner repo) _ (λ path h. h)
        (λ path h. Ensures-ok (Posts suffix) _ (path, h, refl, refl))

  sent-Gated :
      {A : Type 0} (suffix : Text) (m : Result ApiRequest) (k : Json → Result A)
      → write_enabled settings channel ≡ true
      → Ensures (Posts suffix) m
      → Gated settings channel owner repo suffix (sent settings api m k).requests
  unfolding sent
  sent-Gated suffix (err e) k h v = inl refl
  sent-Gated suffix (ok request) k h v =
      let (path, named, method, place) = v request refl in
      inr (h, (path, request, named, refl, method, place))

  gate-Gated :
      (suffix : Text) (body : List (Text × Text)) (enabled : Bool)
      → write_enabled settings channel ≡ enabled
      → Gated settings channel owner repo suffix
          (if not enabled
            then blocked show settings api
            else sent settings api
                (post_request show settings api owner repo suffix body)
                (created show settings api)).requests
  unfolding blocked
  gate-Gated suffix body false h = inl refl
  gate-Gated suffix body true h =
      sent-Gated suffix (post_request show settings api owner repo suffix body)
        (created show settings api) h (post_request-Posts suffix body)

  -- A pull request or an issue is sent to the API only from a channel that is enabled for writing,
  -- and then as one POST below the repository that was named; every other call sends nothing.
  pub writes-Gated :
      (title head base body : Text)
      → Gated settings channel owner repo
          (codes "/pulls")
          (open_pr show settings api channel owner repo title head base body).requests
        × Gated settings channel owner repo
            (codes "/issues")
            (create_issue show settings api channel owner repo title body).requests
  unfolding open_pr create_issue
  writes-Gated title head base body = (
    gate-Gated (codes "/pulls")
        ((codes "title", title)
          ∷ (codes "head", head)
          ∷ (codes "base", base)
          ∷ (codes "body", body)
          ∷ [])
        (write_enabled settings channel) refl,
    gate-Gated (codes "/issues") ((codes "title", title) ∷ (codes "body", body) ∷ [])
        (write_enabled settings channel) refl,
  )
