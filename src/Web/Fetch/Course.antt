-- ===== src/Web/Fetch/Course.antt =====
-- The requests of web_fetch, in what order they are made, how many there are, and that it ends.
use henry.Prelude.{ℕ, ◌+◌, ◌≤◌, ◌≡◌, some, List, length, All}
use henry.Text.{Text}
use henry.Result.{Result, Ensures}
use henry.Web.Fetch.{Net, Request, Fetch, Fetched, max_redirects}
use henry.Web.Fetch.Safety.{Validated, Checked}

module _ (net : Net) (domains : List Text) where
  abbrev pub Safe : Request → Type 0
  Safe request = Validated net domains request.url request.address

  -- What a fetch is in the end.
  pub record Sound (f : Fetch) : Type 0 where
    pub safe : All Safe f.requests
    pub few : length f.requests ≤ max_redirects + 1
    pub returned : (r : Result Fetched) × (f.result ≡ some r)

  -- A target that may be requested: validated, and no redirect too many.
  abbrev Target : ℕ → Result (Text × Text) → Type 0
  Target redirects target =
      Ensures (λ t. Checked net domains t × (redirects ≤ max_redirects)) target

  -- What the rest of the loop makes of a target.
  abbrev Continues : (ℕ → List Request → Result (Text × Text) → Fetch) → ℕ → Type 0
  Continues again redirects =
      (sent : List Request) (target : Result (Text × Text))
      → All Safe sent
      → length sent ≡ redirects
      → Target redirects target
      → Sound (again redirects sent target)
