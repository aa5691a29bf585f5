-- ===== src/Web/Tests.antt =====
-- Runs of the models of henry/integrations/builtins/web.py.
use henry.Prelude.{
  ℕ, ◌≡◌, refl, ◌&&◌, not, ◌≤◌, Bool, true, false, none, some, List, [], ◌∷◌, take, concat, ltb,
  length,
}
use henry.Text.{Text, codes, ◌===◌}
use henry.Prelude.Int.{pos}
use henry.Json.{Json, obj, arr, cons, nil, field, done}
use henry.Result.{Result, ok}
use henry.Web.Search.{
  SearchRequest, SearchResponse, max_results_of, provider_of, key_of, web_search,
  configured_domains, one_text,
}
use henry.Web.Search.Bounded.{Asked, web_search-Asked}
use henry.Web.Domains.{IpAddress}
use henry.Web.Pages.{read_body, max_fetch_bytes}
use henry.Web.Pages.Bounds.{read_body_lem}
use henry.Web.Fetch.{Net}

abbrev same : Text → Text
same t = t

abbrev chunks : List (List ℕ)
chunks = (1 ∷ 2 ∷ []) ∷ (3 ∷ []) ∷ []

read_body_lem_example :
    let (body, truncated) = read_body chunks in
    (body ≡ take max_fetch_bytes (concat chunks))
    × (truncated ≡ ltb max_fetch_bytes (length (concat chunks)))
read_body_lem_example = read_body_lem chunks

-- A name service that gives a public address first and a private one at every later call, and a
-- server that redirects to its own page.
abbrev address : Bool → IpAddress
address private = record {
  is_private = private;
  is_loopback = false;
  is_link_local = false;
  is_multicast = false;
  is_reserved = false;
  is_unspecified = false;
  is_metadata = false;
}

abbrev net : Net
net = record {
  urlparse = λ url. ok (record {
    scheme = codes "https";
    hostname = some (codes "example.com");
    port = ok none;
    geturl = url;
  });
  urljoin = λ base location. ok location;
  lower = λ t. t;
  ip_address = λ t. ok (address (t === codes "10.0.0.1"));
  resolve_host_ips = λ sent host. elim sent [
    | [] ↦ ok (codes "93.184.216.34" ∷ [])
    | request ∷ earlier ↦ ok (codes "10.0.0.1" ∷ [])
  ];
  copy_with_host = λ url host. ok host;
  stream = λ sent request. ok (record {
    is_redirect = true;
    location = codes "https://example.com/next";
    raise_for_status = ok tt;
    chunks = [];
    finished = ok tt;
    status_code = 302;
    content_type = [];
  });
  decode = λ bytes. bytes;
  html_events = λ t. [];
}

-- A server that answers a search with two results, where one is asked for.
abbrev results : Json
results = obj (field (codes "results") (arr (cons (obj done) (cons (obj done) nil))) done)

abbrev post : SearchRequest → Result SearchResponse
post request = ok (record { raise_for_status = ok tt; json = ok results })

web_search-Asked_example :
    Asked
      (same (provider_of none) === codes "tavily" && not (key_of (some (codes "k")) === []))
      (codes "k")
      (codes "q")
      (max_results_of (pos 1))
      (web_search (λ v. []) same post none (some (codes "k")) (codes "q") (pos 1))
    × (1 ≤ max_results_of (pos 1))
    × (max_results_of (pos 1) ≤ 10)
unfolding key_of
web_search-Asked_example =
    web_search-Asked (λ v. []) same post none (some (codes "k")) (codes "q") (pos 1)

one_found : web_search (λ v. []) same post none (some (codes "k")) (codes "q") (pos 1) ≡ (
  record { api_key = codes "k"; query = codes "q"; max_results = 1 } ∷ [],
  ok (record { title = []; url = []; content = [] } ∷ []),
)
unfolding web_search ◌===◌ codes max_results_of henry.Json.get_default henry.Json.of_items
    henry.Json.py_str
one_found = refl

domains_of_text :
    configured_domains same [] (some (one_text (codes " a.com, ,b.org")))
    ≡ codes "a.com" ∷ codes "b.org" ∷ []
unfolding configured_domains henry.Text.split codes ◌===◌ henry.Text.Words.strip
    henry.Text.Words.is_space
domains_of_text = refl
