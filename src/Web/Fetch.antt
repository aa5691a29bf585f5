-- ===== src/Web/Fetch.antt =====
-- web_fetch, _validate_fetch_url and _authority of henry/integrations/builtins/web.py. The parsing
-- of URLs and addresses, the name service and the HTTP client are parameters; the last two answer
-- anew at every call, given the requests that were sent before.
pub mod Safety
pub mod Course
use henry.Prelude.{
  ℕ, zero, suc, ◌+◌, Bool, true, false, not, ◌&&◌, ◌||◌, Option, none, some, List, [], ◌∷◌, ◌++◌,
  ltb, if◌then◌else◌,
}
use henry.Text.{Text, codes, ◌===◌, decimal}
use henry.Result.{Result, ok, err, Error, value_error, runtime_error, ◌>>=◌, ◌>>◌, raise_if}
use henry.Web.Domains.{IpAddress, assert_public_ip, domain_allowed}
use henry.Web.Pages.{HtmlEvent, read_body, trim_text, extract_text}

abbrev pub max_redirects : ℕ
max_redirects = 3

-- `urlparse(url)`; reading the port may raise.
pub record ParsedUrl : Type 0 where
  pub scheme : Text
  pub hostname : Option Text
  pub port : Result (Option ℕ)
  pub geturl : Text

-- What goes out: the URL of the page, the address that is connected to and the two names.
pub record Request : Type 0 where
  pub url : Text
  pub address : Text
  pub connect_url : Text
  pub host_header : Text
  pub sni_hostname : Option Text

-- A response. Its body comes in chunks and may break off; a header that is missing is empty.
pub record Response : Type 0 where
  pub is_redirect : Bool
  pub location : Text
  pub raise_for_status : Result (Unit {0})
  pub chunks : List (List ℕ)
  pub finished : Result (Unit {0})
  pub status_code : ℕ
  pub content_type : Text

pub record Net : Type 0 where
  pub urlparse : Text → Result ParsedUrl
  pub urljoin : Text → Text → Result Text
  pub lower : Text → Text
  pub ip_address : Text → Result IpAddress
  pub resolve_host_ips : List Request → Text → Result (List Text)
  pub copy_with_host : Text → Text → Result Text
  pub stream : List Request → Request → Result Response
  pub decode : List ℕ → Text
  pub html_events : Text → List HtmlEvent

pub record Fetched : Type 0 where
  pub url : Text
  pub status_code : ℕ
  pub content_type : Text
  pub text : Text
  pub truncated : Bool

-- The requests of a fetch and how it ended, `none` if the fuel ran out.
pub record Fetch : Type 0 where
  pub requests : List Request
  pub result : Option (Result Fetched)

host_and_port : Text → Option ℕ → Text
host_and_port host none = host
host_and_port host (some zero) = host
host_and_port host (some (suc port)) = host ++ (codes ":" ++ decimal (suc port))

name_of : Option Text → Text
name_of none = codes ""
name_of (some host) = host

-- f"{parsed.hostname}:{parsed.port}" shows a host that is missing as None.
shown : Option Text → Option ℕ → Text
shown none (some (suc port)) = codes "None"
shown host port = name_of host

authority : ParsedUrl → Result Text
unfolding host_and_port shown name_of
authority parsed = parsed.port >>= λ port. ok (host_and_port (shown parsed.hostname port) port)

module _ (net : Net) (domains : List Text) where
  -- `for address in resolved`
  assert_all : List Text → Result (Unit {0})
  assert_all [] = ok tt
  assert_all (address ∷ addresses) = do
    _ ← assert_public_ip net.ip_address address
    assert_all addresses

  -- The addresses of a host: the first one is connected to.
  pinned : Text → Text → List Text → Result (Text × Text)
  unfolding assert_all
  pinned url host [] = err (value_error (codes "could not resolve " ++ host))
  pinned url host (address ∷ addresses) = do assert_all (address ∷ addresses); ok (url, address)

  check_host : List Request → ParsedUrl → Option Text → Result (Text × Text)
  unfolding pinned
  check_host sent parsed none = err (value_error (codes "web_fetch requires a hostname"))
  check_host sent parsed (some []) = err (value_error (codes "web_fetch requires a hostname"))
  check_host sent parsed (some (c ∷ host)) = do
    raise_if (not (domain_allowed net.lower (c ∷ host) domains))
        (value_error (codes "domain " ++ (c ∷ host ++ codes " is not allowed")))
    resolved ← net.resolve_host_ips sent (c ∷ host)
    pinned parsed.geturl (c ∷ host) resolved

  pub validate_fetch_url : List Request → Text → Result (Text × Text)
  unfolding check_host
  validate_fetch_url sent url = do
    parsed ← net.urlparse url
    raise_if (not (parsed.scheme === codes "http" || parsed.scheme === codes "https"))
        (value_error (codes "web_fetch only supports http and https URLs"))
    check_host sent parsed parsed.hostname

  -- The request for a page.
  request_for : Text → Text → Result Request
  unfolding authority
  request_for url address = do
    parsed ← net.urlparse url
    connect_url ← net.copy_with_host url address
    host ← authority parsed
    ok (record {
      url = url;
      address = address;
      connect_url = connect_url;
      host_header = host;
      sni_hostname = parsed.hostname;
    })

  -- A response that is no redirect.
  page : Text → Response → Result Fetched
  page url response = do
    response.raise_for_status
    let (body, truncated_bytes) = read_body response.chunks in
        (if truncated_bytes then ok tt else response.finished)
        >> (let (text, truncated_text) =
              trim_text
                (extract_text net.lower net.html_events response.content_type (net.decode body)) in
            ok (record {
              url = url;
              status_code = response.status_code;
              content_type = response.content_type;
              text = text;
              truncated = truncated_bytes || truncated_text;
            }))

  -- Where a redirect leads.
  redirect : List Request → ℕ → Text → Text → Result (Text × Text)
  unfolding validate_fetch_url
  redirect sent redirects url location = do
    raise_if (ltb max_redirects redirects)
        (runtime_error (codes "web_fetch exceeded redirect limit"))
    raise_if (location === [])
        (runtime_error (codes "web_fetch received redirect without location"))
    next ← net.urljoin url location
    validate_fetch_url sent next

  ended : List Request → Result Fetched → Fetch
  ended sent r = record { requests = sent; result = some r }

  module _ (again : ℕ → List Request → Result (Text × Text) → Fetch) (redirects : ℕ) where
    after_response : List Request → Text → Result Response → Fetch
    unfolding redirect page ended
    after_response sent url (err e) = ended sent (err e)
    after_response sent url (ok response) =
        if response.is_redirect
        then again (redirects + 1) sent (redirect sent (redirects + 1) url response.location)
        else ended sent (page url response)

    after_request : List Request → Text → Result Request → Fetch
    unfolding after_response ended
    after_request sent url (err e) = ended sent (err e)
    after_request sent url (ok request) =
        after_response (sent ++ request ∷ []) url (net.stream sent request)

    after_target : List Request → Result (Text × Text) → Fetch
    unfolding after_request request_for ended
    after_target sent (err e) = ended sent (err e)
    after_target sent (ok (url, address)) = after_request sent url (request_for url address)

  -- `while True`, on fuel; the target is validated, or its validation raised.
  fetch_loop : ℕ → ℕ → List Request → Result (Text × Text) → Fetch
  unfolding after_target
  fetch_loop zero redirects sent target = record { requests = sent; result = none }
  fetch_loop (suc fuel) redirects sent target = after_target (fetch_loop fuel) redirects sent target

  unfoldable pub web_fetch : Text → Fetch
  unfolding fetch_loop validate_fetch_url
  web_fetch url = fetch_loop (max_redirects + 2) 0 [] (validate_fetch_url [] url)
