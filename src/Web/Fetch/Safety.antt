-- ===== src/Web/Fetch/Safety.antt =====
-- Where the requests of web_fetch go, how many there are, and that it ends.
use henry.Prelude.{
  ◌≡◌, refl, true, false, not, ◌||◌, Option, none, some, List, [], ◌∷◌, ◌++◌, All, arith,
}
use henry.Text.{Text, codes, ◌===◌}
use henry.Result.{
  Result, ok, err, ◌>>=◌, raise_if, Ensures, Ensures-bind, Ensures-bind-with, Ensures-ok,
  Ensures-raise_if, value_error,
}
use henry.Web.Domains.{IpAddress, is_blocked, assert_public_ip, domain_allowed}
use henry.Web.Fetch.{Net, ParsedUrl, Request, assert_all, pinned, check_host, validate_fetch_url}

module _ (net : Net) (domains : List Text) where
  -- The address is none of the kinds that are blocked.
  abbrev pub Public : Text → Type 0
  Public address = (ip : IpAddress) × (net.ip_address address ≡ ok ip) × (is_blocked ip ≡ false)

  -- What a target has been checked for: the scheme, the domain and all addresses of the host, of
  -- which it has the first, as the name service answered at that time.
  pub record Validated (url address : Text) : Type 0 where
    pub before : List Request
    pub parsed : ParsedUrl
    pub host : Text
    pub others : List Text
    pub same_url : parsed.geturl ≡ url
    pub web_scheme : (parsed.scheme === codes "http" || parsed.scheme === codes "https") ≡ true
    pub has_host : parsed.hostname ≡ some host
    pub allowed : domain_allowed net.lower host domains ≡ true
    pub resolved : net.resolve_host_ips before host ≡ ok (address ∷ others)
    pub all_public : All Public (address ∷ others)

  assert_address-IsPublic :
      (address : Text) → Ensures (λ u. Public address) (assert_public_ip net.ip_address address)
  unfolding assert_public_ip
  assert_address-IsPublic address = of_answer (net.ip_address address) refl
    where
      of_answer :
          (m : Result IpAddress)
          → net.ip_address address ≡ m
          → Ensures
              (λ u. Public address)
              (m >>= λ ip.
                raise_if
                  (is_blocked ip)
                  (value_error (codes "blocked non-public address " ++ address)))
      of_answer (err e) h = λ u q. absurd (cc)
      of_answer (ok ip) h = λ u q. (ip, h, Ensures-raise_if (is_blocked ip) _ u q)

  assert_all-Public :
      (addresses : List Text)
      → Ensures (λ u. All Public addresses) (assert_all net domains addresses)
  unfolding assert_all
  assert_all-Public [] = λ u q. tt
  assert_all-Public (address ∷ addresses) =
      Ensures-bind-with (assert_public_ip net.ip_address address)
        (λ u. assert_all net domains addresses) (assert_address-IsPublic address)
        (λ u p. λ v q. (p, assert_all-Public addresses v q))

  abbrev pub Checked : Text × Text → Type 0
  Checked target = Validated target.0 target.1

  pinned-Checked :
      (before : List Request) (parsed : ParsedUrl) (host : Text) (addresses : List Text)
      → (parsed.scheme === codes "http" || parsed.scheme === codes "https") ≡ true
      → parsed.hostname ≡ some host
      → domain_allowed net.lower host domains ≡ true
      → net.resolve_host_ips before host ≡ ok addresses
      → Ensures Checked (pinned net domains parsed.geturl host addresses)
  unfolding pinned
  pinned-Checked before parsed host [] s h d r = λ t q. absurd (cc)
  pinned-Checked before parsed host (address ∷ addresses) s h d r =
      Ensures-bind-with (assert_all net domains (address ∷ addresses))
        (λ u. ok (parsed.geturl, address)) (assert_all-Public (address ∷ addresses))
        (λ u p.
          Ensures-ok Checked (parsed.geturl, address)
            (record {
              before = before;
              parsed = parsed;
              host = host;
              others = addresses;
              same_url = refl;
              web_scheme = s;
              has_host = h;
              allowed = d;
              resolved = r;
              all_public = p;
            }))

  check_host-Checked :
      (sent : List Request) (parsed : ParsedUrl) (hostname : Option Text)
      → (parsed.scheme === codes "http" || parsed.scheme === codes "https") ≡ true
      → parsed.hostname ≡ hostname
      → Ensures Checked (check_host net domains sent parsed hostname)
  unfolding check_host
  check_host-Checked sent parsed none s h = λ t q. absurd (cc)
  check_host-Checked sent parsed (some []) s h = λ t q. absurd (cc)
  check_host-Checked sent parsed (some (c ∷ host)) s h =
      Ensures-bind-with (raise_if (not (domain_allowed net.lower (c ∷ host) domains)) _) _
        (Ensures-raise_if (not (domain_allowed net.lower (c ∷ host) domains)) _)
        (λ u d.
          Ensures-bind-with (net.resolve_host_ips sent (c ∷ host))
            (pinned net domains parsed.geturl (c ∷ host)) (λ addresses q. q)
            (λ addresses r.
              pinned-Checked sent parsed (c ∷ host) addresses s h (ground (arith, d)) r))

  pub validate-Checked :
      (sent : List Request) (url : Text) → Ensures Checked (validate_fetch_url net domains sent url)
  unfolding validate_fetch_url
  validate-Checked sent url = Ensures-bind (net.urlparse url) _ (λ parsed.
      Ensures-bind-with
        (raise_if (not (parsed.scheme === codes "http" || parsed.scheme === codes "https")) _) _
        (Ensures-raise_if (not (parsed.scheme === codes "http" || parsed.scheme === codes "https"))
          _)
        (λ u s. check_host-Checked sent parsed parsed.hostname (ground (arith, s)) refl))
