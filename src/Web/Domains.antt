-- ===== src/Web/Domains.antt =====
-- _domain_allowed and _assert_public_ip of henry/integrations/builtins/web.py.
use henry.Prelude.{
  Bool, true, false, ◌||◌, ◌&&◌, ||-true, ◌≡◌, ap, sym, ◌⊎◌, inl, inr, List, [], ◌∷◌, ◌++◌, Any,
  if◌then◌else◌, ◌==◌,
}
use henry.Text.{Text, codes, ◌===◌, ===_iff}
use henry.Result.{Result, value_error, raise_if, ◌>>=◌}

-- `t.endswith(p)`
unfoldable pub ends_with : Text → Text → Bool
ends_with p [] = p === []
ends_with p (c ∷ t) = p === c ∷ t || ends_with p t

-- `t.rstrip(".")`
strip_dots : Text → Text
strip_dots [] = []
strip_dots (c ∷ t) = let rest = strip_dots t in if rest === [] && c == 46 then [] else c ∷ rest

-- `t.lower().rstrip(".")`, where `lower` is Python's.
unfoldable pub normal : (Text → Text) → Text → Text
unfolding strip_dots
normal lower t = strip_dots (lower t)

domain_matches : Text → Text → Bool
domain_matches host domain =
    domain === codes "*" || (host === domain || ends_with (codes "." ++ domain) host)

unfoldable pub domain_allowed : (Text → Text) → Text → List Text → Bool
unfolding domain_matches
domain_allowed lower hostname [] = false
domain_allowed lower hostname (domain ∷ domains) =
    domain_matches (normal lower hostname) (normal lower domain)
    || domain_allowed lower hostname domains

-- What `ipaddress.ip_address` says of an address.
pub record IpAddress : Type 0 where
  pub is_private : Bool
  pub is_loopback : Bool
  pub is_link_local : Bool
  pub is_multicast : Bool
  pub is_reserved : Bool
  pub is_unspecified : Bool
  pub is_metadata : Bool

unfoldable pub is_blocked : IpAddress → Bool
is_blocked ip =
    ip.is_private
    || (ip.is_loopback
        || (ip.is_link_local
            || (ip.is_multicast || (ip.is_reserved || (ip.is_unspecified || ip.is_metadata)))))

-- `ip_address` raises for what is no address.
unfoldable pub assert_public_ip : (Text → Result IpAddress) → Text → Result (Unit {0})
assert_public_ip ip_address address = ip_address address >>= λ ip.
    raise_if (is_blocked ip) (value_error (codes "blocked non-public address " ++ address))

ends_with-suffix : (p t : Text) → ends_with p t ≡ true → (s : Text) × (t ≡ s ++ p)
unfolding ends_with
ends_with-suffix p [] h = ([], sym ((===_iff p []).0 h))
ends_with-suffix p (c ∷ t) h = elim (||-true (p === c ∷ t) (ends_with p t) h) [
  | inl e ↦ ([], sym ((===_iff p (c ∷ t)).0 e))
  | inr e ↦ let (s, q) = ends_with-suffix p t e in (c ∷ s, ap (λ u. c ∷ u) q)
]

-- The domain is "*", is the host, or has the host as a subdomain, letter case and dots at the end
-- aside.
abbrev pub Covers : (Text → Text) → Text → Text → Type 0
Covers lower hostname domain =
    (normal lower domain ≡ codes "*")
    ⊎ ((normal lower hostname ≡ normal lower domain)
        ⊎ ((sub : Text) × (normal lower hostname ≡ sub ++ (codes "." ++ normal lower domain))))

matches-Covers :
    (lower : Text → Text) (hostname domain : Text)
    → domain_matches (normal lower hostname) (normal lower domain) ≡ true
    → Covers lower hostname domain
unfolding domain_matches
matches-Covers lower hostname domain h = elim (||-true (normal lower domain === codes "*") _ h) [
  | inl e ↦ inl ((===_iff (normal lower domain) (codes "*")).0 e)
  | inr rest ↦ elim (||-true (normal lower hostname === normal lower domain) _ rest) [
    | inl e ↦ inr (inl ((===_iff (normal lower hostname) (normal lower domain)).0 e))
    | inr e ↦
        inr (inr (ends_with-suffix (codes "." ++ normal lower domain) (normal lower hostname) e))
  ]
]

-- A host is allowed by a list of domains only if one of them covers it: no host passes because a
-- domain happens to end its name in the middle of a label.
pub domain_allowed-Covers :
    (lower : Text → Text) (hostname : Text) (domains : List Text)
    → domain_allowed lower hostname domains ≡ true
    → Any (Covers lower hostname) domains
unfolding domain_allowed
domain_allowed-Covers lower hostname [] h = absurd (cc)
domain_allowed-Covers lower hostname (domain ∷ domains) h =
    elim (||-true (domain_matches (normal lower hostname) (normal lower domain)) _ h) [
      | inl e ↦ inl (matches-Covers lower hostname domain e)
      | inr e ↦ inr (domain_allowed-Covers lower hostname domains e)
    ]
