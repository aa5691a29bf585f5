-- ===== src/Wiring/Runtime/Registry.antt =====
-- What the registry of build_runtime holds.
use henry.Prelude.{
  ◌≡◌, refl, ap, ◌∙◌, inl, inr, Bool, true, false, Option, none, some, List, [], ◌∷◌, ◌||◌, arith,
  keep_if, Bool-cases, if◌then◌else◌, All,
}
use henry.Text.{Text, ◌===◌, ===_iff}
use henry.Dict.{Dict, lookup, insert, lookup-insert}
use henry.Result.{Result, ok, Ensures, Ensures-ok, Ensures-bind-with, Ensures-unless}
use henry.Mcp.Definition.{Validated}
use henry.Wiring.Discover.{Integration, builtin, mcp, is_in, discover}
use henry.Wiring.Runtime.{add_servers, server_names, overlap, refuse_overlap, build_registry}

abbrev pub or_else {ℓ} : {A : Type ℓ} → Option A → Option A → Option A
or_else (some a) other = some a
or_else none other = other

-- The name is one of the list.
unfoldable pub lists : List Text → Text → Bool
lists [] name = false
lists (n ∷ names) name = n === name || lists names name

-- The builtin of a name, and the server of a name: of two definitions the later.
unfoldable pub builtin_for : List Text → Text → Option Integration
unfolding lists
builtin_for names name = if lists names name then some (builtin name) else none

unfoldable pub server_for : List (Text × Validated) → Text → Option Integration
server_for [] name = none
server_for ((n, v) ∷ servers) name =
    or_else (server_for servers name) (if n === name then some (mcp n v.definition none) else none)

keep_if-none :
    (p : Text → Bool) (names : List Text) → keep_if p names ≡ [] → All (λ n. p n ≡ false) names
keep_if-none p [] e = tt
keep_if-none p (n ∷ names) e = elim (Bool-cases (p n)) [
  | inl y ↦ absurd (ground arith)
  | inr y ↦ (y, keep_if-none p names (ground arith))
]

discover-lookup :
    (d : Dict Integration) (names : List Text)
    → Ensures
        (λ d'. (name : Text) → lookup name d' ≡ or_else (lookup name d) (builtin_for names name))
        (discover d names)
unfolding discover builtin_for
discover-lookup d [] = Ensures-ok _ d (λ name. by_found (lookup name d))
  where
    by_found : (o : Option Integration) → o ≡ or_else o none
    by_found none = refl
    by_found (some i) = refl
discover-lookup d (n ∷ names) = Ensures-unless (is_in d n) _ (λ fresh d' e name.
    discover-lookup (insert n (builtin n) d) names d' e name ∙ one_more fresh name)
  where
    one_more :
        is_in d n ≡ false
        → (name : Text)
        → or_else
            (lookup name (insert n (builtin n) d))
            (if lists names name then some (builtin name) else none)
          ≡ or_else
              (lookup name d)
              (if n === name || lists names name then some (builtin name) else none)
    one_more fresh name =
        unfold is_in in ground (arith, fresh, lookup-insert n name (builtin n) d, ===_iff n name)

add_servers-lookup :
    (r : Dict Integration) (servers : List (Text × Validated)) (name : Text)
    → lookup name (add_servers r servers) ≡ or_else (server_for servers name) (lookup name r)
unfolding add_servers server_for
add_servers-lookup r [] name = refl
add_servers-lookup r ((n, v) ∷ servers) name =
    add_servers-lookup (insert n (mcp n v.definition none) r) servers name
    ∙ ground (arith, lookup-insert n name (mcp n v.definition none) r)

no_server :
    (r : Dict Integration) (servers : List (Text × Validated)) (name : Text)
    → All (λ n. is_in r n ≡ false) (server_names servers)
    → is_in r name ≡ true
    → server_for servers name ≡ none
unfolding server_for server_names
no_server r [] name h k = refl
no_server r ((n, v) ∷ servers) name h k =
    ground (arith, no_server r servers name h.1 k, h.0, ===_iff n name)

-- Under each name stands what was meant for it, and no server hides a builtin.
pub record HoldsAll (names : List Text) (servers : List (Text × Validated)) (d : Dict Integration)
    : Type 0 where
  pub held :
      (name : Text) → lookup name d ≡ or_else (server_for servers name) (builtin_for names name)
  pub apart : (name : Text) → lists names name ≡ true → server_for servers name ≡ none

add_servers-HoldsAll :
    (names : List Text) (servers : List (Text × Validated)) (r : Dict Integration)
    → ((name : Text) → lookup name r ≡ builtin_for names name)
    → overlap r servers ≡ []
    → HoldsAll names servers (add_servers r servers)
unfolding overlap
add_servers-HoldsAll names servers r h e = record {
  held = λ name.
      add_servers-lookup r servers name ∙ ap (λ o. or_else (server_for servers name) o) (h name);
  apart = λ name k.
      no_server r servers name (keep_if-none (λ n. is_in r n) (server_names servers) e)
        (known name k);
}
  where
    known : (name : Text) → lists names name ≡ true → is_in r name ≡ true
    known name k = unfold is_in in unfold builtin_for in ground (arith, h name)

refuse_overlap-none :
    (sorted : List Text → List Text) (names : List Text)
    → Ensures (λ (u : Unit {0}). names ≡ []) (refuse_overlap sorted names)
unfolding refuse_overlap
refuse_overlap-none sorted [] = λ u e. refl
refuse_overlap-none sorted (n ∷ names) = λ u e. absurd (cc)

-- Without a registry that is given, build_runtime gets one only if the configuration was read, and then it
-- holds under each name the server that is configured under it, or else the builtin of that name, and
-- nothing under any other name. No server is configured under the name of a builtin.
pub build_registry-HoldsAll :
    (sorted : List Text → List Text) (names : List Text) (loaded : Result (List (Text × Validated)))
    → Ensures
        (λ d.
          (servers : List (Text × Validated)) × (loaded ≡ ok servers) × HoldsAll names servers d)
        (build_registry sorted none names loaded)
unfolding build_registry
build_registry-HoldsAll sorted names loaded =
    Ensures-bind-with (discover [] names) _ (discover-lookup [] names) (λ r h.
      Ensures-bind-with {Q = λ servers. loaded ≡ ok servers} loaded _ (λ servers e. e)
        (λ servers l.
          Ensures-bind-with (refuse_overlap sorted (overlap r servers)) _
            (refuse_overlap-none sorted (overlap r servers))
            (λ u e. Ensures-ok _ (add_servers r servers) (
              servers,
              l,
              add_servers-HoldsAll names servers r (λ name. h name ∙ from_none name) e,
            ))))
  where
    from_none :
        (name : Text) → or_else (lookup name []) (builtin_for names name) ≡ builtin_for names name
    from_none name = unfold lookup in refl
