-- ===== src/Mcp/Definition/Transport.antt =====
-- What a definition that is accepted stands for.
use henry.Prelude.{
  ℕ, ◌≡◌, refl, ap, ◌∙◌, Bool, true, false, not, Option, none, some, List, [], ◌∷◌, arith,
  if◌then◌else◌,
}
use henry.Text.{Text, codes}
use henry.Result.{Ensures, Ensures-unless}
use henry.Mcp.Definition.{
  ServerDef, Validated, stdio, http, is_given, same, holds, unexpected, stdio_only, http_only,
  refuse_fields, exactly_one_transport, or_none, client_of, build_client,
}

-- The one transport, the client that is made for it, and that nothing was given for the other.
pub data HasTransport (v : Validated) : Type 0 where
  by_command :
      (c : ℕ) (command : Text)
      → v.definition.command ≡ some (c ∷ command)
      → is_given v.definition.url ≡ false
      → holds v.fields_set (codes "headers") ≡ false
      → build_client v.definition
        ≡ stdio (c ∷ command) v.definition.args (or_none v.definition.env) v.definition.cwd
      → HasTransport v
  by_url :
      (c : ℕ) (url : Text)
      → v.definition.url ≡ some (c ∷ url)
      → is_given v.definition.command ≡ false
      → holds v.fields_set (codes "args") ≡ false
      → holds v.fields_set (codes "cwd") ≡ false
      → holds v.fields_set (codes "env") ≡ false
      → build_client v.definition ≡ http (some (c ∷ url)) (or_none v.definition.headers)
      → HasTransport v

refuse_fields-none :
    (what : Text) (names : List Text) (v : Validated)
    → Ensures (λ w. (w ≡ v) × (names ≡ [])) (refuse_fields what names v)
unfolding refuse_fields
refuse_fields-none what [] v = λ a e. (cc, refl)
refuse_fields-none what (n ∷ names) v = λ a e. absurd (cc)

command-HasTransport :
    (v : Validated) (o : Option Text)
    → v.definition.command ≡ o
    → is_given o ≡ true
    → is_given v.definition.url ≡ false
    → unexpected v.fields_set http_only ≡ []
    → HasTransport v
unfolding is_given unexpected http_only build_client client_of
command-HasTransport v none e g u f = absurd (cc)
command-HasTransport v (some []) e g u f = absurd (cc)
command-HasTransport v (some (c ∷ command)) e g u f =
    by_command c command e u (ground arith) (ap (λ o. client_of o v.definition) e)

client_of-url :
    (o : Option Text) (d : ServerDef)
    → is_given o ≡ false
    → client_of o d ≡ http d.url (or_none d.headers)
unfolding client_of is_given
client_of-url none d h = refl
client_of-url (some []) d h = refl
client_of-url (some (c ∷ t)) d h = absurd (cc)

url-HasTransport :
    (v : Validated) (o : Option Text)
    → v.definition.url ≡ o
    → is_given o ≡ true
    → is_given v.definition.command ≡ false
    → unexpected v.fields_set stdio_only ≡ []
    → HasTransport v
unfolding is_given unexpected stdio_only build_client
url-HasTransport v none e g u f = absurd (cc)
url-HasTransport v (some []) e g u f = absurd (cc)
url-HasTransport v (some (c ∷ url)) e g u f =
    by_url c url e u (ground arith) (ground arith) (ground arith) (
      client_of-url v.definition.command v.definition u
      ∙ ap (λ o. http o (or_none v.definition.headers)) e)

same-false : (a b : Bool) → same a b ≡ false → a ≡ not b
unfolding same
same-false true true h = absurd (cc)
same-false true false h = refl
same-false false true h = refl
same-false false false h = absurd (cc)

-- What `_exactly_one_transport` accepts, unchanged, has exactly one transport; the client is made for it
-- with all that the definition says about it, and no field of the other transport was set.
pub exactly_one_transport-HasTransport :
    (v : Validated) → Ensures (λ w. (w ≡ v) × HasTransport v) (exactly_one_transport v)
unfolding exactly_one_transport
exactly_one_transport-HasTransport v =
    Ensures-unless (same (is_given v.definition.command) (is_given v.definition.url)) _
      (λ differ. by_url_given (is_given v.definition.url) refl (same-false _ _ differ))
  where
    by_url_given :
        (b : Bool)
        → is_given v.definition.url ≡ b
        → is_given v.definition.command ≡ not (is_given v.definition.url)
        → Ensures
            (λ w. (w ≡ v) × HasTransport v)
            (if b
              then refuse_fields
                  (codes "HTTP server includes stdio-only field(s): ")
                  (unexpected v.fields_set stdio_only)
                  v
              else refuse_fields
                  (codes "stdio server includes HTTP-only field(s): ")
                  (unexpected v.fields_set http_only)
                  v)
    by_url_given true u d a e =
        let (same_value, none_set) =
          refuse_fields-none _ (unexpected v.fields_set stdio_only) v a e in
        (same_value, url-HasTransport v v.definition.url refl u (d ∙ ap not u) none_set)
    by_url_given false u d a e =
        let (same_value, none_set) =
          refuse_fields-none _ (unexpected v.fields_set http_only) v a e in
        (same_value, command-HasTransport v v.definition.command refl (d ∙ ap not u) u none_set)
