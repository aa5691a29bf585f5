-- ===== src/Mcp/Load/Named.antt =====
-- What a configuration file that is accepted gives.
use henry.Prelude.{
  ◌≤◌, ◌≡◌, refl, ap, subst, sym, ◌⊎◌, Bool, true, false, not, &&-true, Option, List, [], ◌∷◌,
  arith, All, length, leb→le, inl, inr, map,
}
use henry.Text.{Text, codes}
use henry.Json.{Json, Fields, done, field, obj, get}
use henry.Result.{
  Result, ok, err, Ensures, Ensures-ok, Ensures-bind, Ensures-bind-with, Ensures-unless, ◌>>=◌,
}
use henry.Mcp.Definition.{Validated, exactly_one_transport}
use henry.Mcp.Definition.Transport.{HasTransport, exactly_one_transport-HasTransport}
use henry.Mcp.Load.{
  walk_fields, is_name_char, all_name_chars, is_server_name, File, missing, malformed, parsed,
  wrapped, define, define_all, of_servers, of_payload, load_mcp_config,
}

-- A name that can be the prefix of a tool.
pub record IsServerName (name : Text) : Type 0 where
  pub longer : 1 ≤ length name
  pub shorter : length name ≤ 64
  pub chars : All (λ c. is_name_char c ≡ true) name

all_name_chars-All :
    (name : Text) → all_name_chars name ≡ true → All (λ c. is_name_char c ≡ true) name
unfolding all_name_chars
all_name_chars-All [] h = tt
all_name_chars-All (c ∷ t) h = ((&&-true _ _ h).0, all_name_chars-All t (&&-true _ _ h).1)

is_server_name-IsServerName : (name : Text) → is_server_name name ≡ true → IsServerName name
unfolding is_server_name
is_server_name-IsServerName name h =
    let (sized, chars) = &&-true _ _ h in
    let (longer, shorter) = &&-true _ _ sized in
    record {
      longer = leb→le _ _ longer;
      shorter = leb→le _ _ shorter;
      chars = all_name_chars-All name chars;
    }

-- A server of the configuration.
abbrev pub IsServer : Text × Validated → Type 0
IsServer s = IsServerName s.0 × HasTransport s.1

abbrev pub keys : Fields → List Text
keys done = []
keys (field k v fields) = k ∷ keys fields

-- The servers of a file, in its order.
pub record AreServers (servers : Fields) (found : List (Text × Validated)) : Type 0 where
  pub proper : All IsServer found
  pub names : map (λ (s : Text × Validated). s.0) found ≡ keys servers

-- The file is a JSON object with an object of servers.
pub record HoldsServers (file : File) (found : List (Text × Validated)) : Type 0 where
  pub payload : Fields
  pub servers : Fields
  pub read : file ≡ parsed (obj payload)
  pub under : get (codes "mcpServers") payload ≡ obj servers
  pub sound : AreServers servers found

module _ (environ : Text → Option Text) (validate : Fields → Result Validated) (path : Text) where
  wrapped-HasTransport :
      (name : Text) (m : Result Validated)
      → Ensures HasTransport m
      → Ensures HasTransport (wrapped environ validate path name m)
  unfolding wrapped
  wrapped-HasTransport name (ok v) h = h
  wrapped-HasTransport name (err e) h = λ a q. absurd (cc)

  define-HasTransport :
      (name : Text) (raw : Json) → Ensures HasTransport (define environ validate path name raw)
  unfolding define
  define-HasTransport name (obj raw) = Ensures-bind (walk_fields environ name raw) _ (λ expanded.
      wrapped-HasTransport name (validate expanded >>= exactly_one_transport) (
        Ensures-bind (validate expanded) exactly_one_transport (λ v w e.
          subst HasTransport (sym (exactly_one_transport-HasTransport v w e).0)
            (exactly_one_transport-HasTransport v w e).1)))
  define-HasTransport name other = λ a q. absurd (cc)

  define_all-AreServers :
      (servers : Fields) → Ensures (AreServers servers) (define_all environ validate path servers)
  unfolding define_all
  define_all-AreServers done =
      Ensures-ok (AreServers done) [] (record { proper = tt; names = refl })
  define_all-AreServers (field name raw servers) =
      Ensures-unless (not (is_server_name name)) _ (λ named.
        Ensures-bind-with (define environ validate path name raw) _ (define-HasTransport name raw)
          (λ v t.
            Ensures-bind-with (define_all environ validate path servers) _
              (define_all-AreServers servers)
              (λ rest h.
                Ensures-ok (AreServers (field name raw servers)) ((name, v) ∷ rest) (record {
                  proper = ((is_server_name-IsServerName name (ground arith), t), h.proper);
                  names = ap (λ ks. name ∷ ks) h.names;
                }))))

  of_servers-AreServers :
      (value : Json)
      → Ensures
          (λ found. (servers : Fields) × (value ≡ obj servers) × AreServers servers found)
          (of_servers environ validate path value)
  unfolding of_servers
  of_servers-AreServers (obj servers) = λ a q. (servers, refl, define_all-AreServers servers a q)
  of_servers-AreServers other = λ a q. absurd (cc)

  of_payload-HoldsServers :
      (payload : Json)
      → Ensures (HoldsServers (parsed payload)) (of_payload environ validate path payload)
  unfolding of_payload
  of_payload-HoldsServers (obj payload) = λ a q.
      let (servers, under, sound) = of_servers-AreServers (get (codes "mcpServers") payload) a q in
      record { payload = payload; servers = servers; read = refl; under = under; sound = sound }
  of_payload-HoldsServers other = λ a q. absurd (cc)

  -- A file that is accepted gives a server for each name under `mcpServers`, in its order; each name is
  -- fit to be a prefix of tools, and each definition has exactly one transport with a client for it. Only a
  -- file that is missing and was not asked for gives none without being read.
  pub load_mcp_config-HoldsServers :
      (file : File) (explicit : Bool)
      → Ensures
          (λ found.
            ((file ≡ missing) × (explicit ≡ false) × (found ≡ [])) ⊎ HoldsServers file found)
          (load_mcp_config environ validate path file explicit)
  unfolding load_mcp_config
  load_mcp_config-HoldsServers missing true = λ a q. absurd (cc)
  load_mcp_config-HoldsServers missing false = λ a q. inl (refl, refl, cc)
  load_mcp_config-HoldsServers (malformed detail) explicit = λ a q. absurd (cc)
  load_mcp_config-HoldsServers (parsed payload) explicit =
      λ a q. inr (of_payload-HoldsServers payload a q)
