-- ===== src/Wiring/Runtime/Closed.antt =====
-- What is released when the program ends.
use henry.Prelude.{◌≡◌, ◌≢◌, refl, ap, ◌∙◌, Option, none, some, List, [], ◌∷◌, ◌++◌, append_assoc}
use henry.Text.{Text}
use henry.Result.{Result, ok, err}
use henry.Mcp.Definition.{
  Toolset, CloseOutcome, aclose, no_client, closed, timed_out, failed, cancelled,
}
use henry.Wiring.Discover.{Integration, builtin, mcp}
use henry.Wiring.Runtime.{
  Closing, http_closed, engine_disposed, asked, dispose, close_rest, after_server, close_from,
  close,
}

-- The toolsets that were built, in the registry's order.
unfoldable pub toolsets_of : List Integration → List Closing
unfolding asked
toolsets_of [] = []
toolsets_of (builtin name ∷ is) = toolsets_of is
toolsets_of (mcp name d toolset ∷ is) = asked name toolset ++ toolsets_of is

module _ (outcome : Text → CloseOutcome) (http engine : Result (Unit {0}))
    (goes_on : (name : Text) → outcome name ≢ cancelled) where
  aclose-returns :
      (name : Text) (toolset : Option Toolset)
      → (logged : List Text) × ((aclose toolset (outcome name)).0 ≡ ok logged)
  unfolding aclose
  aclose-returns name none = ([], refl)
  aclose-returns name (some t) = by_outcome (outcome name) (goes_on name)
    where
      by_outcome :
          (o : CloseOutcome)
          → o ≢ cancelled
          → (logged : List Text) × ((aclose (some t) o).0 ≡ ok logged)
      by_outcome no_client n = ([], refl)
      by_outcome closed n = ([], refl)
      by_outcome timed_out n = (_, refl)
      by_outcome (failed e) n = (_, refl)
      by_outcome cancelled n = absurd (n refl)

  close_from-all :
      (so_far : List Closing) (is : List Integration)
      → close_from outcome http engine so_far is
        ≡ (so_far ++ (toolsets_of is ++ http_closed ∷ engine_disposed ∷ []), dispose engine http)
  unfolding close_from close_rest toolsets_of after_server
  close_from-all so_far [] = refl
  close_from-all so_far (builtin name ∷ is) = close_from-all so_far is
  close_from-all so_far (mcp name d toolset ∷ is) = rw (aclose-returns name toolset).1 (
      close_from-all (so_far ++ asked name toolset) is
      ∙ ap (λ c. (c, dispose engine http)) (simp append_assoc))

  -- If no closing is cancelled, close asks each toolset that was built to close, in the registry's order,
  -- however the ones before it end, in time or not, then closes the HTTP client, and disposes of the engine
  -- in each case. It returns only if these two do, and an exception of the engine goes before the client's.
  pub close_lem :
      (is : List Integration)
      → close outcome http engine is ≡ (
        toolsets_of is ++ http_closed ∷ engine_disposed ∷ [],
        elim engine [ err e ↦ err e | ok u ↦ http ],
      )
  unfolding close
  close_lem is =
      close_from-all [] is
      ∙ ap (λ r. (toolsets_of is ++ http_closed ∷ engine_disposed ∷ [], r)) (by_engine engine)
    where
      by_engine : (e : Result (Unit {0})) → dispose e http ≡ elim e [ err x ↦ err x | ok u ↦ http ]
      by_engine (err x) = unfold dispose in refl
      by_engine (ok u) = unfold dispose in refl
