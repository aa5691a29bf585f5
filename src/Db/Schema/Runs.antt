-- ===== src/Db/Schema/Runs.antt =====
-- A run of two lists of operations of a migration, one behind the other.
use henry.Prelude.{◌≡◌, refl, List, [], ◌∷◌, ◌++◌}
use henry.Result.{Result, ok, err, ◌>>=◌}
use henry.Db.Schema.{Operation, Engine, run}

module _ {S : Type 0} (engine : Engine S) where
  pub run-++ :
      (os rest : List Operation) (s : S)
      → run engine (os ++ rest) s ≡ (run engine os s >>= run engine rest)
  unfolding run
  run-++ [] rest s = refl
  run-++ (o ∷ os) rest s = onward (λ mid. run-++ os rest mid) (engine.step o s)
    where
      onward :
          ((mid : S) → run engine (os ++ rest) mid ≡ (run engine os mid >>= run engine rest))
          → (m : Result S)
          → (m >>= run engine (os ++ rest)) ≡ ((m >>= run engine os) >>= run engine rest)
      onward later (ok mid) = later mid
      onward later (err e) = refl
