-- ===== src/Db/Undone.antt =====
-- The downgrade of the migration 20260623_0001 of henry/db takes back its upgrade.
use henry.Prelude.{◌≡◌, refl, ap, sym, subst, ◌∙◌, Bool, true, false, List, [], ◌∷◌, ◌++◌}
use henry.Result.{ok, Ensures, Ensures-bind-with, ok-injective}
use henry.Db.Schema.{
  Operation, create_table, drop_table, create_index, drop_index, alter_column, execute, Engine,
  Documented, run,
}
use henry.Db.Schema.Runs.{run-++}
use henry.Db.Migrations.{upgrade_foundation, downgrade_foundation}

creates : List Operation → Bool
creates [] = true
creates (create_table t ∷ os) = creates os
creates (create_index i t ∷ os) = creates os
creates (o ∷ os) = false

-- What drops what an operation creates.
undo : Operation → Operation
undo (create_table t) = drop_table t.name
undo (create_index i t) = drop_index i.name t
undo o = o

undone : List Operation → List Operation
undone [] = []
undone (o ∷ os) = undone os ++ (undo o ∷ [])

module _ {S : Type 0} (engine : Engine S) where
  run-one :
      (o : Operation) (s back : S) → engine.step o s ≡ ok back → run engine (o ∷ []) s ≡ ok back
  unfolding run
  run-one o s back h = rw h refl

  behind :
      (os : List Operation) (o : Operation) (after mid s : S)
      → run engine os after ≡ ok mid
      → engine.step o mid ≡ ok s
      → run engine (os ++ (o ∷ [])) after ≡ ok s
  behind os o after mid s h e = run-++ engine os (o ∷ []) after ∙ rw h (run-one o mid s e)

  module _ (documented : Documented engine) where
    run-undone :
        (os : List Operation) (s : S)
        → creates os ≡ true
        → Ensures (λ after. run engine (undone os) after ≡ ok s) (run engine os s)
    unfolding run creates undone undo
    run-undone [] s b = λ after q. ap ok (sym (ok-injective q))
    run-undone (create_table t ∷ os) s b =
        Ensures-bind-with {Q = λ mid. engine.step (drop_table t.name) mid ≡ ok s}
          (engine.step (create_table t) s) (run engine os) (documented.table_dropped t s)
          λ mid d after q.
            behind (undone os) (drop_table t.name) after mid s (run-undone os mid b after q) d
    run-undone (create_index i t ∷ os) s b =
        Ensures-bind-with {Q = λ mid. engine.step (drop_index i.name t) mid ≡ ok s}
          (engine.step (create_index i t) s) (run engine os) (documented.index_dropped i t s)
          λ mid d after q.
            behind (undone os) (drop_index i.name t) after mid s (run-undone os mid b after q) d
    run-undone (drop_table t ∷ os) s b = absurd (cc)
    run-undone (drop_index i t ∷ os) s b = absurd (cc)
    run-undone (alter_column t c type nullable ∷ os) s b = absurd (cc)
    run-undone (execute u ∷ os) s b = absurd (cc)

foundation-creates : creates upgrade_foundation ≡ true
unfolding creates upgrade_foundation
foundation-creates = refl

foundation-undone : undone upgrade_foundation ≡ downgrade_foundation
unfolding undone undo upgrade_foundation downgrade_foundation
foundation-undone = refl

-- Whatever the database holds, once the upgrade has run the downgrade runs too, and leaves the database as it
-- was before.
pub downgrade-upgrade :
    {S : Type 0} (engine : Engine S)
    → Documented engine
    → (s : S)
    → Ensures
        (λ after. run engine downgrade_foundation after ≡ ok s)
        (run engine upgrade_foundation s)
downgrade-upgrade engine documented s =
    subst (λ os. Ensures (λ after. run engine os after ≡ ok s) (run engine upgrade_foundation s))
      foundation-undone (run-undone engine documented upgrade_foundation s foundation-creates)
