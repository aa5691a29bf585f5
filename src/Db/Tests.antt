-- ===== src/Db/Tests.antt =====
-- Runs of the models of henry/db, with a database that keeps the operations it has run.
use henry.Prelude.{◌≡◌, ap, sym, ◌∙◌, refl, Option, none, some, List, [], ◌∷◌, if◌then◌else◌}
use henry.Text.{Text, codes, ◌===◌, ===-refl}
use henry.Result.{Result, ok-injective, ok, err, runtime_error, ◌>>=◌}
use henry.Db.Schema.{
  Table, Operation, create_table, drop_table, create_index, drop_index, alter_column, Engine,
  Documented, run, add_index, alter,
}
use henry.Db.Migrations.{upgrade_foundation, upgrade_overrides, downgrade_foundation}
use henry.Db.Models.{models}
use henry.Db.Upgraded.{table_named, or_else, run-models}
use henry.Db.Undone.{downgrade-upgrade}
use mathlib.Core.Option

kept : List Operation → Text → Option Table
kept [] n = none
kept (create_table t ∷ os) n = if t.name === n then some t else kept os n
kept (create_index i t ∷ os) n = if t === n then Option.map (add_index i) (kept os n) else kept os n
kept (alter_column t c type nullable ∷ os) n =
    if t === n then Option.map (alter c nullable) (kept os n) else kept os n
kept (o ∷ os) n = kept os n

refused : Result (List Operation)
refused = err (runtime_error (codes "cannot drop it"))

drop_last : Text → List Operation → Result (List Operation)
drop_last n (create_table t ∷ os) = if t.name === n then ok os else refused
drop_last n (create_index i t ∷ os) = if i.name === n then ok os else refused
drop_last n os = refused

one_step : Operation → List Operation → Result (List Operation)
one_step (drop_table n) os = drop_last n os
one_step (drop_index n t) os = drop_last n os
one_step o os = ok (o ∷ os)

abbrev engine : Engine (List Operation)
engine = record { step = one_step; describe = kept }

engine-Documented : Documented engine
unfolding one_step drop_last kept
engine-Documented = record {
  created = λ t s after q n. ap (λ r. kept r n) (sym (ok-injective q));
  indexed = λ i t s after q n. ap (λ r. kept r n) (sym (ok-injective q));
  altered = λ t c type nullable s after q n. ap (λ r. kept r n) (sym (ok-injective q));
  executed = λ u s after q n. ap (λ r. kept r n) (sym (ok-injective q));
  table_dropped =
      λ t s after q. dropped t.name s after (create_table t) (simp (===-refl t.name) refl) q;
  index_dropped =
      λ i t s after q. dropped i.name s after (create_index i t) (simp (===-refl i.name) refl) q;
}
  where
    dropped :
        (n : Text) (s after : List Operation) (o : Operation)
        → drop_last n (o ∷ s) ≡ ok s
        → Path (Result (List Operation)) (ok (o ∷ s)) (ok after)
        → drop_last n after ≡ ok s
    dropped n s after o h q = ap (drop_last n) (sym (ok-injective q)) ∙ h

pushed : List Operation → List Operation → List Operation
pushed [] s = s
pushed (o ∷ os) s = pushed os (o ∷ s)

abbrev founded : List Operation
founded = pushed upgrade_foundation []

abbrev upgraded : List Operation
upgraded = pushed upgrade_overrides founded

founded-run : run engine upgrade_foundation [] ≡ ok founded
unfolding run one_step pushed upgrade_foundation
founded-run = refl

upgraded-run : (run engine upgrade_foundation [] >>= run engine upgrade_overrides) ≡ ok upgraded
unfolding run one_step pushed upgrade_foundation upgrade_overrides
upgraded-run = refl

run-models_example :
    engine.describe upgraded (codes "task")
    ≡ or_else (table_named (codes "task") models) (engine.describe [] (codes "task"))
run-models_example = run-models engine engine-Documented [] (codes "task") upgraded upgraded-run

downgrade-upgrade_example : run engine downgrade_foundation founded ≡ ok []
downgrade-upgrade_example = downgrade-upgrade engine engine-Documented [] founded founded-run
