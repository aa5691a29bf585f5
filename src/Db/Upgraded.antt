-- ===== src/Db/Upgraded.antt =====
-- The tables after the migrations of henry/db are those of its models.
use henry.Prelude.{
  subst, inl, inr, Bool-cases, ◌≡◌, refl, ap, sym, ◌∙◌, Bool, true, false, ◌&&◌, Option, none, some,
  List, [], ◌∷◌, ◌++◌, arith, if◌then◌else◌,
}
use henry.Text.{Text, codes, ◌===◌, ===_iff}
use henry.Result.{Ensures, Ensures-bind-with, ok-injective, ◌>>=◌}
use henry.Db.Schema.{
  Table, Operation, create_table, drop_table, create_index, drop_index, alter_column, execute,
  Engine, Documented, run, add_index, alter,
}
use henry.Db.Schema.Runs.{run-++}
use henry.Db.Migrations.{upgrade_foundation, upgrade_overrides}
use henry.Db.Models.{Model, models, table_of}
use mathlib.Core.Option

-- The table of a name among the models.
pub table_named : Text → List Model → Option Table
table_named n [] = none
table_named n (m ∷ ms) = if m.tablename === n then some (table_of m) else table_named n ms

pub or_else : Option Table → Option Table → Option Table
or_else (some t) u = some t
or_else none u = u

-- What an operation makes of the description of a table, where it drops none.
effect : Operation → Text → Option Table → Option Table
effect (create_table t) n d = if t.name === n then some t else d
effect (create_index i t) n d = if t === n then Option.map (add_index i) d else d
effect (alter_column t c type nullable) n d = if t === n then Option.map (alter c nullable) d else d
effect o n d = d

adds : Operation → Bool
adds (drop_table t) = false
adds (drop_index i t) = false
adds o = true

builds : List Operation → Bool
builds [] = true
builds (o ∷ os) = adds o && builds os

described : List Operation → Text → Option Table → Option Table
described [] n d = d
described (o ∷ os) n d = described os n (effect o n d)

module _ {S : Type 0} (engine : Engine S) (documented : Documented engine) where
  step-describes :
      (o : Operation) (s : S) (n : Text)
      → adds o ≡ true
      → Ensures
          (λ after. engine.describe after n ≡ effect o n (engine.describe s n))
          (engine.step o s)
  unfolding adds effect
  step-describes (create_table t) s n b = λ after q. documented.created t s after q n
  step-describes (create_index i t) s n b = λ after q. documented.indexed i t s after q n
  step-describes (alter_column t c type nullable) s n b =
      λ after q. documented.altered t c type nullable s after q n
  step-describes (execute u) s n b = λ after q. documented.executed u s after q n
  step-describes (drop_table t) s n b = absurd (cc)
  step-describes (drop_index i t) s n b = absurd (cc)

  run-describes :
      (os : List Operation) (s : S) (n : Text)
      → builds os ≡ true
      → Ensures
          (λ after. engine.describe after n ≡ described os n (engine.describe s n))
          (run engine os s)
  unfolding run builds described
  run-describes [] s n b = λ after q. ap (λ r. engine.describe r n) (sym (ok-injective q))
  run-describes (o ∷ os) s n b =
      Ensures-bind-with (engine.step o s) (run engine os) (step-describes o s n (ground (arith)))
        λ mid d after q. run-describes os mid n (ground (arith)) after q ∙ ap (described os n) d

abbrev upgrades : List Operation
upgrades = upgrade_foundation ++ upgrade_overrides

upgrades-build : builds upgrades ≡ true
unfolding builds adds upgrade_foundation upgrade_overrides
upgrades-build = refl

-- The upgrades make of the table of a name what the models say.
Agree : Text → Type 0
Agree n = (d : Option Table) → described upgrades n d ≡ or_else (table_named n models) d

by_name : (k n : Text) → Agree k → ((k === n) ≡ false → Agree n) → Agree n
by_name k n at_k otherwise = elim (Bool-cases (k === n)) [
  | inl same ↦ subst Agree ((===_iff k n).0 same) at_k
  | inr differ ↦ otherwise differ
]

channel_config_agrees : Agree (codes "channel_config")
unfolding Agree described effect upgrade_foundation upgrade_overrides table_named models or_else
    table_of alter add_index codes ◌===◌
channel_config_agrees d = refl

channel_memory_agrees : Agree (codes "channel_memory")
unfolding Agree described effect upgrade_foundation upgrade_overrides table_named models or_else
    table_of alter add_index codes ◌===◌
channel_memory_agrees d = refl

channel_state_agrees : Agree (codes "channel_state")
unfolding Agree described effect upgrade_foundation upgrade_overrides table_named models or_else
    table_of alter add_index codes ◌===◌
channel_state_agrees d = refl

task_agrees : Agree (codes "task")
unfolding Agree described effect upgrade_foundation upgrade_overrides table_named models or_else
    table_of alter add_index codes ◌===◌
task_agrees d = refl

audit_log_agrees : Agree (codes "audit_log")
unfolding Agree described effect upgrade_foundation upgrade_overrides table_named models or_else
    table_of alter add_index codes ◌===◌
audit_log_agrees d = refl

processed_events_agrees : Agree (codes "processed_events")
unfolding Agree described effect upgrade_foundation upgrade_overrides table_named models or_else
    table_of alter add_index codes ◌===◌
processed_events_agrees d = refl

upgrades-describe : (n : Text) → Agree n
unfolding Agree described effect upgrade_foundation upgrade_overrides table_named models or_else
upgrades-describe n = by_name (codes "channel_config") n channel_config_agrees λ h0.
    by_name (codes "channel_memory") n channel_memory_agrees λ h1.
      by_name (codes "channel_state") n channel_state_agrees λ h2.
        by_name (codes "task") n task_agrees λ h3.
          by_name (codes "audit_log") n audit_log_agrees λ h4.
            by_name (codes "processed_events") n processed_events_agrees
              λ h5. λ d. simp (h0, h1, h2, h3, h4, h5) refl

-- After both upgrades, each model's table is in the database as the model declares it, with its columns,
-- constraints and indexes, and the table of every other name is as it was before.
pub run-models :
    {S : Type 0} (engine : Engine S)
    → Documented engine
    → (s : S) (n : Text)
    → Ensures
        (λ after. engine.describe after n ≡ or_else (table_named n models) (engine.describe s n))
        (run engine upgrade_foundation s >>= run engine upgrade_overrides)
unfolding Agree
run-models engine documented s n =
    subst
      (Ensures
        (λ after. engine.describe after n ≡ or_else (table_named n models) (engine.describe s n)))
      (run-++ engine upgrade_foundation upgrade_overrides s)
      λ after q.
        run-describes engine documented upgrades s n upgrades-build after q
        ∙ upgrades-describe n (engine.describe s n)
