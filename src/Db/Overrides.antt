-- ===== src/Db/Overrides.antt =====
-- The two updates of the migration 20260713_0002 of henry/db, on the values of enabled_integrations.
use henry.Prelude.{◌≡◌, ◌≢◌, refl, false, none, some, if◌then◌else◌}
use henry.Json.{null, boolean, integer, float, str, arr, obj, nil, cons}
use henry.Db.Schema.{Value, Update}
use henry.Db.Migrations.{is_empty_list, is_null, null_for_empty, empty_for_null}

-- What an update makes of the value of a row.
unfoldable pub updated : Update → Value → Value
updated u v = if u.selects v then u.value else v

-- A downgrade after the upgrade gives every value back that the column could hold before, which is every one
-- but NULL. No downgraded value is NULL, so the column can forbid it again. An upgrade after the downgrade
-- keeps every value, save that a list that denies all is no override any more.
pub overrides-updated :
    (v : Value)
    → (v ≢ none → updated empty_for_null (updated null_for_empty v) ≡ v)
      × (is_null (updated empty_for_null v) ≡ false)
      × (updated null_for_empty (updated empty_for_null v) ≡ (if is_empty_list v then none else v))
unfolding updated null_for_empty empty_for_null is_null is_empty_list
overrides-updated none = (λ n. absurd (n refl), refl, refl)
overrides-updated (some (arr nil)) = (λ n. refl, refl, refl)
overrides-updated (some (arr (cons v vs))) = (λ n. refl, refl, refl)
overrides-updated (some null) = (λ n. refl, refl, refl)
overrides-updated (some (boolean b)) = (λ n. refl, refl, refl)
overrides-updated (some (integer i)) = (λ n. refl, refl, refl)
overrides-updated (some (float x)) = (λ n. refl, refl, refl)
overrides-updated (some (str t)) = (λ n. refl, refl, refl)
overrides-updated (some (obj fields)) = (λ n. refl, refl, refl)
