-- ===== src/Config/Tests.antt =====
-- Runs of the models of henry/config/registry.py.
use henry.Text.{codes}
use henry.Json.{Fields, str, obj, done, field}

-- Defaults with a nested dictionary, and a row that changes one entry of it.
abbrev defaults : Fields
defaults =
    field (codes "model") (str (codes "m"))
      (field (codes "budget_caps") (obj (field (codes "a") (str (codes "1")) done)) done)

abbrev row : Fields
row = field (codes "budget_caps") (obj (field (codes "b") (str (codes "2")) done)) done
