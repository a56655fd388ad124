-- ===== src/Sql/Tests.antt =====
-- sql_semantics.cpp: NULL AND FALSE, NULL OR TRUE.
use minidb_cpp.Prelude.{◌≡◌, ◌-◌, min, max}
use minidb_cpp.Sql.Truth.{
  truth_and, truth_or, truth_not, unknown, false_value, degree, truth_connectives-degree,
}

truth_connectives-degree_example :
    (degree (truth_and unknown false_value) ≡ min (degree unknown) (degree false_value))
    × (degree (truth_or unknown false_value) ≡ max (degree unknown) (degree false_value))
    × (degree (truth_not unknown) ≡ 2 - degree unknown)
truth_connectives-degree_example = truth_connectives-degree unknown false_value
