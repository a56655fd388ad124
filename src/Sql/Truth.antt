-- ===== src/Sql/Truth.antt =====
-- src/sql_semantics.cpp: the three truth values of SQL. A row passes a filter only on `true_value`.
use minidb_cpp.Prelude.{Bool, true, false, ◌||◌, ◌&&◌, if◌then◌else◌, ◌≡◌, refl, ℕ, ◌-◌, min, max}

pub data TruthValue : Type 0 where
  false_value true_value unknown : TruthValue

abbrev pub is_value : TruthValue → TruthValue → Bool
is_value false_value false_value = true
is_value true_value true_value = true
is_value unknown unknown = true
is_value _ _ = false

unfoldable pub truth_not : TruthValue → TruthValue
truth_not false_value = true_value
truth_not true_value = false_value
truth_not unknown = unknown

unfoldable pub truth_and : TruthValue → TruthValue → TruthValue
truth_and left right =
    if is_value left false_value || is_value right false_value
    then false_value
    else (if is_value left true_value && is_value right true_value then true_value else unknown)

unfoldable pub truth_or : TruthValue → TruthValue → TruthValue
truth_or left right =
    if is_value left true_value || is_value right true_value
    then true_value
    else (if is_value left false_value && is_value right false_value then false_value else unknown)

-- How true a value is, in halves.
abbrev pub degree : TruthValue → ℕ
degree false_value = 0
degree unknown = 1
degree true_value = 2

-- The connectives are Kleene's: `and` is the minimum of the degrees of truth, `or` is their maximum,
-- and `not` mirrors the degree.
pub truth_connectives-degree :
    (left right : TruthValue)
    → (degree (truth_and left right) ≡ min (degree left) (degree right))
      × (degree (truth_or left right) ≡ max (degree left) (degree right))
      × (degree (truth_not left) ≡ 2 - degree left)
unfolding truth_and truth_or truth_not
truth_connectives-degree false_value false_value = (refl, refl, refl)
truth_connectives-degree false_value true_value = (refl, refl, refl)
truth_connectives-degree false_value unknown = (refl, refl, refl)
truth_connectives-degree true_value false_value = (refl, refl, refl)
truth_connectives-degree true_value true_value = (refl, refl, refl)
truth_connectives-degree true_value unknown = (refl, refl, refl)
truth_connectives-degree unknown false_value = (refl, refl, refl)
truth_connectives-degree unknown true_value = (refl, refl, refl)
truth_connectives-degree unknown unknown = (refl, refl, refl)
