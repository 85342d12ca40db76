-- ===== src/Finance/Breakdown.antt =====
-- The chart of the expenses by category, against the expenses themselves.
use mathlib.Core.List.{foldl}
use beidar_pos.Prelude.{String, List, [], ◌∷◌, ◌===◌, if◌then◌else◌}
use beidar_pos.Prelude.Int.{ℤ, pos, ◌+ℤ◌}

-- What a category has in the chart, before it gets its label.
abbrev pub value_at : String → List (String × ℤ) → ℤ
value_at k [] = pos 0
value_at k ((other, v) ∷ rest) = if other === k then v else value_at k rest

abbrev pub key_of : String × ℤ → String
key_of (k, v) = k

abbrev value_of : String × ℤ → ℤ
value_of (k, v) = v

abbrev sums : ℤ → List (String × ℤ) → ℤ
sums a m = foldl (λ sum p. sum +ℤ value_of p) a m
