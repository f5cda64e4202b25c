-- ===== src/Server/Analytics/Tallies.antt =====
-- The numbers of `analyticsHandler` of `dkron/dkron/api_analytics.go` against what they count.
use phan_tan_dkron_giuaky.Common.{ℕ, ◌+◌, Bool, List, [], ◌∷◌, string_eq, if◌then◌else◌}
use phan_tan_dkron_giuaky.Server.Executions.{Execution}

-- The sum of a weight of each execution
unfoldable pub sum_of : (Execution → ℕ) → List Execution → ℕ
sum_of w [] = 0
sum_of w (e ∷ es) = w e + sum_of w es

-- 1 for what holds, 0 for what does not
abbrev pub one_if : Bool → ℕ
one_if b = if b then 1 else 0
