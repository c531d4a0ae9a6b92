-- ===== src/Marketdata/RestBudget/Tests.antt =====
-- A budget of two calls a minute, one for each pair.
use coindcx_bot.Prelude.{ℕ, ◌*◌, ◌+◌, ◌≤◌, ◌≡◌, ◌≢◌, refl, String, List, [], ◌∷◌, arith}
use coindcx_bot.Prelude.Dict.{get, set}
use coindcx_bot.Prelude.Int.{◌+ℤ◌, ◌-ℤ◌}
use coindcx_bot.Marketdata.RestBudget.{
  RestBudgetOptions, make_bucket, new_budget, refill, take_token, attempt, granted, exhausted,
  waiting, acquire_rounds, acquire,
}
use coindcx_bot.Marketdata.RestBudget.Rate.{run_attempts, run_attempts-bound, acquire-ends}

budget_code : Unit {0}
unfolding get set ◌+ℤ◌ ◌-ℤ◌ make_bucket new_budget refill take_token attempt acquire_rounds acquire
    run_attempts
budget_code = tt

abbrev options : RestBudgetOptions
options = record { global_per_min = 2; pair_per_min = 1; timeout_ms = 100 }

abbrev burst : List (ℕ × String)
burst =
    (1000, "SOL")
    ∷ (1000, "SOL")
    ∷ (1001, "BTC")
    ∷ (1002, "ETH")
    ∷ (31_002, "ETH")
    ∷ (61_000, "SOL")
    ∷ []

burst_grants : (run_attempts (new_budget options 1000) burst).1 ≡ 4
unfolding budget_code
burst_grants = refl

acquire_runs :
    ((acquire (new_budget options 0) "SOL" 0 ((0, 0) ∷ [])).1 ≡ granted)
    × ((acquire
          (acquire (new_budget options 0) "SOL" 0 ((0, 0) ∷ [])).0
          "SOL"
          0
          ((0, 0) ∷ (50, 50) ∷ (100, 100) ∷ [])).1
        ≡ exhausted)
unfolding budget_code
acquire_runs = (refl, refl)

run_attempts-bound_example : 60_000 * 4 + 1000 * 2 ≤ 2 * 60_000 + 61_000 * 2
unfolding budget_code
run_attempts-bound_example = run_attempts-bound options 1000 burst (omega arith)

acquire-ends_example :
    (acquire (new_budget options 0) "SOL" 0 ((0, 0) ∷ (50, 50) ∷ (100, 100) ∷ [])).1 ≢ waiting
unfolding new_budget
acquire-ends_example =
    acquire-ends (new_budget options 0) "SOL" 0 ((0, 0) ∷ (50, 50) ∷ (100, 100) ∷ []) (omega arith)
      (omega arith)
