-- ===== src/PushDispatch/Concurrency/Tests.antt =====
-- Three items and two runners, the second of which is faster.
use etkin_link.Base.{ℕ, ◌+◌, ◌≤◌, ◌≡◌, refl, List, [], ◌∷◌, some, length, arith}
use etkin_link.PushDispatch.Concurrency.{
  take_item, start_runners, start, runner_at, set_runner, store_result, finish, run,
}
use etkin_link.PushDispatch.Concurrency.Runners.{busy}
use etkin_link.PushDispatch.Concurrency.Completion.{
  IsSchedule, results-run, run_terminates, busy-run,
}

abbrev worker : ℕ → ℕ
worker j = j + 10

abbrev moments : List ℕ
moments = 1 ∷ 1 ∷ 0 ∷ []

schedule : IsSchedule worker 3 2 (start 3 2) moments
unfolding take_item start_runners start runner_at set_runner store_result finish
schedule = ((1, refl), ((2, refl), ((0, refl), tt)))

results-run_example : (run worker 3 (start 3 2) moments).results 2 ≡ some 12
results-run_example =
    results-run worker 3 2 moments (omega arith)
      ((run_terminates worker 3 2 moments schedule).1 refl) 2 (omega arith)

run_terminates_example :
    (length moments ≤ 3)
    × (length moments ≡ 3 → busy (run worker 3 (start 3 2) moments).runners ≡ 0)
run_terminates_example = run_terminates worker 3 2 moments schedule

busy-run_example : busy (run worker 3 (start 3 2) moments).runners ≤ 2
busy-run_example = busy-run worker 3 2 moments
