-- ===== src/PushDispatch/Concurrency.antt =====
-- `mapWithConcurrency` of supabase/functions/push-dispatch/index.ts: some runners take the items in
-- turn. A runner goes on without a pause until it awaits its item, so a run of the routine is a
-- sequence of moments at which a runner gets the result that it waits for. A worker that rejects is
-- left out: it makes the whole routine reject.
pub mod Runners
pub mod Completion
mod Tests
use etkin_link.Base.{
  ℕ, zero, suc, ◌+◌, ◌-◌, ◌≤◌, ◌<◌, ◌≡◌, refl, ap, ◌∙◌, ◌≢◌, Bool, true, false, List, [], ◌∷◌,
  Option, none, some, ltb, ◌==◌, ==_iff, min, if◌then◌else◌, length, All, arith, ◌⊎◌, inl, inr,
  Bool-cases,
}

-- A runner awaits the item of an index, or has ended.
abbrev pub Runner : Type 0
Runner = Option ℕ

pub record Pool (R : Type 0) : Type 0 where
  pub next_index : ℕ
  pub runners : List Runner
  pub results : ℕ → Option R

-- `while (nextIndex < items.length)`: the runner takes the next item, or ends.
pub take_item : (count next : ℕ) → Runner × ℕ
take_item count next = if ltb next count then (some next, suc next) else (none, next)

-- The runners start one after the other.
pub start_runners : (count k next : ℕ) → List Runner × ℕ
unfolding take_item
start_runners count zero next = ([], next)
start_runners count (suc k) next =
    let (runner, next') = take_item count next in
    let (runners, last) = start_runners count k next' in (runner ∷ runners, last)

pub start : {R : Type 0} → (count limit : ℕ) → Pool R
unfolding start_runners
start count limit = record {
  next_index = (start_runners count (min limit count) 0).1;
  runners = (start_runners count (min limit count) 0).0;
  results = λ j. none;
}

pub runner_at : List Runner → ℕ → Runner
runner_at [] k = none
runner_at (r ∷ rs) zero = r
runner_at (r ∷ rs) (suc k) = runner_at rs k

pub set_runner : List Runner → ℕ → Runner → List Runner
set_runner [] k new = []
set_runner (r ∷ rs) zero new = new ∷ rs
set_runner (r ∷ rs) (suc k) new = r ∷ set_runner rs k new

module _ {R : Type 0} (worker : ℕ → R) (count : ℕ) where
  pub store_result : Pool R → ℕ → Runner → Pool R
  unfolding set_runner take_item
  store_result p k none = p
  store_result p k (some j) = record {
    next_index = (take_item count p.next_index).1;
    runners = set_runner p.runners k (take_item count p.next_index).0;
    results = λ i. if i == j then some (worker j) else p.results i;
  }

  -- The runner k gets its result. A runner that has ended gets none.
  pub finish : Pool R → ℕ → Pool R
  unfolding store_result runner_at
  finish p k = store_result p k (runner_at p.runners k)

  pub run : Pool R → List ℕ → Pool R
  unfolding finish
  run p [] = p
  run p (k ∷ ks) = run (finish p k) ks
