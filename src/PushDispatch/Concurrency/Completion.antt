-- ===== src/PushDispatch/Concurrency/Completion.antt =====
-- `mapWithConcurrency` gives each item its result, whatever the order of the moments.
use etkin_link.Base.{
  ℕ, suc, ◌+◌, ◌-◌, ◌≤◌, ◌<◌, ◌≡◌, refl, ◌∙◌, List, [], ◌∷◌, none, some, ltb, ◌==◌, min,
  if◌then◌else◌, length, arith, ◌⊎◌, inl, inr, Bool-cases, Option-cases,
}
use etkin_link.PushDispatch.Concurrency.{
  Runner, Pool, take_item, start, runner_at, set_runner, store_result, finish, run,
}
use etkin_link.PushDispatch.Concurrency.Runners.{
  IsBusy, EndsLate, IsBusy-set_other, IsBusy-set_new, length-set_runner, EndsLate-set_busy,
  EndsLate-set_ended, busy, busy-set_busy, busy-set_ended, busy-le-length, none_busy,
  start_runners-Started,
}

-- Every index that was taken has its result, or a runner awaits it.
pub record Inv {R : Type 0} (worker : ℕ → R) (count limit : ℕ) (p : Pool R) : Type 0 where
  pub in_range : p.next_index ≤ count
  pub taken : (j : ℕ) → j < p.next_index → (p.results j ≡ some (worker j)) ⊎ IsBusy j p.runners
  pub late : EndsLate count p.next_index p.runners
  pub size : length p.runners ≡ min limit count

module _ {R : Type 0} (worker : ℕ → R) (count limit : ℕ) where
  start-Inv : Inv worker count limit (start count limit)
  unfolding start
  start-Inv =
      let started = start_runners-Started count (min limit count) 0 (omega arith) in
      record {
        in_range = started.in_range;
        taken = λ j h. inr (started.awaited j (omega arith) h);
        late = started.late;
        size = started.size;
      }

  -- An index that was taken before, after the result of j came.
  still_taken :
      (p : Pool R) (k j i : ℕ) (new : Runner)
      → runner_at p.runners k ≡ some j
      → (p.results i ≡ some (worker i)) ⊎ IsBusy i p.runners
      → ((if i == j then some (worker j) else p.results i) ≡ some (worker i))
        ⊎ IsBusy i (set_runner p.runners k new)
  still_taken p k j i new e old = elim (Bool-cases (i == j)) [
    | inl same ↦ let eq : i ≡ j = ground arith in inl (rw (same, eq) refl)
    | inr other ↦ elim old [
      | inl known ↦ inl (rw other known)
      | inr awaited ↦ inr (IsBusy-set_other p.runners k i j new e (ground arith) awaited)
    ]
  ]

  store_result-Inv :
      (p : Pool R) (k j : ℕ)
      → runner_at p.runners k ≡ some j
      → Inv worker count limit p
      → Inv worker count limit (store_result worker count p k (some j))
  unfolding store_result take_item
  store_result-Inv p k j e v = elim (Bool-cases (ltb p.next_index count)) [
    | inl left_over ↦ rw left_over (record {
      in_range = ground arith;
      taken = λ i h. elim (Bool-cases (i == p.next_index)) [
        | inl newest ↦
            let eq : p.next_index ≡ i = ground arith in
            inr (rw (← eq) (IsBusy-set_new p.runners k p.next_index j e))
        | inr older ↦ still_taken p k j i _ e (v.taken i (ground arith))
      ];
      late = EndsLate-set_busy count p.next_index p.runners k (ground arith) v.late;
      size = length-set_runner p.runners k _ ∙ v.size;
    })
    | inr none_left ↦ rw none_left (record {
      in_range = v.in_range;
      taken = λ i h. still_taken p k j i _ e (v.taken i h);
      late = EndsLate-set_ended count p.next_index p.runners k (ground (arith, v.in_range)) v.late;
      size = length-set_runner p.runners k _ ∙ v.size;
    })
  ]

  finish-Inv :
      (p : Pool R) (k : ℕ)
      → Inv worker count limit p
      → Inv worker count limit (finish worker count p k)
  unfolding finish
  finish-Inv p k v = elim (Option-cases (runner_at p.runners k)) [
    | inl ended ↦ rw ended v
    | inr (j, e) ↦ rw e (store_result-Inv p k j e v)
  ]

  run-Inv :
      (ks : List ℕ) (p : Pool R)
      → Inv worker count limit p
      → Inv worker count limit (run worker count p ks)
  unfolding run
  run-Inv [] p v = v
  run-Inv (k ∷ ks) p v = run-Inv ks (finish worker count p k) (finish-Inv p k v)

  -- Without a busy runner every item was taken.
  all_taken :
      (rs : List Runner) (next : ℕ)
      → 1 ≤ limit
      → busy rs ≡ 0
      → EndsLate count next rs
      → length rs ≡ min limit count
      → count ≤ next
  all_taken [] next some_runner e late size = omega (arith, size, some_runner)
  all_taken (none ∷ rs) next some_runner e late size = omega (arith, late.0)
  all_taken (some j ∷ rs) next some_runner e late size = absurd (omega (arith, e))

  -- Whatever the order in which the results come: when no runner awaits one any more, the result of
  -- every item stands at the index of the item, if there is a runner at all.
  pub results-run :
      (ks : List ℕ)
      → 1 ≤ limit
      → busy (run worker count (start count limit) ks).runners ≡ 0
      → (j : ℕ) → j < count
      → (run worker count (start count limit) ks).results j ≡ some (worker j)
  results-run ks some_runner ended j h =
      let p = run worker count (start count limit) ks in
      let v = run-Inv ks (start count limit) start-Inv in
      elim (v.taken j
        (omega (arith, h, all_taken p.runners p.next_index some_runner ended v.late v.size))) [
          | inl known ↦ known
          | inr awaited ↦ absurd (none_busy p.runners j ended awaited)
        ]

  -- What is left to do: the items that are awaited and those that nobody took.
  abbrev pub left : Pool R → ℕ
  left p = busy p.runners + (count - p.next_index)

  -- Each runner that is named awaits an item at its moment.
  abbrev pub IsSchedule : Pool R → List ℕ → Type 0
  IsSchedule p [] = Unit
  IsSchedule p (k ∷ ks) =
      ((j : ℕ) × (runner_at p.runners k ≡ some j)) × IsSchedule (finish worker count p k) ks

  left-store_result :
      (p : Pool R) (k j : ℕ)
      → runner_at p.runners k ≡ some j
      → suc (left (store_result worker count p k (some j))) ≡ left p
  unfolding store_result take_item
  left-store_result p k j e = elim (Bool-cases (ltb p.next_index count)) [
    | inl left_over ↦
        rw left_over (ground (arith, left_over, busy-set_busy p.runners k p.next_index j e))
    | inr none_left ↦ rw none_left (omega (arith, busy-set_ended p.runners k j e))
  ]

  left-finish :
      (p : Pool R) (k j : ℕ)
      → runner_at p.runners k ≡ some j
      → suc (left (finish worker count p k)) ≡ left p
  unfolding finish
  left-finish p k j e = rw e (left-store_result p k j e)

  left-run :
      (ks : List ℕ) (p : Pool R)
      → IsSchedule p ks
      → left (run worker count p ks) + length ks ≡ left p
  unfolding run
  left-run [] p h = omega arith
  left-run (k ∷ ks) p ((j, e), h) =
      omega (arith, left-run ks (finish worker count p k) h, left-finish p k j e)

  left-start : left (start count limit) ≡ count
  unfolding start
  left-start =
      let started = start_runners-Started count (min limit count) 0 (omega arith) in
      omega (arith, started.counted, started.in_range)

  -- A run ends: no schedule has more moments than there are items, and one with as many leaves no
  -- runner busy.
  pub run_terminates :
      (ks : List ℕ)
      → IsSchedule (start count limit) ks
      → (length ks ≤ count)
        × (length ks ≡ count → busy (run worker count (start count limit) ks).runners ≡ 0)
  run_terminates ks h =
      let total = left-run ks (start count limit) h in
      (omega (arith, total, left-start), λ all. omega (arith, total, left-start, all))

  -- At no moment are more runners busy than the limit allows.
  pub busy-run : (ks : List ℕ) → busy (run worker count (start count limit) ks).runners ≤ limit
  busy-run ks =
      let v = run-Inv ks (start count limit) start-Inv in
      omega (arith, busy-le-length (run worker count (start count limit) ks).runners, v.size)
