-- ===== src/PushDispatch/Concurrency/Runners.antt =====
-- The runners of `mapWithConcurrency`: which indices they await, and when they end.
use etkin_link.Base.{
  ℕ, zero, suc, ◌+◌, ◌≤◌, ◌<◌, ◌≡◌, refl, ◌≢◌, List, [], ◌∷◌, none, some, ltb, ◌==◌, length, arith,
  ◌⊎◌, inl, inr, Bool-cases,
}
use etkin_link.PushDispatch.Concurrency.{Runner, take_item, start_runners, runner_at, set_runner}

abbrev pub IsBusy : ℕ → List Runner → Type 0
IsBusy j [] = ⊥
IsBusy j (none ∷ rs) = IsBusy j rs
IsBusy j (some i ∷ rs) = (i ≡ j) ⊎ IsBusy j rs

-- A runner ends only when no item is left.
abbrev pub EndsLate : ℕ → ℕ → List Runner → Type 0
EndsLate count next [] = Unit
EndsLate count next (none ∷ rs) = (next ≡ count) × EndsLate count next rs
EndsLate count next (some i ∷ rs) = EndsLate count next rs

pub IsBusy-set_other :
    (rs : List Runner) (k i j : ℕ) (new : Runner)
    → runner_at rs k ≡ some j
    → i ≢ j
    → IsBusy i rs
    → IsBusy i (set_runner rs k new)
unfolding runner_at set_runner
IsBusy-set_other [] k i j new e ne h = elim h [ ]
IsBusy-set_other (none ∷ rs) zero i j new e ne h = cc
IsBusy-set_other (some a ∷ rs) zero i j none e ne (inl same) = absurd (ne cc)
IsBusy-set_other (some a ∷ rs) zero i j none e ne (inr h) = h
IsBusy-set_other (some a ∷ rs) zero i j (some b) e ne (inl same) = absurd (ne cc)
IsBusy-set_other (some a ∷ rs) zero i j (some b) e ne (inr h) = inr h
IsBusy-set_other (none ∷ rs) (suc k) i j new e ne h = IsBusy-set_other rs k i j new e ne h
IsBusy-set_other (some a ∷ rs) (suc k) i j new e ne (inl same) = inl same
IsBusy-set_other (some a ∷ rs) (suc k) i j new e ne (inr h) =
    inr (IsBusy-set_other rs k i j new e ne h)

pub IsBusy-set_new :
    (rs : List Runner) (k i j : ℕ) → runner_at rs k ≡ some j → IsBusy i (set_runner rs k (some i))
unfolding runner_at set_runner
IsBusy-set_new [] k i j e = cc
IsBusy-set_new (r ∷ rs) zero i j e = inl refl
IsBusy-set_new (none ∷ rs) (suc k) i j e = IsBusy-set_new rs k i j e
IsBusy-set_new (some a ∷ rs) (suc k) i j e = inr (IsBusy-set_new rs k i j e)

pub length-set_runner :
    (rs : List Runner) (k : ℕ) (new : Runner) → length (set_runner rs k new) ≡ length rs
unfolding set_runner
length-set_runner [] k new = refl
length-set_runner (r ∷ rs) zero new = refl
length-set_runner (r ∷ rs) (suc k) new = omega (arith, length-set_runner rs k new)

-- While there is an item left no runner has ended, and one goes on.
pub EndsLate-set_busy :
    (count next : ℕ) (rs : List Runner) (k : ℕ)
    → next < count
    → EndsLate count next rs
    → EndsLate count (suc next) (set_runner rs k (some next))
unfolding set_runner
EndsLate-set_busy count next [] k h late = tt
EndsLate-set_busy count next (none ∷ rs) k h late = absurd (omega (arith, late.0))
EndsLate-set_busy count next (some a ∷ rs) zero h late = EndsLate-later count next rs h late
  where
    EndsLate-later :
        (count next : ℕ) (rs : List Runner)
        → next < count
        → EndsLate count next rs
        → EndsLate count (suc next) rs
    EndsLate-later count next [] h late = tt
    EndsLate-later count next (none ∷ rs) h late = absurd (omega (arith, late.0))
    EndsLate-later count next (some a ∷ rs) h late = EndsLate-later count next rs h late
EndsLate-set_busy count next (some a ∷ rs) (suc k) h late = EndsLate-set_busy count next rs k h late

pub EndsLate-set_ended :
    (count next : ℕ) (rs : List Runner) (k : ℕ)
    → next ≡ count
    → EndsLate count next rs
    → EndsLate count next (set_runner rs k none)
unfolding set_runner
EndsLate-set_ended count next [] k h late = tt
EndsLate-set_ended count next (none ∷ rs) zero h late = late
EndsLate-set_ended count next (some a ∷ rs) zero h late = (h, late)
EndsLate-set_ended count next (none ∷ rs) (suc k) h late =
    (h, EndsLate-set_ended count next rs k h late.1)
EndsLate-set_ended count next (some a ∷ rs) (suc k) h late =
    EndsLate-set_ended count next rs k h late

-- How many runners await an item.
abbrev pub busy : List Runner → ℕ
busy [] = 0
busy (none ∷ rs) = busy rs
busy (some i ∷ rs) = suc (busy rs)

pub busy-set_busy :
    (rs : List Runner) (k i j : ℕ)
    → runner_at rs k ≡ some j
    → busy (set_runner rs k (some i)) ≡ busy rs
unfolding runner_at set_runner
busy-set_busy [] k i j e = cc
busy-set_busy (none ∷ rs) zero i j e = cc
busy-set_busy (some a ∷ rs) zero i j e = refl
busy-set_busy (none ∷ rs) (suc k) i j e = busy-set_busy rs k i j e
busy-set_busy (some a ∷ rs) (suc k) i j e = omega (arith, busy-set_busy rs k i j e)

pub busy-set_ended :
    (rs : List Runner) (k j : ℕ)
    → runner_at rs k ≡ some j
    → suc (busy (set_runner rs k none)) ≡ busy rs
unfolding runner_at set_runner
busy-set_ended [] k j e = cc
busy-set_ended (none ∷ rs) zero j e = cc
busy-set_ended (some a ∷ rs) zero j e = refl
busy-set_ended (none ∷ rs) (suc k) j e = busy-set_ended rs k j e
busy-set_ended (some a ∷ rs) (suc k) j e = omega (arith, busy-set_ended rs k j e)

pub busy-le-length : (rs : List Runner) → busy rs ≤ length rs
busy-le-length [] = omega arith
busy-le-length (none ∷ rs) = omega (arith, busy-le-length rs)
busy-le-length (some i ∷ rs) = omega (arith, busy-le-length rs)

pub none_busy : (rs : List Runner) (j : ℕ) → busy rs ≡ 0 → IsBusy j rs → ⊥
none_busy [] j e h = h
none_busy (none ∷ rs) j e h = none_busy rs j e h
none_busy (some i ∷ rs) j e h = omega (arith, e)

-- What the start of the runners establishes, from any index on.
pub record Started (count k next : ℕ) (rs : List Runner) (last : ℕ) : Type 0 where
  pub grown : next ≤ last
  pub in_range : last ≤ count
  pub awaited : (j : ℕ) → next ≤ j → j < last → IsBusy j rs
  pub late : EndsLate count last rs
  pub size : length rs ≡ k
  pub counted : busy rs + next ≡ last

pub start_runners-Started :
    (count k next : ℕ)
    → next ≤ count
    → Started count k next (start_runners count k next).0 (start_runners count k next).1
unfolding start_runners take_item
start_runners-Started count zero next h = record {
  grown = omega arith;
  in_range = h;
  awaited = λ j a b. absurd (omega (arith, a, b));
  late = tt;
  size = refl;
  counted = omega arith;
}
start_runners-Started count (suc k) next h = elim (Bool-cases (ltb next count)) [
  | inl left_over ↦
      let rest = start_runners-Started count k (suc next) (ground arith) in
      rw left_over (record {
        grown = omega (arith, rest.grown);
        in_range = rest.in_range;
        awaited = λ j a b.
            await_lem (start_runners count k (suc next)).0 next j (λ c. rest.awaited j c b) a;
        late = rest.late;
        size = omega (arith, rest.size);
        counted = omega (arith, rest.counted);
      })
  | inr none_left ↦
      let rest = start_runners-Started count k next h in
      rw none_left (record {
        grown = rest.grown;
        in_range = rest.in_range;
        awaited = rest.awaited;
        late = (ground (arith, rest.grown, rest.in_range), rest.late);
        size = omega (arith, rest.size);
        counted = omega (arith, rest.counted);
      })
]
  where
    await_lem :
        (rs : List Runner) (next j : ℕ)
        → (suc next ≤ j → IsBusy j rs)
        → next ≤ j
        → (next ≡ j) ⊎ IsBusy j rs
    await_lem rs next j later a = elim (Bool-cases (next == j)) [
      | inl same ↦ inl (ground arith)
      | inr other ↦ inr (later (ground arith))
    ]
