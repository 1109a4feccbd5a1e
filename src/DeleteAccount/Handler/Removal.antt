-- ===== src/DeleteAccount/Handler/Removal.antt =====
-- The storage loop and the end of the deletion handler, against the safety protocol.
use etkin_link.Base.{
  ℕ, zero, suc, ◌+◌, ◌≡◌, refl, ◌∙◌, ap, ◌≤◌, Bool, true, false, ◌||◌, Option, none, some, arith,
  List, [], ◌∷◌, length, last_or, All, inl, inr, Bool-cases, ltb, ltb→lt,
}
use etkin_link.Text.{Str, to_lower_case}
use etkin_link.Http.{Platform}
use etkin_link.Effect.Protocol.{
  Triple-pure, Triple-throw_none, Triple-call, Triple-if, Triple-weaken, Triple-bind,
  Triple-throw_if,
}
use etkin_link.DeleteAccount.State.{
  Phase, requested, auth_deleted, storage_deleting, completed, phase_rank, DeletionState, Claims,
  Dependencies,
}
use etkin_link.DeleteAccount.Handler.{
  text_or_empty, slices, removed_or_failed, remove_chunks, listed_or_failed, check_page, list_page,
  remove_loop, finish_deletion, storage_list_page_size, max_storage_objects_per_invocation,
}
use etkin_link.DeleteAccount.Handler.Safety.{
  Knowledge, Stopped, Justified, MayAdvance, IsOwned, Ascends,
}
use etkin_link.DeleteAccount.Handler.Stages.{MovesRow, Holds, Tri, fail-Triple, advance-Triple}
use etkin_link.DeleteAccount.Handler.Pages.{invalid_paths_sound, slices_of_fit}

abbrev pub Anywhere : Str → Type 0
Anywhere _ = Unit

-- A page that may be removed next.
abbrev IsRemovable : Claims → Option Str → List Str → Knowledge → Type 0
IsRemovable c after paths g =
    (g.cursor ≡ text_or_empty after)
    × (g.page ≡ some paths)
    × (length paths ≤ 100)
    × Ascends (text_or_empty after) paths
    × All (IsOwned (to_lower_case c.sub)) paths

page_test :
    (n : ℕ) (b : Bool) → (ltb storage_list_page_size n || b) ≡ false → (n ≤ 100) × (b ≡ false)
page_test n b h = ground arith

completed_of_rank : (p : Phase) → phase_rank completed ≤ phase_rank p → p ≡ completed
unfolding phase_rank
completed_of_rank requested h = absurd (omega arith)
completed_of_rank auth_deleted h = absurd (omega arith)
completed_of_rank storage_deleting h = absurd (omega arith)
completed_of_rank completed h = refl

module _ {W : Type 0} (platform : Platform) (deps : Dependencies W) (c : Claims)
    (state : DeletionState) (e : state.phase ≡ storage_deleting) where
  may_record :
      (g : Knowledge)
      → Holds c Anywhere state g
      → Holds c Anywhere state g × MayAdvance g state.phase state.phase
  may_record g h = (h, rw e tt)

  listed_or_failed-Triple :
      (after : Option Str) (reply : Option (List Str))
      → Tri platform
          (λ g. Holds c Anywhere state g × (g.cursor ≡ text_or_empty after) × (g.page ≡ reply))
          (λ paths g.
            Holds c Anywhere state g × (g.cursor ≡ text_or_empty after) × (g.page ≡ some paths))
          (listed_or_failed platform deps state reply)
  unfolding listed_or_failed
  listed_or_failed-Triple after (some paths) = Triple-pure paths (λ g p. p)
  listed_or_failed-Triple after none =
      Triple-weaken _ _ Stopped _ (fail-Triple platform deps c Anywhere state _ _)
        (λ g p. may_record g p.0) (λ a g p. p) (λ x g p. p)

  check_page-Triple :
      (after : Option Str) (paths : List Str)
      → Tri platform
          (λ g. Holds c Anywhere state g × (g.cursor ≡ text_or_empty after) × (g.page ≡ some paths))
          (λ _ g. Holds c Anywhere state g × IsRemovable c after paths g)
          (check_page platform deps (to_lower_case c.sub) state after paths)
  unfolding check_page
  check_page-Triple after paths =
      Triple-if _ _ _
        (λ bad.
          Triple-weaken _ _ Stopped _ (fail-Triple platform deps c Anywhere state _ _)
            (λ g p. may_record g p.0) (λ a g p. p) (λ x g p. p))
        (λ good.
          let (short, valid) = page_test (length paths) _ good in
          let (up, own) = invalid_paths_sound _ _ none paths valid in
          Triple-pure _ (λ g p. (p.0, (p.1, p.2, short, up, own))))

  list_page-Triple :
      (r : Str) (after : Option Str)
      → Tri platform
          (λ g. Holds c Anywhere state g × (g.cursor ≡ text_or_empty after))
          (λ paths g. Holds c Anywhere state g × IsRemovable c after paths g)
          (list_page platform deps (to_lower_case c.sub) r state after)
  unfolding list_page
  list_page-Triple r after =
      Triple-bind
        (λ reply g. Holds c Anywhere state g × (g.cursor ≡ text_or_empty after) × (g.page ≡ reply))
        _ _
        (Triple-call (λ _. Unit) _ _ (λ w. tt)
          (λ reply g _ p. (((c, p.0.0, refl), p.0.2 ∙ ap some e, refl), (p.0, p.1, refl))))
        λ reply. Triple-bind _ _ _ (listed_or_failed-Triple after reply) λ paths.
          Triple-bind _ _ _ (check_page-Triple after paths) λ _. Triple-pure paths (λ g p. p)

  removed_or_failed-Triple :
      (P : Knowledge → Type 0) (removed : Bool)
      → ((g : Knowledge) → P g → Holds c Anywhere state g)
      → Tri platform P (λ _ g. P g) (removed_or_failed platform deps state removed)
  unfolding removed_or_failed
  removed_or_failed-Triple P true held = Triple-pure _ (λ g p. p)
  removed_or_failed-Triple P false held =
      Triple-weaken _ _ Stopped _ (fail-Triple platform deps c Anywhere state _ _)
        (λ g p. may_record g (held g p)) (λ a g p. p) (λ x g p. p)

  remove_page-Triple :
      (after : Option Str) (path : Str) (more : List Str)
      → Tri platform
          (λ g. Holds c Anywhere state g × IsRemovable c after (path ∷ more) g)
          (λ _ g. Holds c Anywhere state g × (g.cursor ≡ last_or more path))
          (remove_chunks platform deps state ((path ∷ more) ∷ []))
  unfolding remove_chunks
  remove_page-Triple after path more =
      Triple-bind (λ _ g. Holds c Anywhere state g × (g.cursor ≡ last_or more path)) _ _
        (Triple-call (λ _. Unit) _ _ (λ w. tt)
          (λ done g _ (h, (cur, page, short, up, own)). (
            (h.2 ∙ ap some e, page, short, rw cur up, (to_lower_case c.sub, (c, h.0, refl), own)),
            (h, refl),
          )))
        λ done.
          Triple-bind _ _ _ (removed_or_failed-Triple _ done (λ g p. p.0))
            λ _. Triple-pure _ (λ g p. p)

  chunks-Triple :
      (after : Option Str) (path : Str) (more : List Str)
      → Tri platform
          (λ g. Holds c Anywhere state g × IsRemovable c after (path ∷ more) g)
          (λ _ g. Holds c Anywhere state g × (g.cursor ≡ last_or more path))
          (remove_chunks platform deps state (slices 100 (path ∷ more)))
  chunks-Triple after path more = elim (Bool-cases (ltb 100 (length (path ∷ more)))) [
    | inl long ↦ record { at = λ w g p. absurd (omega (arith, ltb→lt, p.1.2)) }
    | inr short ↦
        rw (slices_of_fit 100 path more (ground arith)) (remove_page-Triple after path more)
  ]

  -- The loop ends within the fuel, and below the limit it ends at an empty page.
  pub remove_loop-Triple :
      (fuel : ℕ) (r : Str) (after : Option Str) (n : ℕ)
      → max_storage_objects_per_invocation ≤ n + fuel
      → Tri platform
          (λ g. Holds c Anywhere state g × (g.cursor ≡ text_or_empty after))
          (λ m g.
            Holds c Anywhere state g
            × (ltb m max_storage_objects_per_invocation ≡ true → g.page ≡ some []))
          (remove_loop platform deps fuel (to_lower_case c.sub) r state after n)
  unfolding remove_loop
  remove_loop-Triple zero r after n enough =
      Triple-if (ltb n max_storage_objects_per_invocation) _ _
        (λ below. absurd (omega (arith, ltb→lt n max_storage_objects_per_invocation below)))
        (λ ended. Triple-pure n (λ g p. (p.0, λ below. cc)))
  remove_loop-Triple (suc fuel) r after n enough =
      Triple-if (ltb n max_storage_objects_per_invocation) _ _
        (λ below. Triple-bind _ _ _ (list_page-Triple r after) (elim [
          | [] ↦ Triple-pure n (λ g p. (p.0, λ _. p.1.1))
          | path ∷ more ↦ Triple-bind _ _ _ (chunks-Triple after path more) λ _.
              remove_loop-Triple fuel r (some (last_or more path)) (n + length (path ∷ more))
                (omega arith)
        ]))
        (λ ended. Triple-pure n (λ g p. (p.0, λ below. cc)))

module _ {W : Type 0} (platform : Platform) (deps : Dependencies W) (c : Claims)
    (state : DeletionState) (e : state.phase ≡ storage_deleting) where
  -- The last phase is entered after an empty page, and the answer tells what the store said.
  pub finish_deletion-Triple :
      MovesRow deps
      → (r : Str) (n : ℕ)
      → Tri platform
          (λ g.
            Holds c Anywhere state g
            × (ltb n max_storage_objects_per_invocation ≡ true → g.page ≡ some []))
          Justified
          (finish_deletion platform deps r state n)
  unfolding finish_deletion
  finish_deletion-Triple moves r n =
      Triple-bind _ _ _ (Triple-throw_if _ _ (λ g p full. (p.0.2 ∙ ap some e, refl))) λ _.
        Triple-bind _ _ _
          (Triple-weaken _ _ Stopped _
            (advance-Triple platform deps c Anywhere moves state completed)
            (λ g p. (p.0.0, rw e (p.0.1 (ground arith)))) (λ m g p. p) (λ x g p. p))
          λ moved.
            Triple-bind (λ s g. g.stored ≡ some completed) _ _
              (Triple-throw_none _ moved (λ g p x. tt)
                (λ s g p x. let (h, far) = p s x in h.2 ∙ ap some (completed_of_rank s.phase far)))
              λ s. Triple-pure _ (λ g p. (p, refl))
