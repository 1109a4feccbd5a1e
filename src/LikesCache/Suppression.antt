-- ===== src/LikesCache/Suppression.antt =====
-- What a suppression leaves of a list of likes, by a description of its own: `suppressCandidate` of
-- mobile/src/features/matching/matchingQueryCache.ts.
use etkin_link.Base.{
  ◌≡◌, refl, not, List, [], ◌∷◌, Option, none, some, keep, map, Bool-cases, inl, inr, arith,
}
use etkin_link.Text.{Str, str_eq}
use etkin_link.Text.Laws.{str_eq→eq, str_eq_refl}
use etkin_link.LikesCache.{
  LikedCandidate, LikePage, LikePages, incoming_key, outgoing_key, QueryClient, IsStore,
  without_in_page, without_candidate, suppress_candidate, suppress_candidate_lem,
}

-- The items of the candidate go, and every other item stays, in its place.
pub data Thinned (id : Str) : List LikedCandidate → List LikedCandidate → Type 0 where
  finished : Thinned id [] []
  gone :
      (item : LikedCandidate) (old new : List LikedCandidate)
      → item.candidate_id ≡ id
      → Thinned id old new
      → Thinned id (item ∷ old) new
  stays :
      (item : LikedCandidate) (old new : List LikedCandidate)
      → ¬ (item.candidate_id ≡ id)
      → Thinned id old new
      → Thinned id (item ∷ old) (item ∷ new)

abbrev pub ThinnedPages : Str → List LikePage → List LikePage → Type 0
ThinnedPages id [] [] = Unit
ThinnedPages id [] (new ∷ more) = ⊥
ThinnedPages id (old ∷ rest) [] = ⊥
ThinnedPages id (old ∷ rest) (new ∷ more) =
    Thinned id old.items new.items × (new.next_cursor ≡ old.next_cursor) × ThinnedPages id rest more

-- Every page stays, with its cursor; a list that is not in the cache stays out of it.
abbrev pub Suppressed : Str → Option LikePages → Option LikePages → Type 0
Suppressed id none none = Unit
Suppressed id none (some new) = ⊥
Suppressed id (some old) none = ⊥
Suppressed id (some old) (some new) =
    ThinnedPages id old.pages new.pages × (new.page_params ≡ old.page_params)

keep-Thinned :
    (id : Str) (items : List LikedCandidate)
    → Thinned id items (keep (λ item. not (str_eq item.candidate_id id)) items)
keep-Thinned id [] = finished
keep-Thinned id (item ∷ items) = elim (Bool-cases (str_eq item.candidate_id id)) [
  | inl same ↦ rw same (gone item items _ (str_eq→eq _ _ same) (keep-Thinned id items))
  | inr other ↦
      rw other (stays item items _ (λ e. grind (arith, str_eq_refl id)) (keep-Thinned id items))
]

pages-Thinned :
    (id : Str) (pages : List LikePage) → ThinnedPages id pages (map (without_in_page id) pages)
unfolding without_in_page
pages-Thinned id [] = tt
pages-Thinned id (page ∷ pages) = (keep-Thinned id page.items, refl, pages-Thinned id pages)

without_candidate-Suppressed :
    (id : Str) (likes : Option LikePages) → Suppressed id likes (without_candidate id likes)
unfolding without_candidate
without_candidate-Suppressed id none = tt
without_candidate-Suppressed id (some likes) = (pages-Thinned id likes.pages, refl)

-- After a suppression neither list of the cache has an item of the candidate, every other item stays, in
-- its order and on its page, and cursors and page parameters are as before, whatever the lists hold; if
-- the cache is a store.
pub suppress_candidate-Suppressed :
    {W : Type 0} (client : QueryClient W)
    → IsStore client
    → (id : Str) (w : W)
    → Suppressed id
        (client.get incoming_key w)
        (client.get incoming_key (suppress_candidate client id w).1)
      × Suppressed id
          (client.get outgoing_key w)
          (client.get outgoing_key (suppress_candidate client id w).1)
suppress_candidate-Suppressed client store id w =
    let (cut_in, cut_out) = suppress_candidate_lem client store id w in
    (
      rw cut_in (without_candidate-Suppressed id (client.get incoming_key w)),
      rw cut_out (without_candidate-Suppressed id (client.get outgoing_key w)),
    )
