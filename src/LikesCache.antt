-- ===== src/LikesCache.antt =====
-- Lists of likes in the query cache: mobile/src/features/matching/matchingQueryCache.ts. The cache is
-- that of a library, an argument of the model.
pub mod Suppression
mod Tests
use etkin_link.Base.{
  ℕ, ◌≡◌, refl, ◌∙◌, ap, sym, Bool, true, false, not, List, [], ◌∷◌, Option, none, some, keep, map,
  All, Bool-cases, inl, inr, if◌then◌else◌,
}
use etkin_link.Text.{Str, str_eq}
use etkin_link.Json.{Json}

-- The candidate by its identifier; the other fields of `candidate` are `profile`.
pub record LikedCandidate : Type 0 where
  pub candidate_id : Str
  pub profile : Json
  pub event_id : Str
  pub event_title : Str
  pub liked_at : Str
  pub matched : Bool

pub record LikePage : Type 0 where
  pub items : List LikedCandidate
  pub next_cursor : Option (Str × Str)

pub record LikePages : Type 0 where
  pub pages : List LikePage
  pub page_params : List (Option (Str × Str))

pub record PendingLikesSnapshot : Type 0 where
  pub incoming : Option LikePages
  pub outgoing : Option LikePages

pub data Key : Type 0 where
  incoming_key outgoing_key : Key

pub record QueryClient (W : Type 0) : Type 0 where
  pub get : Key → W → Option LikePages
  pub set : Key → LikePages → W → W

-- What is set is what is read; another key is not touched.
pub record IsStore {W : Type 0} (client : QueryClient W) : Type 0 where
  pub get_set : (k : Key) (d : LikePages) (w : W) → client.get k (client.set k d w) ≡ some d
  pub get_other_in :
      (d : LikePages) (w : W)
      → client.get incoming_key (client.set outgoing_key d w) ≡ client.get incoming_key w
  pub get_other_out :
      (d : LikePages) (w : W)
      → client.get outgoing_key (client.set incoming_key d w) ≡ client.get outgoing_key w

pub without_in_page : Str → LikePage → LikePage
unfolding str_eq
without_in_page id page = record page {
  items = keep (λ item. not (str_eq item.candidate_id id)) page.items;
}

pub without_candidate : Str → Option LikePages → Option LikePages
unfolding without_in_page
without_candidate id none = none
without_candidate id (some likes) =
    some (record likes { pages = map (without_in_page id) likes.pages })

module _ {W : Type 0} (client : QueryClient W) where
  -- `setQueryData`, where `undefined` changes nothing
  set_query_data : Key → Option LikePages → W → W
  set_query_data k none w = w
  set_query_data k (some likes) w = client.set k likes w

  pub suppress_candidate : Str → W → PendingLikesSnapshot × W
  unfolding set_query_data
  suppress_candidate id w =
      let w1 = set_query_data incoming_key (without_candidate id (client.get incoming_key w)) w in
      (
        record { incoming = client.get incoming_key w; outgoing = client.get outgoing_key w },
        set_query_data outgoing_key (without_candidate id (client.get outgoing_key w1)) w1,
      )

  pub restore_pending_likes : PendingLikesSnapshot → W → W
  unfolding set_query_data
  restore_pending_likes snapshot w =
      set_query_data outgoing_key snapshot.outgoing
        (set_query_data incoming_key snapshot.incoming w)

  abbrev or_else : Option LikePages → Option LikePages → Option LikePages
  or_else none old = old
  or_else (some new) old = some new

  module _ (store : IsStore client) where
    get_same :
        (k : Key) (o : Option LikePages) (w : W)
        → client.get k (set_query_data k o w) ≡ or_else o (client.get k w)
    unfolding set_query_data
    get_same k none w = refl
    get_same k (some likes) w = store.get_set k likes w

    in_kept :
        (o : Option LikePages) (w : W)
        → client.get incoming_key (set_query_data outgoing_key o w) ≡ client.get incoming_key w
    unfolding set_query_data
    in_kept none w = refl
    in_kept (some likes) w = store.get_other_in likes w

    out_kept :
        (o : Option LikePages) (w : W)
        → client.get outgoing_key (set_query_data incoming_key o w) ≡ client.get outgoing_key w
    unfolding set_query_data
    out_kept none w = refl
    out_kept (some likes) w = store.get_other_out likes w

    or_else_without :
        (id : Str) (o : Option LikePages)
        → or_else (without_candidate id o) o ≡ without_candidate id o
    unfolding without_candidate
    or_else_without id none = refl
    or_else_without id (some likes) = refl

    or_else_restored : (id : Str) (o : Option LikePages) → or_else o (without_candidate id o) ≡ o
    unfolding without_candidate
    or_else_restored id none = refl
    or_else_restored id (some likes) = refl

    -- Both lists of the cache are those of `without_candidate`.
    pub suppress_candidate_lem :
        (id : Str) (w : W)
        → (client.get incoming_key (suppress_candidate id w).1
            ≡ without_candidate id (client.get incoming_key w))
          × (client.get outgoing_key (suppress_candidate id w).1
              ≡ without_candidate id (client.get outgoing_key w))
    unfolding suppress_candidate
    suppress_candidate_lem id w =
        let cut = without_candidate id (client.get incoming_key w) in
        let w1 = set_query_data incoming_key cut w in
        let out : client.get outgoing_key w1 ≡ client.get outgoing_key w = out_kept cut w in
        (
          in_kept _ w1 ∙ get_same incoming_key cut w ∙ or_else_without id _,
          get_same outgoing_key _ w1 ∙ or_else_without id _ ∙ ap (without_candidate id) out,
        )

    -- Restoring the snapshot of a suppression gives back both lists, if the cache is a store.
    pub restore_pending_likes-suppress_candidate :
        (id : Str) (w : W)
        → (client.get incoming_key
              (restore_pending_likes (suppress_candidate id w).0 (suppress_candidate id w).1)
            ≡ client.get incoming_key w)
          × (client.get outgoing_key
                (restore_pending_likes (suppress_candidate id w).0 (suppress_candidate id w).1)
              ≡ client.get outgoing_key w)
    unfolding restore_pending_likes suppress_candidate
    restore_pending_likes-suppress_candidate id w =
        let (cut_in, cut_out) = suppress_candidate_lem id w in
        let w2 = (suppress_candidate id w).1 in
        let w3 = set_query_data incoming_key (client.get incoming_key w) w2 in
        (
          in_kept (client.get outgoing_key w) w3
              ∙ get_same incoming_key (client.get incoming_key w) w2
              ∙ ap (or_else (client.get incoming_key w)) cut_in
              ∙ or_else_restored id (client.get incoming_key w),
          get_same outgoing_key (client.get outgoing_key w) w3
              ∙ ap (or_else (client.get outgoing_key w))
                  (out_kept (client.get incoming_key w) w2 ∙ cut_out)
              ∙ or_else_restored id (client.get outgoing_key w),
        )
