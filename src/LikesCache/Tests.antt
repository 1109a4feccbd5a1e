-- ===== src/LikesCache/Tests.antt =====
-- A cache that is a pair of lists, and a candidate in one of them.
use etkin_link.Base.{◌≡◌, refl, false, [], ◌∷◌, Option, none, some}
use etkin_link.Text.{codes}
use etkin_link.Json.{null}
use etkin_link.LikesCache.Suppression.{Suppressed, suppress_candidate-Suppressed}
use etkin_link.LikesCache.{
  LikePages, Key, incoming_key, outgoing_key, QueryClient, IsStore, suppress_candidate,
  restore_pending_likes, restore_pending_likes-suppress_candidate,
}

abbrev Cache : Type 0
Cache = Option LikePages × Option LikePages

abbrev get : Key → Cache → Option LikePages
get incoming_key c = c.0
get outgoing_key c = c.1

abbrev set : Key → LikePages → Cache → Cache
set incoming_key likes c = (some likes, c.1)
set outgoing_key likes c = (c.0, some likes)

abbrev client : QueryClient Cache
client = record { get = get; set = set }

get_set : (k : Key) (d : LikePages) (w : Cache) → get k (set k d w) ≡ some d
get_set incoming_key d w = refl
get_set outgoing_key d w = refl

store : IsStore client
store = record { get_set = get_set; get_other_in = λ d w. refl; get_other_out = λ d w. refl }

abbrev cache : Cache
cache = (
  some (record {
    pages =
        record {
          items =
              record {
                candidate_id = codes "a";
                profile = null;
                event_id = [];
                event_title = [];
                liked_at = [];
                matched = false;
              }
              ∷ [];
          next_cursor = none;
        }
        ∷ [];
    page_params = none ∷ [];
  }),
  none,
)

suppress_candidate-Suppressed_example :
    Suppressed
      (codes "a")
      (client.get incoming_key cache)
      (client.get incoming_key (suppress_candidate client (codes "a") cache).1)
    × Suppressed
        (codes "a")
        (client.get outgoing_key cache)
        (client.get outgoing_key (suppress_candidate client (codes "a") cache).1)
suppress_candidate-Suppressed_example = suppress_candidate-Suppressed client store (codes "a") cache

restore_pending_likes-suppress_candidate_example :
    (client.get incoming_key (
        restore_pending_likes client
          (suppress_candidate client (codes "a") cache).0
          (suppress_candidate client (codes "a") cache).1)
      ≡ client.get incoming_key cache)
    × (client.get outgoing_key (
          restore_pending_likes client
            (suppress_candidate client (codes "a") cache).0
            (suppress_candidate client (codes "a") cache).1)
        ≡ client.get outgoing_key cache)
restore_pending_likes-suppress_candidate_example =
    restore_pending_likes-suppress_candidate client store (codes "a") cache
