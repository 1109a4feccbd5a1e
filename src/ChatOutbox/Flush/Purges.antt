-- ===== src/ChatOutbox/Flush/Purges.antt =====
-- The purge generations of mobile/src/shared/lib/chatOutbox.ts: what a flush under way sees of a purge.
use etkin_link.Base.{ℕ, ◌+◌, ◌≡◌, refl, Bool, false, List, [], ◌∷◌, if◌then◌else◌, arith}
use etkin_link.Text.{Str, str_eq}
use etkin_link.Text.Laws.{str_eq_iff, str_eq_refl}
use etkin_link.ChatOutbox.Message.{OutboxMessage, Device}
use etkin_link.ChatOutbox.Storage.{Storage}
use etkin_link.ChatOutbox.Flush.{
  App, Memory, generation_of, set_generation, same_generations, count_purge, count_purge_of_all,
}

generation_of-set_generation :
    (owner other : Str) (n : ℕ) (m : List (Str × ℕ))
    → generation_of other (set_generation owner n m)
      ≡ (if str_eq owner other then n else generation_of other m)
unfolding generation_of set_generation
generation_of-set_generation owner other n [] = refl
generation_of-set_generation owner other n ((o, k) ∷ m) = ground (
  arith,
  str_eq_iff o owner,
  str_eq_iff o other,
  str_eq_iff owner other,
  generation_of-set_generation owner other n m,
)

-- The two generations that a flush of the owner compares.
abbrev pub seen_by : Str → Memory → ℕ × ℕ
seen_by owner memory =
    (generation_of owner memory.owner_purge_generations, memory.all_purge_generation)

module _ {W : Type 0} (storage : Storage W) (device : Device)
    (sender : OutboxMessage → App W → Bool × App W) (owner other : Str) (memory : Memory) where
  -- A flush that began before a purge of its owner's messages, or of all messages, finds other
  -- generations after it. A purge of an owner's messages adds one to the generation of this owner, and
  -- leaves those of other owners and that of all messages as they are.
  pub purges-seen :
      (same_generations
          (seen_by owner memory)
          (seen_by owner (count_purge storage device sender owner memory))
        ≡ false)
      × (same_generations
            (seen_by other memory)
            (seen_by other (count_purge_of_all storage device sender owner memory))
          ≡ false)
      × (seen_by other (count_purge storage device sender owner memory) ≡ (
        (if str_eq owner other
            then generation_of owner memory.owner_purge_generations + 1
            else generation_of other memory.owner_purge_generations),
        memory.all_purge_generation,
      ))
  unfolding count_purge count_purge_of_all
  purges-seen = (
    rw
        (
          generation_of-set_generation owner owner
              (generation_of owner memory.owner_purge_generations + 1)
              memory.owner_purge_generations,
          str_eq_refl owner,
        )
        (ground arith),
    ground arith,
    rw
        (generation_of-set_generation owner other
          (generation_of owner memory.owner_purge_generations + 1) memory.owner_purge_generations)
        refl,
  )
