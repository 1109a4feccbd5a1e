-- ===== src/ChatOutbox/Flush/Tests.antt =====
-- An example of a flush: a purge of everything comes while the first message is sent.
use etkin_link.Base.{Bool, true, [], ◌∷◌, none, some}
use etkin_link.Int.{pos}
use etkin_link.Effect.Protocol.{Follows}
use etkin_link.ChatOutbox.Message.{OutboxMessage, serialize}
use etkin_link.ChatOutbox.Message.Examples.{phone, greeting, answer}
use etkin_link.ChatOutbox.Storage.{Storage, Slots, slot, put}
use etkin_link.ChatOutbox.Flush.{
  App, same_generations, generation_of, count_purge, count_purge_of_all, flush_all_outbox,
}
use etkin_link.ChatOutbox.Flush.Purges.{seen_by, purges-seen}
use etkin_link.Text.{str_eq}
use etkin_link.Base.{◌≡◌, ◌+◌, false, if◌then◌else◌}
use etkin_link.ChatOutbox.Flush.Protocol.{beginning, observe, Allowed, flush_all_outbox-Follows}

abbrev drawer : Storage Slots
drawer = record {
  get = λ k s. (some (slot k s), s);
  set = λ k text s. (true, put k (some text) s);
  remove = λ k s. (true, put k none s);
  now = λ s. (pos 1000, s);
}

-- Sending works, and a purge is counted meanwhile.
abbrev once : OutboxMessage → App Slots → Bool × App Slots
once m v = (true, record v { memory = record v.memory { all_purge_generation = 1 } })

abbrev full : App Slots
full = record {
  world = record {
    main_text = some (serialize phone (greeting ∷ answer ∷ []));
    backup_text = none;
  };
  memory = record { owner_purge_generations = []; all_purge_generation = 0; active_flushes = [] };
}

flush_all_outbox-Follows_example :
    Follows
      (Allowed greeting.owner_id)
      (observe phone)
      (beginning none none)
      (flush_all_outbox drawer phone once greeting.owner_id full).1
flush_all_outbox-Follows_example = flush_all_outbox-Follows drawer phone once greeting.owner_id full

purges-seen_example :
    (same_generations
        (seen_by greeting.owner_id full.memory)
        (seen_by greeting.owner_id (count_purge drawer phone once greeting.owner_id full.memory))
      ≡ false)
    × (same_generations (seen_by greeting.context_id full.memory) (
          seen_by greeting.context_id
            (count_purge_of_all drawer phone once greeting.owner_id full.memory))
        ≡ false)
    × (seen_by greeting.context_id (count_purge drawer phone once greeting.owner_id full.memory) ≡ (
      (if str_eq greeting.owner_id greeting.context_id
          then generation_of greeting.owner_id [] + 1
          else generation_of greeting.context_id []),
      0,
    ))
purges-seen_example =
    purges-seen drawer phone once greeting.owner_id greeting.context_id full.memory
