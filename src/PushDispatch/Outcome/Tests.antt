-- ===== src/PushDispatch/Outcome/Tests.antt =====
-- One success, and one message that the service refuses for a while.
use etkin_link.Base.{◌+◌, ◌≤◌, ◌≡◌, ◌↔◌, refl, List, [], ◌∷◌, none, some, length, arith}
use etkin_link.Text.{codes, str_eq}
use etkin_link.PushReceipts.Receipt.{says_ok, says_error}
use etkin_link.PushDispatch.Tickets.{ExpoTicket}
use etkin_link.PushDispatch.Outcome.{
  PushToken, ios, Counts, no_counts, count_class, count_failure, count_ticket, count_batch,
  event_sent, event_failed, event_cancelled, next_status, total, total-count_batch, next_status_iff,
}

abbrev phone : PushToken
phone = record { id = codes "a"; token = codes "A"; platform = ios }

abbrev tickets : List ExpoTicket
tickets =
    record { status = says_ok; id = some (codes "t"); message = none; error = none }
    ∷ record {
      status = says_error;
      id = none;
      message = none;
      error = some (codes "MessageRateExceeded");
    }
    ∷ []

abbrev counted : Counts
counted = record {
  success_count = 1;
  invalid_token_ids = [];
  retryable_failures = 1;
  permanent_failures = 0;
}

run : count_batch (phone ∷ phone ∷ []) tickets no_counts ≡ counted
unfolding count_batch count_ticket count_failure count_class str_eq
run = refl

total-count_batch_example :
    total (count_batch (phone ∷ phone ∷ []) tickets no_counts) ≡ total no_counts + 2
total-count_batch_example = total-count_batch (phone ∷ phone ∷ []) tickets no_counts

next_status_iff_example :
    ((next_status counted 2 ≡ event_failed) ↔ (1 ≤ counted.retryable_failures))
    × ((next_status counted 2 ≡ event_sent)
        ↔ ((counted.retryable_failures ≡ 0) × (1 ≤ counted.success_count)))
    × ((next_status counted 2 ≡ event_cancelled)
        ↔ (length counted.invalid_token_ids + counted.permanent_failures ≡ 2))
next_status_iff_example = next_status_iff counted 2 refl (omega arith)
