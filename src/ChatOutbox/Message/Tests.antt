-- ===== src/ChatOutbox/Message/Tests.antt =====
-- Examples of the messages of the outbox.
use etkin_link.Base.{◌≡◌, [], ◌∷◌, some}
use etkin_link.Int.{pos}
use etkin_link.ChatOutbox.Message.{parse_messages, serialize, fit_storage_limit}
use etkin_link.ChatOutbox.Message.Laws.{
  IsStorable, Fits, parse_messages-IsStorable, parse_messages-serialize, fit_storage_limit-Fits,
}
use etkin_link.ChatOutbox.Message.Examples.{phone, phone-IsJson, greeting, answer, both-IsStorable}

parse_messages-serialize_example :
    parse_messages phone (pos 1000) (some (serialize phone (greeting ∷ answer ∷ [])))
    ≡ some (greeting ∷ answer ∷ [])
parse_messages-serialize_example =
    parse_messages-serialize phone phone-IsJson (pos 1000) (greeting ∷ answer ∷ []) both-IsStorable

parse_messages-IsStorable_example : IsStorable phone (pos 1000) (greeting ∷ answer ∷ [])
parse_messages-IsStorable_example =
    parse_messages-IsStorable phone (pos 1000) (some (serialize phone (greeting ∷ answer ∷ [])))
      (greeting ∷ answer ∷ [])
      (parse_messages-serialize phone phone-IsJson (pos 1000) (greeting ∷ answer ∷ [])
        both-IsStorable)

fit_storage_limit-Fits_example :
    Fits phone (greeting ∷ answer ∷ []) (fit_storage_limit phone (greeting ∷ answer ∷ []))
fit_storage_limit-Fits_example = fit_storage_limit-Fits phone (greeting ∷ answer ∷ [])
