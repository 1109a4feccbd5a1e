-- ===== src/PushDispatch/Command/Tests.antt =====
-- A drain command, and three items in chunks of two.
use etkin_link.Base.{ℕ, ◌≤◌, ◌≡◌, refl, true, List, [], ◌∷◌, some, length, All, arith}
use etkin_link.Int.{pos}
use etkin_link.Text.{codes, str_eq}
use etkin_link.Json.{Json, bool, int, obj, field, end, member}
use etkin_link.PushDispatch.Command.{
  drain_command, is_event_key, event_id, is_literal_true, batch_size, drain_names, drain_of,
  command_of, parse_dispatch_command, chunks, chunks_fuel, IsCommand,
  parse_dispatch_command-IsCommand, joined, joined-chunks,
}

abbrev command : Json
command = obj (field (codes "drain") (bool true) (field (codes "batchSize") (int (pos 7)) end))

parsed : parse_dispatch_command command ≡ some (drain_command 7)
unfolding parse_dispatch_command command_of drain_of drain_names batch_size is_literal_true event_id
    is_event_key member str_eq
parsed = refl

parse_dispatch_command-IsCommand_example : IsCommand (drain_command 7)
parse_dispatch_command-IsCommand_example =
    parse_dispatch_command-IsCommand command (drain_command 7) parsed

abbrev items : List ℕ
items = 1 ∷ 2 ∷ 3 ∷ []

cut : chunks items 2 ≡ (1 ∷ 2 ∷ []) ∷ (3 ∷ []) ∷ []
unfolding chunks chunks_fuel
cut = refl

joined-chunks_example :
    (joined (chunks items 2) ≡ items) × All (λ chunk. length chunk ≤ 2) (chunks items 2)
joined-chunks_example = joined-chunks items 2 (omega arith)
