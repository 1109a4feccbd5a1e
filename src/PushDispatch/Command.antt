-- ===== src/PushDispatch/Command.antt =====
-- The command of the dispatch worker, and the cutting of its messages into requests:
-- supabase/functions/push-dispatch/index.ts.
mod Tests
use etkin_link.Base.{
  ℕ, zero, suc, ◌+◌, ◌≤◌, ◌≡◌, refl, Bool, true, false, not, ◌&&◌, ◌||◌, List, [], ◌∷◌, ◌++◌,
  Option, none, some, ltb, leb, if◌then◌else◌, length, take, drop, any, all, All, arith,
  length-drop, take-append-drop, Bool-cases, inl, inr, ap,
}
use etkin_link.Int.{pos, negsuc}
use etkin_link.Text.{Str, codes, str_eq, to_lower_case}
use etkin_link.Text.Pattern.{matches, uuid}
use etkin_link.Json.{Json, null, bool, int, fraction, str, arr, obj, Fields, keys, member}

abbrev pub default_batch_size : ℕ
default_batch_size = 20

abbrev pub max_batch_size : ℕ
max_batch_size = 25

pub data DispatchCommand : Type 0 where
  event_command : (event_id : Str) → DispatchCommand
  drain_command : (batch_size : ℕ) → DispatchCommand

-- `keys.length === 1 && keys[0] === "eventId"`
is_event_key : List Str → Bool
is_event_key (k ∷ []) = str_eq k (codes "eventId")
is_event_key _ = false

event_id : List Str → Option Json → Option Str
unfolding is_event_key
event_id names (some (str id)) =
    if is_event_key names && matches uuid id then some (to_lower_case id) else none
event_id names _ = none

is_literal_true : Option Json → Bool
is_literal_true (some (bool b)) = b
is_literal_true _ = false

batch_size : Option Json → Option DispatchCommand
batch_size (some (int (pos n))) =
    if ltb n 1 || ltb max_batch_size n then none else some (drain_command n)
batch_size _ = none

drain_names : List Str → Bool
drain_names names =
    leb 1 (length names)
    && leb (length names) 2
    && any (λ k. str_eq k (codes "drain")) names
    && all (λ k. str_eq k (codes "drain") || str_eq k (codes "batchSize")) names

drain_of : List Str → Fields → Option DispatchCommand
unfolding drain_names is_literal_true batch_size member
drain_of names value =
    if not (drain_names names && is_literal_true (member (codes "drain") value))
    then none
    else if any (λ k. str_eq k (codes "batchSize")) names
    then batch_size (member (codes "batchSize") value)
    else some (drain_command default_batch_size)

command_of : Option Str → Option DispatchCommand → Option DispatchCommand
command_of (some id) drain = some (event_command id)
command_of none drain = drain

pub parse_dispatch_command : Json → Option DispatchCommand
unfolding event_id drain_of command_of member
parse_dispatch_command (obj value) =
    command_of (event_id (keys value) (member (codes "eventId") value))
      (drain_of (keys value) value)
parse_dispatch_command _ = none

-- `for (index = 0; index < items.length; index += size) items.slice(index, index + size)`
chunks_fuel {ℓ} : {A : Type ℓ} → ℕ → ℕ → List A → List (List A)
chunks_fuel zero size items = []
chunks_fuel (suc fuel) size [] = []
chunks_fuel (suc fuel) size (x ∷ xs) =
    take size (x ∷ xs) ∷ chunks_fuel fuel size (drop size (x ∷ xs))

-- The length is fuel enough.
pub chunks {ℓ} : {A : Type ℓ} → List A → ℕ → List (List A)
unfolding chunks_fuel
chunks items size = chunks_fuel (length items) size items

abbrev pub IsCommand : DispatchCommand → Type 0
IsCommand (event_command id) = (raw : Str) × (matches uuid raw ≡ true) × (id ≡ to_lower_case raw)
IsCommand (drain_command n) = (1 ≤ n) × (n ≤ 25)

batch_size_drains :
    (value : Option Json) (c : DispatchCommand)
    → batch_size value ≡ some c
    → (n : ℕ) × (c ≡ drain_command n) × (1 ≤ n) × (n ≤ 25)
unfolding batch_size
batch_size_drains none c h = cc
batch_size_drains (some (int (pos n))) c h = (n, ground arith, ground arith, ground arith)
batch_size_drains (some (int (negsuc n))) c h = cc
batch_size_drains (some null) c h = cc
batch_size_drains (some (bool b)) c h = cc
batch_size_drains (some (fraction n)) c h = cc
batch_size_drains (some (str s)) c h = cc
batch_size_drains (some (arr items)) c h = cc
batch_size_drains (some (obj fields)) c h = cc

drain_of_drains :
    (names : List Str) (value : Fields) (c : DispatchCommand)
    → drain_of names value ≡ some c
    → (n : ℕ) × (c ≡ drain_command n) × (1 ≤ n) × (n ≤ 25)
unfolding drain_of
drain_of_drains names value c h =
    elim (Bool-cases (any (λ k. str_eq k (codes "batchSize")) names)) [
      | inl sized ↦ batch_size_drains (member (codes "batchSize") value) c (ground arith)
      | inr unsized ↦ (20, ground arith, omega arith, omega arith)
    ]

event_id_lem :
    (names : List Str) (value : Option Json) (id : Str)
    → event_id names value ≡ some id
    → (raw : Str) × (matches uuid raw ≡ true) × (id ≡ to_lower_case raw)
unfolding event_id
event_id_lem names none id h = cc
event_id_lem names (some (str s)) id h = (s, ground arith, ground arith)
event_id_lem names (some null) id h = cc
event_id_lem names (some (bool b)) id h = cc
event_id_lem names (some (int n)) id h = cc
event_id_lem names (some (fraction n)) id h = cc
event_id_lem names (some (arr items)) id h = cc
event_id_lem names (some (obj fields)) id h = cc

command_of-IsCommand :
    (event : Option Str) (drain : Option DispatchCommand) (c : DispatchCommand)
    → ((id : Str) → event ≡ some id → IsCommand (event_command id))
    → (drain ≡ some c → (n : ℕ) × (c ≡ drain_command n) × (1 ≤ n) × (n ≤ 25))
    → command_of event drain ≡ some c
    → IsCommand c
unfolding command_of
command_of-IsCommand (some id) drain c he hd h =
    let same : event_command id ≡ c = cc in rw (← same) (he id refl)
command_of-IsCommand none drain c he hd h = let (n, same, one, many) = hd h in rw same (one, many)

-- An accepted command names an event by a UUID in lower case, or drains 1 to 25 notifications.
pub parse_dispatch_command-IsCommand :
    (payload : Json) (c : DispatchCommand) → parse_dispatch_command payload ≡ some c → IsCommand c
unfolding parse_dispatch_command
parse_dispatch_command-IsCommand (obj value) c h =
    command_of-IsCommand _ _ c (event_id_lem (keys value) (member (codes "eventId") value))
      (drain_of_drains (keys value) value c) h
parse_dispatch_command-IsCommand null c h = cc
parse_dispatch_command-IsCommand (bool b) c h = cc
parse_dispatch_command-IsCommand (int i) c h = cc
parse_dispatch_command-IsCommand (fraction i) c h = cc
parse_dispatch_command-IsCommand (str s) c h = cc
parse_dispatch_command-IsCommand (arr items) c h = cc

abbrev pub joined {ℓ} : {A : Type ℓ} → List (List A) → List A
joined [] = []
joined (xs ∷ xss) = xs ++ joined xss

length-take {ℓ} : {A : Type ℓ} (n : ℕ) (xs : List A) → length (take n xs) ≤ n
length-take zero xs = omega arith
length-take (suc n) [] = omega arith
length-take (suc n) (x ∷ xs) = omega (arith, length-take n xs)

chunks_from {ℓ} :
    {A : Type ℓ} (fuel size : ℕ) (items : List A)
    → 1 ≤ size
    → length items ≤ fuel
    → (joined (chunks_fuel fuel size items) ≡ items)
      × All (λ chunk. length chunk ≤ size) (chunks_fuel fuel size items)
unfolding chunks_fuel
chunks_from zero size [] one enough = (refl, tt)
chunks_from zero size (x ∷ xs) one enough = absurd (omega arith)
chunks_from (suc fuel) size [] one enough = (refl, tt)
chunks_from (suc fuel) size (x ∷ xs) one enough =
    let (same, small) =
      chunks_from fuel size (drop size (x ∷ xs)) one
        (omega (arith, length-drop size (x ∷ xs), enough)) in
    (rw same (take-append-drop size (x ∷ xs)), (length-take size (x ∷ xs), small))

-- The chunks put together are the items in their order, and each has at most the given size.
pub joined-chunks {ℓ} :
    {A : Type ℓ} (items : List A) (size : ℕ)
    → 1 ≤ size
    → (joined (chunks items size) ≡ items) × All (λ chunk. length chunk ≤ size) (chunks items size)
unfolding chunks
joined-chunks items size one = chunks_from (length items) size items one (omega arith)
