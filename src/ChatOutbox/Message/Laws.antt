-- ===== src/ChatOutbox/Message/Laws.antt =====
-- What is read from the storage of the outbox, and what fits into it.
use etkin_link.Base.{
  ◌≤◌, ◌≡◌, refl, ap, ◌∙◌, sym, true, false, List, [], ◌∷◌, ◌++◌, Option, none, some, ltb, length,
  keep, take_last, length-take_last, All, All-drop, All-keep, keep-All, take_last_all,
  take_last_suffix, arith, Bool-cases, inl, inr, ◌⊎◌,
}
use etkin_link.Int.{ℤ, pos, ◌-ℤ◌}
use etkin_link.Text.{Str, str_eq}
use mathlib.Core.List.{append_assoc}
use etkin_link.Json.{Json, arr, null, bool, int, fraction, str, obj, elems, member}
use etkin_link.ChatOutbox.Message.{
  OutboxMessage, OutboxKind, room, direct, Count, whole, broken, Device, text_of, optional_text_of,
  count_of, kind_of, join_message, read_message, valid_messages, message_json, items_json,
  serialize, not_before, recent_messages, parse_messages, drop_until_fits, fit_storage_limit,
  max_age_ms,
}

-- A message that is written is read as it was.
read_message-message_json : (m : OutboxMessage) → read_message (message_json m) ≡ some m
unfolding read_message text_of optional_text_of count_of kind_of join_message member str_eq
read_message-message_json m = by_parts m.kind m.attempt m.dead_lettered_at
  where
    by_parts :
        (k : OutboxKind) (a : Count) (d : Option Str)
        → let m' = record m { kind = k; attempt = a; dead_lettered_at = d } in
          read_message (message_json m') ≡ some m'
    by_parts room (whole n) none = refl
    by_parts room (whole n) (some t) = refl
    by_parts room (broken n) none = refl
    by_parts room (broken n) (some t) = refl
    by_parts direct (whole n) none = refl
    by_parts direct (whole n) (some t) = refl
    by_parts direct (broken n) none = refl
    by_parts direct (broken n) (some t) = refl

valid_messages-items_json : (ms : List OutboxMessage) → valid_messages (elems (items_json ms)) ≡ ms
unfolding valid_messages
valid_messages-items_json [] = refl
valid_messages-items_json (m ∷ ms) =
    rw (read_message-message_json m, valid_messages)
      (ap (λ rest. m ∷ rest) (valid_messages-items_json ms))

-- JSON text reads as the value that it was made from, and the empty text is none.
pub record IsJson (device : Device) : Type 0 where
  pub reads : (v : Json) → device.parse_json (device.stringify v) ≡ some v
  pub empty : device.parse_json [] ≡ none

-- A message that is not older than a week.
abbrev pub IsRecent : Device → ℤ → OutboxMessage → Type 0
IsRecent device now m = not_before device (now -ℤ pos max_age_ms) m.created_at ≡ true

-- What can be stored is read as it is.
abbrev pub IsStorable : Device → ℤ → List OutboxMessage → Type 0
IsStorable device now ms = (length ms ≤ 40) × All (IsRecent device now) ms

-- What is read from the storage has at most 40 messages, none older than a week, whatever is stored.
pub parse_messages-IsStorable :
    (device : Device) (now : ℤ) (raw : Option Str) (ms : List OutboxMessage)
    → parse_messages device now raw ≡ some ms
    → IsStorable device now ms
unfolding parse_messages recent_messages
parse_messages-IsStorable device now none ms h = let e : [] ≡ ms = cc in rw (← e) (omega arith, tt)
parse_messages-IsStorable device now (some []) ms h =
    let e : [] ≡ ms = cc in rw (← e) (omega arith, tt)
parse_messages-IsStorable device now (some (c ∷ raw)) ms h = of_json (device.parse_json (c ∷ raw)) h
  where
    of_json : (v : Option Json) → recent_messages device now v ≡ some ms → IsStorable device now ms
    of_json (some (arr items)) h =
        let recent =
          keep (λ (m : OutboxMessage). not_before device (now -ℤ pos max_age_ms) m.created_at)
            (valid_messages (elems items)) in
        let e : take_last 40 recent ≡ ms = cc in
        rw (← e) (
          length-take_last 40 recent,
          All-drop (IsRecent device now) _ recent (All-keep _ (valid_messages (elems items))),
        )
    of_json none h = cc
    of_json (some null) h = cc
    of_json (some (bool b)) h = cc
    of_json (some (int n)) h = cc
    of_json (some (fraction n)) h = cc
    of_json (some (str s)) h = cc
    of_json (some (obj fields)) h = cc

-- Messages that were stored are read again, all of them and in their order, while they are 40 at most
-- and none is older than a week.
pub parse_messages-serialize :
    (device : Device)
    → IsJson device
    → (now : ℤ) (ms : List OutboxMessage) → IsStorable device now ms
    → parse_messages device now (some (serialize device ms)) ≡ some ms
unfolding parse_messages recent_messages serialize
parse_messages-serialize device json now ms h =
    of_text (device.stringify (arr (items_json ms))) refl
  where
    of_text :
        (text : Str)
        → device.stringify (arr (items_json ms)) ≡ text
        → parse_messages device now (some text) ≡ some ms
    of_text [] e =
        let read : device.parse_json [] ≡ some (arr (items_json ms)) =
          rw (← e) (json.reads (arr (items_json ms))) in
        let wrong : none ≡ some (arr (items_json ms)) = sym json.empty ∙ read in cc
    of_text (c ∷ text) e =
        rw (← e, json.reads (arr (items_json ms)))
          (rw
            (
              valid_messages-items_json ms,
              keep-All
                  (λ (m : OutboxMessage). not_before device (now -ℤ pos max_age_ms) m.created_at) ms
                  h.1,
              take_last_all 40 ms h.0,
            )
            refl)

pub record Fits (device : Device) (messages fitted : List OutboxMessage) : Type 0 where
  pub dropped : List OutboxMessage
  pub suffix : dropped ++ fitted ≡ messages
  pub few : length fitted ≤ 40
  pub short : (fitted ≡ []) ⊎ (length (serialize device fitted) ≤ 48_000)

drop_until_fits_lem :
    (device : Device) (ms : List OutboxMessage)
    → length ms ≤ 40
    → Fits device ms (drop_until_fits device ms)
unfolding drop_until_fits
drop_until_fits_lem device [] h = record {
  dropped = [];
  suffix = refl;
  few = omega arith;
  short = inl refl;
}
drop_until_fits_lem device (m ∷ ms) h =
    elim (Bool-cases (ltb 48_000 (length (serialize device (m ∷ ms))))) [
      | inl long ↦
          let rest = drop_until_fits_lem device ms (omega (arith, h)) in
          rw long (record {
            dropped = m ∷ rest.dropped;
            suffix = ap (λ ys. m ∷ ys) rest.suffix;
            few = rest.few;
            short = rest.short;
          })
      | inr fits ↦
          rw fits (record { dropped = []; suffix = refl; few = h; short = inr (ground arith) })
    ]

-- What is written is the newest messages: at most 40 of them, and at most 48,000 characters.
pub fit_storage_limit-Fits :
    (device : Device) (ms : List OutboxMessage) → Fits device ms (fit_storage_limit device ms)
unfolding fit_storage_limit
fit_storage_limit-Fits device ms =
    let (older, whole_list) = take_last_suffix 40 ms in
    let fits = drop_until_fits_lem device (take_last 40 ms) (length-take_last 40 ms) in
    record {
      dropped = older ++ fits.dropped;
      suffix = append_assoc older fits.dropped _ ∙ ap (λ ys. older ++ ys) fits.suffix ∙ whole_list;
      few = fits.few;
      short = fits.short;
    }

-- Nothing is dropped that fits.
pub fit_storage_limit_same :
    (device : Device) (ms : List OutboxMessage)
    → length ms ≤ 40
    → length (serialize device ms) ≤ 48_000
    → fit_storage_limit device ms ≡ ms
unfolding fit_storage_limit drop_until_fits
fit_storage_limit_same device ms few short = rw (take_last_all 40 ms few) (kept ms short)
  where
    kept :
        (ms : List OutboxMessage)
        → length (serialize device ms) ≤ 48_000
        → drop_until_fits device ms ≡ ms
    kept [] short = refl
    kept (m ∷ ms) short =
        let fits : ltb 48_000 (length (serialize device (m ∷ ms))) ≡ false = ground arith in
        rw fits refl

pub parse_messages-none : (device : Device) (now : ℤ) → parse_messages device now none ≡ some []
unfolding parse_messages
parse_messages-none device now = refl
