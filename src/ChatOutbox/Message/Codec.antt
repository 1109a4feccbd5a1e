-- ===== src/ChatOutbox/Message/Codec.antt =====
-- A text form of JSON values that is read back, for the examples: a tag for each constructor, after
-- the number of steps that reading takes.
use etkin_link.Base.{
  ℕ, zero, suc, ◌+◌, ◌≤◌, ◌≡◌, refl, true, false, [], ◌∷◌, ◌++◌, Option, none, some, arith,
}
use etkin_link.Int.{pos, negsuc}
use etkin_link.Text.{Str}
use etkin_link.Json.{
  Json, null, bool, int, fraction, str, arr, obj, Items, nil, cons, Fields, end, field,
}
use mathlib.Core.List.{append_assoc, append-nil}

abbrev and_then : {A B : Type 0} → Option (A × Str) → (A → Str → Option B) → Option B
and_then none k = none
and_then (some (a, rest)) k = k a rest

write_text : Str → Str
write_text [] = 0 ∷ []
write_text (c ∷ s) = 1 ∷ c ∷ write_text s

read_text : Str → Option (Str × Str)
read_text [] = none
read_text (zero ∷ rest) = some ([], rest)
read_text (suc t ∷ []) = none
read_text (suc t ∷ c ∷ rest) = and_then (read_text rest) (λ s r. some (c ∷ s, r))

read_text-write_text : (s rest : Str) → read_text (write_text s ++ rest) ≡ some (s, rest)
unfolding read_text write_text
read_text-write_text [] rest = refl
read_text-write_text (c ∷ s) rest = rw (read_text-write_text s rest) refl

mutual
  write : Json → Str
  write null = 0 ∷ []
  write (bool true) = 1 ∷ []
  write (bool false) = 2 ∷ []
  write (int (pos n)) = 3 ∷ n ∷ []
  write (int (negsuc n)) = 4 ∷ n ∷ []
  write (fraction n) = 5 ∷ n ∷ []
  write (str s) = 6 ∷ write_text s
  write (arr items) = 7 ∷ write_items items
  write (obj fields) = 8 ∷ write_fields fields

  write_items : Items → Str
  write_items nil = 0 ∷ []
  write_items (cons v vs) = 1 ∷ write v ++ write_items vs

  write_fields : Fields → Str
  write_fields end = 0 ∷ []
  write_fields (field k v fs) = 1 ∷ write_text k ++ (write v ++ write_fields fs)

mutual
  steps : Json → ℕ
  steps (arr items) = suc (steps_items items)
  steps (obj fields) = suc (steps_fields fields)
  steps _ = 1

  steps_items : Items → ℕ
  steps_items nil = 1
  steps_items (cons v vs) = suc (steps v + steps_items vs)

  steps_fields : Fields → ℕ
  steps_fields end = 1
  steps_fields (field k v fs) = suc (steps v + steps_fields fs)

read_number : (ℕ → Json) → Str → Option (Json × Str)
read_number make [] = none
read_number make (n ∷ rest) = some (make n, rest)

mutual
  read : ℕ → Str → Option (Json × Str)
  read zero s = none
  read (suc f) [] = none
  read (suc f) (zero ∷ rest) = some (null, rest)
  read (suc f) ((suc zero) ∷ rest) = some (bool true, rest)
  read (suc f) ((suc (suc zero)) ∷ rest) = some (bool false, rest)
  read (suc f) ((suc (suc (suc zero))) ∷ rest) = read_number (λ n. int (pos n)) rest
  read (suc f) ((suc (suc (suc (suc zero)))) ∷ rest) = read_number (λ n. int (negsuc n)) rest
  read (suc f) ((suc (suc (suc (suc (suc zero))))) ∷ rest) = read_number (λ n. fraction n) rest
  read (suc f) ((suc (suc (suc (suc (suc (suc zero)))))) ∷ rest) =
      and_then (read_text rest) (λ s r. some (str s, r))
  read (suc f) ((suc (suc (suc (suc (suc (suc (suc zero))))))) ∷ rest) =
      and_then (read_items f rest) (λ vs r. some (arr vs, r))
  read (suc f) ((suc (suc (suc (suc (suc (suc (suc (suc t)))))))) ∷ rest) =
      and_then (read_fields f rest) (λ fs r. some (obj fs, r))

  read_items : ℕ → Str → Option (Items × Str)
  read_items zero s = none
  read_items (suc f) [] = none
  read_items (suc f) (zero ∷ rest) = some (nil, rest)
  read_items (suc f) (suc t ∷ rest) =
      and_then (read f rest) (λ v r. and_then (read_items f r) (λ vs r'. some (cons v vs, r')))

  read_fields : ℕ → Str → Option (Fields × Str)
  read_fields zero s = none
  read_fields (suc f) [] = none
  read_fields (suc f) (zero ∷ rest) = some (end, rest)
  read_fields (suc f) (suc t ∷ rest) = and_then (read_text rest) (λ k r.
      and_then (read f r)
        (λ v r'. and_then (read_fields f r') (λ fs r''. some (field k v fs, r''))))

never : (v : Json) → steps v ≤ 0 → ⊥
unfolding steps
never null h = omega arith
never (bool b) h = omega arith
never (int n) h = omega arith
never (fraction n) h = omega arith
never (str s) h = omega arith
never (arr items) h = omega arith
never (obj fields) h = omega arith

never_items : (vs : Items) → steps_items vs ≤ 0 → ⊥
unfolding steps_items
never_items nil h = omega arith
never_items (cons v vs) h = omega arith

never_fields : (fs : Fields) → steps_fields fs ≤ 0 → ⊥
unfolding steps_fields
never_fields end h = omega arith
never_fields (field k v fs) h = omega arith

mutual
  unfolding write steps read read_number

  read-write :
      (f : ℕ) (v : Json) (rest : Str) → steps v ≤ f → read f (write v ++ rest) ≡ some (v, rest)
  read-write zero v rest h = absurd (never v h)
  read-write (suc f) null rest h = refl
  read-write (suc f) (bool true) rest h = refl
  read-write (suc f) (bool false) rest h = refl
  read-write (suc f) (int (pos n)) rest h = refl
  read-write (suc f) (int (negsuc n)) rest h = refl
  read-write (suc f) (fraction n) rest h = refl
  read-write (suc f) (str s) rest h = rw (read_text-write_text s rest) refl
  read-write (suc f) (arr items) rest h = rw (read_items-write f items rest (omega arith)) refl
  read-write (suc f) (obj fields) rest h = rw (read_fields-write f fields rest (omega arith)) refl

  read_items-write :
      (f : ℕ) (vs : Items) (rest : Str)
      → steps_items vs ≤ f
      → read_items f (write_items vs ++ rest) ≡ some (vs, rest)
  read_items-write zero vs rest h = absurd (never_items vs h)
  read_items-write (suc f) nil rest h = refl
  read_items-write (suc f) (cons v vs) rest h =
      rw
        (
          append_assoc (write v) (write_items vs) rest,
          read-write f v (write_items vs ++ rest) (omega arith),
          read_items-write f vs rest (omega arith),
        )
        refl

  read_fields-write :
      (f : ℕ) (fs : Fields) (rest : Str)
      → steps_fields fs ≤ f
      → read_fields f (write_fields fs ++ rest) ≡ some (fs, rest)
  read_fields-write zero fs rest h = absurd (never_fields fs h)
  read_fields-write (suc f) end rest h = refl
  read_fields-write (suc f) (field k v fs) rest h =
      rw
        (
          append_assoc (write_text k) (write v ++ write_fields fs) rest,
          append_assoc (write v) (write_fields fs) rest,
          read_text-write_text k (write v ++ (write_fields fs ++ rest)),
          read-write f v (write_fields fs ++ rest) (omega arith),
          read_fields-write f fs rest (omega arith),
        )
        refl

pub stringify : Json → Str
stringify v = steps v ∷ write v

abbrev whole_text : Option (Json × Str) → Option Json
whole_text (some (v, [])) = some v
whole_text _ = none

pub parse_text : Str → Option Json
parse_text [] = none
parse_text (f ∷ s) = whole_text (read f s)

pub parse_text-stringify : (v : Json) → parse_text (stringify v) ≡ some v
unfolding parse_text stringify
parse_text-stringify v = rw (← append-nil (write v), read-write (steps v) v [] (omega arith)) refl

pub parse_text_empty : parse_text [] ≡ none
unfolding parse_text
parse_text_empty = refl
