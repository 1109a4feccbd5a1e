-- ===== src/Text.antt =====
-- Strings as JavaScript has them: lists of UTF-16 code units. Regular expressions of the program are
-- written out as functions on such lists.
pub mod Pattern
pub mod Laws
use Prim.Native.Char.{code}
use etkin_link.Base.{
  ℕ, zero, suc, ◌+◌, ◌-◌, ◌*◌, String, Bool, true, false, not, ◌&&◌, ◌||◌, List, [], ◌∷◌, ◌++◌, map,
  Option, none, some, leb, ltb, ◌==◌, if◌then◌else◌, take, drop, length, all,
}

abbrev pub Str : Type 0
Str = List ℕ

-- The code units of an ASCII literal.
abbrev pub codes : String → Str
codes String.[] = []
codes (String.◌∷◌ c s) = code c ∷ codes s

unfoldable pub str_eq : Str → Str → Bool
str_eq [] [] = true
str_eq (a ∷ s) (b ∷ t) = a == b && str_eq s t
str_eq _ _ = false

-- `s < t`, by code units.
unfoldable pub str_lt : Str → Str → Bool
str_lt s [] = false
str_lt [] (b ∷ t) = true
str_lt (a ∷ s) (b ∷ t) = ltb a b || (a == b && str_lt s t)

-- `s <= t`
abbrev pub str_le : Str → Str → Bool
str_le s t = not (str_lt t s)

-- `toLowerCase` on the ASCII letters. Other letters stay, which changes no comparison with a text of
-- hexadecimal digits, dashes or the letters of "application/json" and "bearer".
unfoldable pub lower : ℕ → ℕ
lower c = if leb b'A' c && leb c b'Z' then c + 32 else c

unfoldable pub to_lower_case : Str → Str
unfolding lower
to_lower_case s = map lower s

-- JavaScript's white space, which `trim` and `\s` share.
unfoldable pub is_space : ℕ → Bool
is_space c =
    (leb 9 c && leb c 13)
    || c == 32
    || c == 160
    || c == 0x1680
    || (leb 0x2000 c && leb c 0x200a)
    || c == 0x2028
    || c == 0x2029
    || c == 0x202f
    || c == 0x205f
    || c == 0x3000
    || c == 0xfeff

unfoldable pub trim_start : Str → Str
unfolding is_space
trim_start [] = []
trim_start (c ∷ s) = if is_space c then trim_start s else c ∷ s

keep_unless_blank : ℕ → Str → Str
keep_unless_blank c [] = if is_space c then [] else c ∷ []
keep_unless_blank c (d ∷ t) = c ∷ d ∷ t

unfoldable pub trim_end : Str → Str
unfolding keep_unless_blank is_space
trim_end [] = []
trim_end (c ∷ s) = keep_unless_blank c (trim_end s)

unfoldable pub trim : Str → Str
unfolding trim_start trim_end
trim s = trim_end (trim_start s)

-- `s.indexOf(c)` for one code unit; `none` is -1.
later : Option ℕ → Option ℕ
later none = none
later (some i) = some (suc i)

unfoldable pub index_of : ℕ → Str → Option ℕ
unfolding later
index_of c [] = none
index_of c (d ∷ s) = if d == c then some 0 else later (index_of c s)

-- `s.split(c)[0]`: what stands before the first c.
unfoldable pub before : ℕ → Str → Str
before c [] = []
before c (d ∷ s) = if d == c then [] else d ∷ before c s

-- `s.split(c)`
onto_first : ℕ → List Str → List Str
onto_first d [] = (d ∷ []) ∷ []
onto_first d (t ∷ ts) = (d ∷ t) ∷ ts

unfoldable pub split : ℕ → Str → List Str
unfolding onto_first
split c [] = [] ∷ []
split c (d ∷ s) = if d == c then [] ∷ split c s else onto_first d (split c s)

unfoldable pub starts_with : Str → Str → Bool
starts_with s [] = true
starts_with [] (b ∷ t) = false
starts_with (a ∷ s) (b ∷ t) = a == b && starts_with s t

-- `s.endsWith(t)`
unfoldable pub ends_with : Str → Str → Bool
unfolding str_eq
ends_with s t = leb (length t) (length s) && str_eq (drop (length s - length t) s) t

unfoldable pub is_digit : ℕ → Bool
is_digit c = leb b'0' c && leb c b'9'

-- /^\d+$/
unfoldable pub all_digits : Str → Bool
unfolding is_digit
all_digits [] = false
all_digits (c ∷ s) = all is_digit (c ∷ s)

-- The value of a string of decimal digits.
unfoldable pub decimal_from : ℕ → Str → ℕ
decimal_from acc [] = acc
decimal_from acc (c ∷ s) = decimal_from (acc * 10 + (c - b'0')) s

unfoldable pub decimal : Str → ℕ
unfolding decimal_from
decimal s = decimal_from 0 s

-- `value?.split(";", 1)[0]?.trim().toLowerCase() ?? ""`
unfoldable pub media_type : Option Str → Str
unfolding before trim to_lower_case
media_type none = []
media_type (some value) = to_lower_case (trim (before b';' value))
