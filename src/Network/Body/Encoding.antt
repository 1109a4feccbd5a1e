-- ===== src/Network/Body/Encoding.antt =====
-- The count of `utf8ByteLength` of mobile/src/shared/lib/network.ts against the encodings themselves.
use etkin_link.Base.{
  ℕ, ◌+◌, ◌-◌, ◌*◌, ◌/◌, ◌%◌, ◌≤◌, ◌<◌, ◌≡◌, refl, false, List, [], ◌∷◌, ◌++◌, ltb, length,
  if◌then◌else◌, All, length-append, arith, ◌⊎◌, inl, inr, Bool-cases, ap, ◌∙◌,
}
use etkin_link.Text.{Str}
use etkin_link.Network.Body.{is_high, is_low, code_points, utf8_width, add_widths, utf8_byte_length}

-- A character of Unicode: no surrogate.
abbrev pub IsScalar : ℕ → Type 0
IsScalar c = (c < 0xd800) ⊎ ((0xe000 ≤ c) × (c < 0x110000))

-- UTF-16: one unit, or a surrogate pair.
abbrev pub units : ℕ → Str
units c =
    if ltb c 0x10000
    then c ∷ []
    else (0xd800 + (c - 0x10000) / 0x400) ∷ (0xdc00 + (c - 0x10000) % 0x400) ∷ []

abbrev pub utf16 : List ℕ → Str
utf16 [] = []
utf16 (c ∷ rest) = units c ++ utf16 rest

-- UTF-8: a byte, or a lead byte and continuation bytes of six bits each.
abbrev pub octets : ℕ → List ℕ
octets c =
    if ltb c 0x80
    then c ∷ []
    else if ltb c 0x800
    then (0xc0 + c / 0x40) ∷ (0x80 + c % 0x40) ∷ []
    else if ltb c 0x10000
    then (0xe0 + c / 0x1000) ∷ (0x80 + c / 0x40 % 0x40) ∷ (0x80 + c % 0x40) ∷ []
    else (0xf0 + c / 0x40000)
      ∷ (0x80 + c / 0x1000 % 0x40)
      ∷ (0x80 + c / 0x40 % 0x40)
      ∷ (0x80 + c % 0x40)
      ∷ []

abbrev pub utf8 : List ℕ → List ℕ
utf8 [] = []
utf8 (c ∷ rest) = octets c ++ utf8 rest

utf8_width-octets : (c : ℕ) → utf8_width c ≡ length (octets c)
unfolding utf8_width
utf8_width-octets c = ground arith

code_points-unit : (c : ℕ) (s : Str) → is_high c ≡ false → code_points (c ∷ s) ≡ c ∷ code_points s
unfolding code_points
code_points-unit c [] h = refl
code_points-unit c (b ∷ s) h = rw h refl

code_points-pair :
    (q r : ℕ) (s : Str)
    → q < 0x400
    → r < 0x400
    → code_points ((0xd800 + q) ∷ (0xdc00 + r) ∷ s) ≡ (0x10000 + q * 0x400 + r) ∷ code_points s
unfolding code_points is_high is_low
code_points-pair q r s hq hr = ground arith

scalar_not_high : (c : ℕ) → IsScalar c → is_high c ≡ false
unfolding is_high
scalar_not_high c h = ground arith

code_points-units : (c : ℕ) (s : Str) → IsScalar c → code_points (units c ++ s) ≡ c ∷ code_points s
code_points-units c s h = elim (Bool-cases (ltb c 0x10000)) [
  | inl small ↦ rw small (code_points-unit c s (scalar_not_high c h))
  | inr large ↦
      let q : ℕ = (c - 0x10000) / 0x400 in
      let r : ℕ = (c - 0x10000) % 0x400 in
      let whole : 0x10000 + q * 0x400 + r ≡ c = ground arith in
      rw large
        (code_points-pair q r s (ground arith) (omega arith) ∙ ap (λ d. d ∷ code_points s) whole)
]

code_points-utf16 : (cs : List ℕ) → All IsScalar cs → code_points (utf16 cs) ≡ cs
unfolding code_points
code_points-utf16 [] h = refl
code_points-utf16 (c ∷ cs) h =
    rw (code_points-units c (utf16 cs) h.0) (rw (code_points-utf16 cs h.1) refl)

add_widths-utf8 : (cs : List ℕ) (bytes : ℕ) → add_widths bytes cs ≡ bytes + length (utf8 cs)
unfolding add_widths
add_widths-utf8 [] bytes = omega arith
add_widths-utf8 (c ∷ cs) bytes = omega (
  arith,
  utf8_width-octets c,
  length-append (octets c) (utf8 cs),
  add_widths-utf8 cs (bytes + utf8_width c),
)

-- For every text of Unicode characters, in its UTF-16 units with surrogate pairs, the count is the number
-- of bytes of the same characters in UTF-8.
pub utf8_byte_length-utf16 :
    (cs : List ℕ) → All IsScalar cs → utf8_byte_length (utf16 cs) ≡ length (utf8 cs)
unfolding utf8_byte_length
utf8_byte_length-utf16 cs h = rw (code_points-utf16 cs h) (omega (arith, add_widths-utf8 cs 0))
