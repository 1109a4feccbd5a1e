-- ===== src/Network/Body/Bounds.antt =====
-- The bounds of what is read: mobile/src/shared/lib/network.ts.
use etkin_link.Base.{
  ℕ, ◌+◌, ◌≤◌, ◌≡◌, List, [], ◌∷◌, ◌++◌, ltb, leb, if◌then◌else◌, length, length-append, arith,
  Bool-cases, inl, inr,
}
use etkin_link.Text.{Str}
use mathlib.Core.List.{append_assoc}
use etkin_link.BoundedJson.Bounds.{joined}
use etkin_link.Effect.{ok, err}
use etkin_link.Network.Body.{Arrival, chunk, too_large, Decoder, read_arrivals}

abbrev pub arrived : List (List ℕ) → List Arrival
arrived [] = []
arrived (value ∷ rest) = chunk value ∷ arrived rest

-- The text that the decoder makes of all the parts.
abbrev pub decoded : Decoder → List (List ℕ) → List ℕ → Str
decoded decoder [] held = decoder.flush held
decoded decoder (value ∷ rest) held =
    (decoder.stream held value).0 ++ decoded decoder rest (decoder.stream held value).1

read_arrivals_from :
    (decoder : Decoder) (maximum : ℕ) (parts : List (List ℕ)) (received : ℕ) (held : List ℕ)
    (result : Str)
    → received ≤ maximum
    → read_arrivals decoder maximum (arrived parts) received held result ≡ (
        if leb (received + length (joined parts)) maximum
        then ok (result ++ decoded decoder parts held)
        else err too_large)
unfolding read_arrivals
read_arrivals_from decoder maximum [] received held result h = ground arith
read_arrivals_from decoder maximum (value ∷ parts) received held result h =
    elim (Bool-cases (ltb maximum (received + length value))) [
      | inl large ↦ ground (arith, length-append value (joined parts))
      | inr fits ↦ ground (
        arith,
        read_arrivals_from decoder maximum parts (received + length value)
            (decoder.stream held value).1 (result ++ (decoder.stream held value).0),
        length-append value (joined parts),
        append_assoc result (decoder.stream held value).0
            (decoded decoder parts (decoder.stream held value).1),
      )
    ]

-- A body that arrives whole is decoded in full if it has at most the given number of bytes, and refused
-- otherwise, however it is cut into parts and at whichever part the reading stops.
pub read_arrivals-arrived :
    (decoder : Decoder) (maximum : ℕ) (parts : List (List ℕ))
    → read_arrivals decoder maximum (arrived parts) 0 [] [] ≡ (
        if leb (length (joined parts)) maximum
        then ok (decoded decoder parts [])
        else err too_large)
read_arrivals-arrived decoder maximum parts =
    rw (read_arrivals_from decoder maximum parts 0 [] [] (omega arith)) (ground arith)
