-- ===== src/BoundedJson/Bounds.antt =====
-- The bound of a body that is read in chunks.
use etkin_link.Base.{
  ℕ, ◌+◌, ◌≤◌, ◌≡◌, refl, ◌∙◌, ap, List, [], ◌∷◌, ◌++◌, ltb, leb, if◌then◌else◌, length,
  length-append, arith, Bool-cases, inl, inr,
}
use mathlib.Core.List.{append_assoc, append-nil}
use etkin_link.Http.{Chunk, bytes}
use etkin_link.Effect.{ok}
use etkin_link.BoundedJson.{refuse, body_too_large, read_chunks}

-- A body that arrives without an error of the stream.
abbrev pub delivered : List (List ℕ) → List Chunk
delivered [] = []
delivered (value ∷ rest) = bytes value ∷ delivered rest

abbrev pub joined : List (List ℕ) → List ℕ
joined [] = []
joined (value ∷ rest) = value ++ joined rest

read_chunks_from :
    (max status : ℕ) (parts : List (List ℕ)) (total : ℕ) (received : List ℕ)
    → length received ≡ total
    → total ≤ max
    → read_chunks max status (delivered parts) total received ≡ (
        if leb (total + length (joined parts)) max
        then ok (received ++ joined parts)
        else refuse status body_too_large)
unfolding read_chunks
read_chunks_from max status [] total received e h = rw (append-nil received) (ground arith)
read_chunks_from max status (value ∷ parts) total received e h =
    elim (Bool-cases (ltb max (total + length value))) [
      | inl large ↦ ground (arith, length-append value (joined parts))
      | inr fits ↦ ground (
        arith,
        read_chunks_from max status parts (total + length value) (received ++ value)
            (length-append received value ∙ ap (λ (n : ℕ). n + length value) e),
        length-append value (joined parts),
        append_assoc received value (joined parts),
      )
    ]

-- Reading chunk by chunk with an early stop gives the whole body, if its size is within the bound,
-- and the error otherwise: the stop depends on the size alone, not on how the body is cut.
pub read_chunks-eq :
    (max status : ℕ) (parts : List (List ℕ))
    → read_chunks max status (delivered parts) 0 [] ≡ (
        if leb (length (joined parts)) max then ok (joined parts) else refuse status body_too_large)
read_chunks-eq max status parts =
    rw (read_chunks_from max status parts 0 [] refl (omega arith)) (ground arith)
