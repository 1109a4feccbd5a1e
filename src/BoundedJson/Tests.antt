-- ===== src/BoundedJson/Tests.antt =====
-- A body in two parts, at a bound that it meets and at one that it passes.
use etkin_link.Base.{◌≡◌, [], ◌∷◌}
use etkin_link.Effect.{ok}
use etkin_link.BoundedJson.{refuse, body_too_large, read_chunks}
use etkin_link.BoundedJson.Bounds.{delivered, read_chunks-eq}

read_chunks-eq_example :
    read_chunks 3 413 (delivered ((1 ∷ 2 ∷ []) ∷ (3 ∷ []) ∷ [])) 0 [] ≡ ok (1 ∷ 2 ∷ 3 ∷ [])
read_chunks-eq_example = read_chunks-eq 3 413 ((1 ∷ 2 ∷ []) ∷ (3 ∷ []) ∷ [])

too_large :
    read_chunks 2 413 (delivered ((1 ∷ 2 ∷ []) ∷ (3 ∷ []) ∷ [])) 0 [] ≡ refuse 413 body_too_large
too_large = read_chunks-eq 2 413 ((1 ∷ 2 ∷ []) ∷ (3 ∷ []) ∷ [])
