-- ===== src/Text/Pattern.antt =====
-- The character classes of the program's fixed-length regular expressions (UUIDs, signatures).
use etkin_link.Base.{ℕ, zero, suc, ◌+◌, Bool, true, false, ◌&&◌, ◌||◌, List, [], ◌∷◌, leb, ◌==◌}

pub data Class : Type 0 where
  hex : Class  -- [0-9a-f], with the flag i
  exactly : ℕ → Class
  letter : ℕ → Class  -- a lower case letter, with the flag i
  between : ℕ → ℕ → Class
  variant : Class  -- [89ab], with the flag i

unfoldable pub is_hex : ℕ → Bool
is_hex c = (leb b'0' c && leb c b'9') || (leb b'a' c && leb c b'f') || (leb b'A' c && leb c b'F')

unfoldable pub fits : Class → ℕ → Bool
unfolding is_hex
fits hex c = is_hex c
fits (exactly d) c = c == d
fits (letter d) c = c == d || c + 32 == d
fits (between lo hi) c = leb lo c && leb c hi
fits variant c = c == b'8' || c == b'9' || c == b'a' || c == b'b' || c == b'A' || c == b'B'

-- The whole text, one class to a code unit.
unfoldable pub matches : List Class → List ℕ → Bool
unfolding fits
matches [] [] = true
matches (k ∷ ks) (c ∷ s) = fits k c && matches ks s
matches _ _ = false

abbrev pub times : ℕ → Class → List Class → List Class
times zero k rest = rest
times (suc n) k rest = k ∷ times n k rest

abbrev dash : List Class → List Class
dash rest = exactly b'-' ∷ rest

-- /^[0-9a-f]{8}-[0-9a-f]{4}-[0-9a-f]{4}-[0-9a-f]{4}-[0-9a-f]{12}$/i
abbrev pub uuid : List Class
uuid =
    times 8 hex
      (dash (times 4 hex (dash (times 4 hex (dash (times 4 hex (dash (times 12 hex []))))))))

-- The same with the version and the variant given.
abbrev pub uuid_versions : Class → List Class
uuid_versions v = times 8 hex (
    dash (
      times 4 hex (dash (v ∷ times 3 hex (dash (variant ∷ times 3 hex (dash (times 12 hex []))))))))
