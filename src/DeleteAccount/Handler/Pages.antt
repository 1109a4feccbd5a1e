-- ===== src/DeleteAccount/Handler/Pages.antt =====
-- What the check of a page of storage paths establishes, and how a page is cut into chunks.
use etkin_link.Base.{
  ℕ, zero, suc, ◌≡◌, refl, ◌≤◌, true, false, Option, none, some, arith, List, [], ◌∷◌, length, take,
  drop, All,
}
use etkin_link.Text.{Str, to_lower_case, index_of}
use etkin_link.Text.Laws.{str_eq→eq}
use etkin_link.DeleteAccount.Handler.{is_at, invalid_paths, slices_fuel, slices}
use etkin_link.DeleteAccount.Handler.Safety.{IsOwned, Ascends}

-- The bound that the next path has to pass.
abbrev bound : Str → Option Str → Str
bound after none = after
bound after (some path) = path

is_at→eq : (n : ℕ) (o : Option ℕ) → is_at n o ≡ true → o ≡ some n
is_at→eq n none h = cc
is_at→eq n (some i) h = ground arith

-- A page that passes the check lies in the user's folder and ascends strictly.
pub invalid_paths_sound :
    (u after : Str) (previous : Option Str) (paths : List Str)
    → invalid_paths u after previous paths ≡ false
    → Ascends (bound after previous) paths × All (IsOwned u) paths
unfolding invalid_paths
invalid_paths_sound u after previous [] h = (tt, tt)
invalid_paths_sound u after none (p ∷ ps) h = ground (
  arith,
  invalid_paths_sound u after (some p) ps,
  is_at→eq (length u) (index_of b'/' p),
  str_eq→eq (to_lower_case (take (length u) p)) u,
)
invalid_paths_sound u after (some b) (p ∷ ps) h = ground (
  arith,
  invalid_paths_sound u after (some p) ps,
  is_at→eq (length u) (index_of b'/' p),
  str_eq→eq (to_lower_case (take (length u) p)) u,
)

take_all {ℓ} : {A : Type ℓ} (n : ℕ) (xs : List A) → length xs ≤ n → take n xs ≡ xs
take_all zero [] h = refl
take_all zero (x ∷ xs) h = absurd (omega arith)
take_all (suc n) [] h = refl
take_all (suc n) (x ∷ xs) h = rw (take_all n xs (omega arith))

drop_all {ℓ} : {A : Type ℓ} (n : ℕ) (xs : List A) → length xs ≤ n → drop n xs ≡ []
drop_all zero [] h = refl
drop_all zero (x ∷ xs) h = absurd (omega arith)
drop_all (suc n) [] h = refl
drop_all (suc n) (x ∷ xs) h = drop_all n xs (omega arith)

slices_fuel_nil {ℓ} : {A : Type ℓ} (fuel size : ℕ) → slices_fuel {A = A} fuel size [] ≡ []
unfolding slices_fuel
slices_fuel_nil zero size = refl
slices_fuel_nil (suc fuel) size = refl

-- A list that fits is one slice.
pub slices_of_fit {ℓ} :
    {A : Type ℓ} (size : ℕ) (x : A) (xs : List A)
    → length (x ∷ xs) ≤ size
    → slices size (x ∷ xs) ≡ (x ∷ xs) ∷ []
unfolding slices slices_fuel
slices_of_fit size x xs h =
    rw (take_all size (x ∷ xs) h, drop_all size (x ∷ xs) h, slices_fuel_nil (length xs) size) refl
