-- ===== src/WorkerAuth/Compare.antt =====
-- The comparison in constant time: `constantTimeEqual` of supabase/functions/_shared/workerAuth.ts.
use Prim.Native.Nat.{bit_or, bit_xor}
use etkin_link.Base.{ℕ, ◌≡◌, refl, ◌↔◌, true, List, [], ◌∷◌, length, ==_iff, arith}
use etkin_link.Text.{Str}
use etkin_link.WorkerAuth.{mix, equal_bytes, Crypto, constant_time_equal}
use etkin_link.WorkerAuth.Bits.{bit_xor-eq_zero, bit_xor_self, bit_or-eq_zero}

-- A difference, once found, stays.
mix-eq_zero :
    (left right : List ℕ) (d : ℕ)
    → length left ≡ length right
    → mix left right d ≡ 0
    → (d ≡ 0) × (left ≡ right)
unfolding mix
mix-eq_zero [] [] d e h = (h, refl)
mix-eq_zero (a ∷ left) [] d e h = absurd (omega arith)
mix-eq_zero [] (b ∷ right) d e h = absurd (omega arith)
mix-eq_zero (a ∷ left) (b ∷ right) d e h =
    let (mixed, tails) = mix-eq_zero left right (bit_or d (bit_xor a b)) (omega arith) h in
    let (old, new) = bit_or-eq_zero d (bit_xor a b) mixed in
    let heads = bit_xor-eq_zero a b new in (old, cc)

mix_self : (bytes : List ℕ) → mix bytes bytes 0 ≡ 0
unfolding mix
mix_self [] = refl
mix_self (a ∷ bytes) = rw (bit_xor_self a) (mix_self bytes)

-- The first entry of the difference: unequal lengths are never forgotten.
mix-start : (left right : List ℕ) (d : ℕ) → mix left right d ≡ 0 → d ≡ 0
unfolding mix
mix-start [] [] d h = h
mix-start (a ∷ left) [] d h = (bit_or-eq_zero _ _ (mix-start left [] _ h)).0
mix-start [] (b ∷ right) d h = (bit_or-eq_zero _ _ (mix-start [] right _ h)).0
mix-start (a ∷ left) (b ∷ right) d h = (bit_or-eq_zero _ _ (mix-start left right _ h)).0

equal_bytes_iff : (left right : List ℕ) → (equal_bytes left right ≡ true) ↔ (left ≡ right)
unfolding equal_bytes
equal_bytes_iff left right = (
  λ h.
      let zero_mix = (==_iff _ _).0 h in
      let lengths = bit_xor-eq_zero _ _ (mix-start left right _ zero_mix) in
      (mix-eq_zero left right _ lengths zero_mix).1,
  λ e. rw (e, bit_xor_self (length right), mix_self right) refl,
)

-- The comparison accepts exactly the pairs of texts with the same bytes: texts of different length,
-- and texts that differ at one byte, are told apart.
pub constant_time_equal_iff :
    (crypto : Crypto) (left right : Str)
    → (constant_time_equal crypto left right ≡ true) ↔ (crypto.encode left ≡ crypto.encode right)
unfolding constant_time_equal
constant_time_equal_iff crypto left right =
    equal_bytes_iff (crypto.encode left) (crypto.encode right)
