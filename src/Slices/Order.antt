-- ===== src/Slices/Order.antt =====
-- The order of byte strings.
use rancher_flat_network.Prelude.{◌≡◌, refl, true, false, [], ◌∷◌, arith}
use rancher_flat_network.Net.{Bytes, compare_bytes, le_bytes, lt_bytes, eq_bytes}

not_lt_nil : (b : Bytes) → lt_bytes b [] ≡ false
unfolding compare_bytes
not_lt_nil [] = refl
not_lt_nil (x ∷ xs) = refl

pub eq_bytes_refl : (a : Bytes) → eq_bytes a a ≡ true
unfolding compare_bytes
eq_bytes_refl [] = refl
eq_bytes_refl (x ∷ xs) = ground (arith, eq_bytes_refl xs)

pub eq_of_eq_bytes : (a b : Bytes) → eq_bytes a b ≡ true → a ≡ b
unfolding compare_bytes
eq_of_eq_bytes [] [] h = refl
eq_of_eq_bytes [] (y ∷ ys) h = cc
eq_of_eq_bytes (x ∷ xs) [] h = cc
eq_of_eq_bytes (x ∷ xs) (y ∷ ys) h = ground (arith, eq_of_eq_bytes xs ys)

pub lt_le_trans : (a b c : Bytes) → lt_bytes a b ≡ true → le_bytes b c ≡ true → lt_bytes a c ≡ true
unfolding compare_bytes
lt_le_trans [] [] c h k = cc
lt_le_trans [] (y ∷ ys) [] h k = cc
lt_le_trans [] (y ∷ ys) (z ∷ zs) h k = refl
lt_le_trans (x ∷ xs) [] c h k = cc
lt_le_trans (x ∷ xs) (y ∷ ys) [] h k = cc
lt_le_trans (x ∷ xs) (y ∷ ys) (z ∷ zs) h k = ground (arith, lt_le_trans xs ys zs)

pub le_lt_trans : (a b c : Bytes) → le_bytes a b ≡ true → lt_bytes b c ≡ true → lt_bytes a c ≡ true
unfolding compare_bytes
le_lt_trans [] b [] h k = ground (arith, not_lt_nil b)
le_lt_trans [] b (z ∷ zs) h k = refl
le_lt_trans (x ∷ xs) [] c h k = cc
le_lt_trans (x ∷ xs) (y ∷ ys) [] h k = cc
le_lt_trans (x ∷ xs) (y ∷ ys) (z ∷ zs) h k = ground (arith, le_lt_trans xs ys zs)

pub lt_irrefl : (a : Bytes) → lt_bytes a a ≡ false
unfolding compare_bytes
lt_irrefl [] = refl
lt_irrefl (x ∷ xs) = ground (arith, lt_irrefl xs)

-- A string that is neither below another nor equal to it is above it.
pub lt_of_not : (a b : Bytes) → lt_bytes a b ≡ false → eq_bytes a b ≡ false → lt_bytes b a ≡ true
unfolding compare_bytes
lt_of_not [] [] h k = cc
lt_of_not [] (y ∷ ys) h k = cc
lt_of_not (x ∷ xs) [] h k = refl
lt_of_not (x ∷ xs) (y ∷ ys) h k = ground (arith, lt_of_not xs ys)

pub eq_bytes_sym : (a b : Bytes) → eq_bytes a b ≡ eq_bytes b a
unfolding compare_bytes
eq_bytes_sym [] [] = refl
eq_bytes_sym [] (y ∷ ys) = refl
eq_bytes_sym (x ∷ xs) [] = refl
eq_bytes_sym (x ∷ xs) (y ∷ ys) = ground (arith, eq_bytes_sym xs ys)
