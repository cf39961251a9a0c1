-- ===== src/Slices/Sorted.antt =====
-- Ascending slices: slices.Sort gives one, and BinarySearch may be asked on one.
use rancher_flat_network.Prelude.{
  ℕ, suc, zero, ◌<◌, ◌≡◌, refl, true, false, List, [], ◌∷◌, arith, length, get_or, Bool-cases, inl,
  inr, All,
}
use rancher_flat_network.Net.{Bytes, compare_bytes, le_bytes}
use rancher_flat_network.Slices.{insert, sort}
use rancher_flat_network.Slices.Binary.{IsSorted}

le_refl : (a : Bytes) → le_bytes a a ≡ true
unfolding compare_bytes
le_refl [] = refl
le_refl (x ∷ xs) = ground (arith, le_refl xs)

le_total : (a b : Bytes) → le_bytes a b ≡ false → le_bytes b a ≡ true
unfolding compare_bytes
le_total [] [] h = refl
le_total [] (y ∷ ys) h = cc
le_total (x ∷ xs) [] h = refl
le_total (x ∷ xs) (y ∷ ys) h = ground (arith, le_total xs ys)

le_trans : (a b c : Bytes) → le_bytes a b ≡ true → le_bytes b c ≡ true → le_bytes a c ≡ true
unfolding compare_bytes
le_trans [] b [] h k = refl
le_trans [] b (z ∷ zs) h k = refl
le_trans (x ∷ xs) [] c h k = cc
le_trans (x ∷ xs) (y ∷ ys) [] h k = cc
le_trans (x ∷ xs) (y ∷ ys) (z ∷ zs) h k = ground (arith, le_trans xs ys zs)

-- `a` is at most every string of the slice.
abbrev pub IsBelow : Bytes → List Bytes → Type 0
IsBelow a = All (λ x. le_bytes a x ≡ true)

abbrev pub IsAscending : List Bytes → Type 0
IsAscending [] = Unit {0}
IsAscending (x ∷ xs) = IsBelow x xs × IsAscending xs

pub IsBelow-trans :
    (a b : Bytes) (xs : List Bytes) → le_bytes a b ≡ true → IsBelow b xs → IsBelow a xs
IsBelow-trans a b [] h p = tt
IsBelow-trans a b (x ∷ xs) h p = (le_trans a b x h p.0, IsBelow-trans a b xs h p.1)

IsBelow-insert :
    (a m : Bytes) (xs : List Bytes) → le_bytes a m ≡ true → IsBelow a xs → IsBelow a (insert m xs)
unfolding insert
IsBelow-insert a m [] h p = (h, tt)
IsBelow-insert a m (x ∷ xs) h p = elim (Bool-cases (le_bytes m x)) [
  | inl e ↦ rw e (h, p)
  | inr e ↦ rw e (p.0, IsBelow-insert a m xs h p.1)
]

insert-IsAscending : (m : Bytes) (xs : List Bytes) → IsAscending xs → IsAscending (insert m xs)
unfolding insert
insert-IsAscending m [] c = (tt, tt)
insert-IsAscending m (x ∷ xs) c = elim (Bool-cases (le_bytes m x)) [
  | inl e ↦ rw e ((e, IsBelow-trans m x xs e c.0), c)
  | inr e ↦ rw e (IsBelow-insert x m xs (le_total m x e) c.0, insert-IsAscending m xs c.1)
]

pub sort-IsAscending : (xs : List Bytes) → IsAscending (sort xs)
unfolding sort
sort-IsAscending [] = tt
sort-IsAscending (x ∷ xs) = insert-IsAscending x (sort xs) (sort-IsAscending xs)

below_at :
    (a : Bytes) (xs : List Bytes) (k : ℕ)
    → IsBelow a xs
    → k < length xs
    → le_bytes a (get_or xs k []) ≡ true
below_at a [] k p q = absurd (omega arith)
below_at a (x ∷ xs) zero p q = p.0
below_at a (x ∷ xs) (suc k) p q = below_at a xs k p.1 (omega arith)

pub ascending-IsSorted : (xs : List Bytes) → IsAscending xs → IsSorted xs
ascending-IsSorted [] c i j p q = absurd (omega arith)
ascending-IsSorted (x ∷ xs) c zero zero p q = le_refl x
ascending-IsSorted (x ∷ xs) c zero (suc j) p q = below_at x xs j c.0 (omega arith)
ascending-IsSorted (x ∷ xs) c (suc i) zero p q = absurd (omega arith)
ascending-IsSorted (x ∷ xs) c (suc i) (suc j) p q =
    ascending-IsSorted xs c.1 i j (omega arith) (omega arith)
