-- ===== src/Slices.antt =====
-- What the program uses of Go's `slices` package on slices of strings: Sort and BinarySearch.
pub mod Order
pub mod Binary
pub mod Sorted
use rancher_flat_network.Prelude.{
  ℕ, suc, zero, ◌+◌, ◌/◌, Bool, ◌&&◌, List, [], ◌∷◌, if◌then◌else◌, ltb, length, get_or,
}
use rancher_flat_network.Net.{Bytes, le_bytes, lt_bytes, eq_bytes}

-- slices.Sort; equal strings cannot be told apart, so every sorting algorithm gives this list.
unfoldable pub insert : Bytes → List Bytes → List Bytes
insert m [] = m ∷ []
insert m (x ∷ xs) = if le_bytes m x then m ∷ x ∷ xs else x ∷ insert m xs

unfoldable pub sort : List Bytes → List Bytes
sort [] = []
sort (m ∷ ms) = insert m (sort ms)

-- The loop of slices.BinarySearch between `i` and `j`; each round halves the distance, so the
-- length of the slice is fuel enough.
unfoldable pub binary_loop : ℕ → List Bytes → Bytes → ℕ → ℕ → ℕ
binary_loop zero xs t i j = i
binary_loop (suc fuel) xs t i j =
    let h = (i + j) / 2 in
    let above = binary_loop fuel xs t (h + 1) j in
    let below = binary_loop fuel xs t i h in
    if ltb i j then (if lt_bytes (get_or xs h []) t then above else below) else i

-- The place of the string, and whether it is there.
unfoldable pub binary_search : List Bytes → Bytes → ℕ × Bool
binary_search xs t =
    let i = binary_loop (suc (length xs)) xs t 0 (length xs) in
    (i, ltb i (length xs) && eq_bytes (get_or xs i []) t)
