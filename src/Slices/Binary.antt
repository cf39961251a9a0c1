-- ===== src/Slices/Binary.antt =====
-- slices.BinarySearch on a sorted slice finds exactly the strings that are in it.
use rancher_flat_network.Prelude.{
  ℕ, suc, zero, ◌+◌, ◌/◌, ◌≤◌, ◌<◌, ◌≡◌, true, false, List, [], arith, length, get_or, ltb,
  Bool-cases, inl, inr, ◌↔◌,
}
use rancher_flat_network.Net.{Bytes, le_bytes, lt_bytes}
use rancher_flat_network.Slices.{binary_loop, binary_search}
use rancher_flat_network.Slices.Order.{le_lt_trans, lt_irrefl, eq_of_eq_bytes, eq_bytes_refl}

-- Strings stand in ascending order.
abbrev pub IsSorted : List Bytes → Type 0
IsSorted xs = (i j : ℕ) → i ≤ j → j < length xs → le_bytes (get_or xs i []) (get_or xs j []) ≡ true

-- Where the search stands: what is below `i` is below `t`, and what is from `j` on is not.
abbrev Brackets : List Bytes → Bytes → ℕ → ℕ → Type 0
Brackets xs t i j =
    ((k : ℕ) → k < i → lt_bytes (get_or xs k []) t ≡ true)
    × ((k : ℕ) → j ≤ k → k < length xs → lt_bytes (get_or xs k []) t ≡ false)

module _ (xs : List Bytes) (t : Bytes) (sorted : IsSorted xs) where
  stays_above :
      (h k : ℕ)
      → h ≤ k
      → k < length xs
      → lt_bytes (get_or xs h []) t ≡ false
      → lt_bytes (get_or xs k []) t ≡ false
  stays_above h k p q above = elim (Bool-cases (lt_bytes (get_or xs k []) t)) [
    | inr no_less ↦ no_less
    | inl less ↦
        let both : lt_bytes (get_or xs h []) t ≡ true =
          le_lt_trans (get_or xs h []) (get_or xs k []) t (sorted h k p q) less in
        cc
  ]

  binary_loop-Brackets :
      (fuel i j : ℕ)
      → i ≤ j
      → j ≤ length xs
      → j < i + fuel
      → Brackets xs t i j
      → (i ≤ binary_loop fuel xs t i j)
        × (binary_loop fuel xs t i j ≤ j)
        × Brackets xs t (binary_loop fuel xs t i j) (binary_loop fuel xs t i j)
  unfolding binary_loop
  binary_loop-Brackets zero i j le top enough b = absurd (omega arith)
  binary_loop-Brackets (suc fuel) i j le top enough b = elim (Bool-cases (ltb i j)) [
    | inr met ↦
        let e : i ≡ j = ground arith in
        rw met (omega arith, omega arith, (b.0, λ k p q. b.1 k (omega arith) q))
    | inl apart ↦
        let lt : i < j = ground arith in
        let h = (i + j) / 2 in
        elim (Bool-cases (lt_bytes (get_or xs ((i + j) / 2) []) t)) [
          | inl below ↦
              let ih =
                binary_loop-Brackets fuel ((i + j) / 2 + 1) j (omega arith) top (omega arith) (
                  λ k p.
                      le_lt_trans (get_or xs k []) (get_or xs ((i + j) / 2) []) t
                        (sorted k ((i + j) / 2) (omega arith) (omega arith)) below,
                  b.1,
                ) in
              let low = ih.0 in rw (apart, below) (omega arith, ih.1, ih.2)
          | inr above ↦
              let ih =
                binary_loop-Brackets fuel i ((i + j) / 2) (omega arith) (omega arith) (omega arith)
                  (b.0, λ k p q. stays_above ((i + j) / 2) k p q above) in
              let high = ih.1 in rw (apart, above) (ih.0, omega arith, ih.2)
        ]
  ]

-- The string stands somewhere in the slice.
abbrev pub IsAmong : Bytes → List Bytes → Type 0
IsAmong t xs = (k : ℕ) × (k < length xs) × (get_or xs k [] ≡ t)

module _ (xs : List Bytes) (t : Bytes) (sorted : IsSorted xs) where
  found-IsAmong : (binary_search xs t).1 ≡ true → IsAmong t xs
  unfolding binary_search
  found-IsAmong h =
      let i = binary_loop (suc (length xs)) xs t 0 (length xs) in
      (i, ground arith, eq_of_eq_bytes (get_or xs i []) t (ground arith))

  IsAmong-found : IsAmong t xs → (binary_search xs t).1 ≡ true
  unfolding binary_search
  IsAmong-found (k, p, e) =
      let i = binary_loop (suc (length xs)) xs t 0 (length xs) in
      let b =
        binary_loop-Brackets xs t sorted (suc (length xs)) 0 (length xs) (omega arith) (omega arith)
          (omega arith) ((λ j q. absurd (omega arith)), λ j q r. absurd (omega arith)) in
      let same : lt_bytes t t ≡ false = lt_irrefl t in
      let reached : i ≤ k = ground (arith, b.2.0 k) in
      let bound : i < length xs = omega arith in
      let below = b.2.1 i (omega arith) bound in
      let above = sorted i k reached p in
      let here : get_or xs i [] ≡ t = ground (arith, eq_of_eq_bytes (get_or xs i []) t) in
      ground (arith, eq_bytes_refl t)

  -- On a sorted slice the search finds exactly the strings that stand in it.
  pub binary_search-IsAmong : ((binary_search xs t).1 ≡ true) ↔ IsAmong t xs
  binary_search-IsAmong = (found-IsAmong, IsAmong-found)
