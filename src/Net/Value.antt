-- ===== src/Net/Value.antt =====
-- Byte lists read as big-endian numbers: `bytes.Compare` is the order of the numbers.
use rancher_flat_network.Prelude.{
  ℕ, ◌+◌, ◌*◌, ◌^◌, ◌==◌, leb, ltb, ◌∙◌, ◌<◌, ◌≡◌, refl, ap, [], ◌∷◌, compare, Ordering, arith,
  length, ◌≤◌, ◌⊎◌, inl, inr, sym,
}
use native.Mathlib.Nat.{pow-suc}
use rancher_flat_network.Net.{Bytes, Ip, IsBytes, compare_bytes, le_bytes, lt_bytes, to16, ip_equal}

-- The number of byte lists of this length.
unfoldable pub size : Bytes → ℕ
size [] = 1
size (x ∷ xs) = 256 * size xs

unfoldable pub value : Bytes → ℕ
value [] = 0
value (x ∷ xs) = x * size xs + value xs

pub value-lt-size : (xs : Bytes) → IsBytes xs → value xs < size xs
unfolding value size
value-lt-size [] b = omega arith
value-lt-size (x ∷ xs) b = grind (arith, value-lt-size xs b.1)

pub size-eq_of_length : (xs ys : Bytes) → length xs ≡ length ys → size xs ≡ size ys
unfolding size
size-eq_of_length [] [] e = refl
size-eq_of_length [] (y ∷ ys) e = absurd (omega arith)
size-eq_of_length (x ∷ xs) [] e = absurd (omega arith)
size-eq_of_length (x ∷ xs) (y ∷ ys) e = omega (arith, size-eq_of_length xs ys (omega arith))

digits_lt : (x y s v w : ℕ) → x < y → v < s → x * s + v < y * s + w
digits_lt x y s v w h k = let step : (x + 1) * s ≤ y * s = grind arith in omega arith

compare_lt : (a b : ℕ) → a < b → compare a b ≡ Ordering.lt
compare_lt a b h = ground arith

compare_gt : (a b : ℕ) → b < a → compare a b ≡ Ordering.gt
compare_gt a b h = ground arith

compare_add : (c a b : ℕ) → compare (c + a) (c + b) ≡ compare a b
compare_add c a b = ground arith

pub Order-cases : (a b : ℕ) → (a < b) ⊎ (a ≡ b) ⊎ (b < a)
Order-cases a b = ground arith

-- The comparison of two lists of one length is that of their values.
pub compare_bytes-value :
    (xs ys : Bytes)
    → IsBytes xs
    → IsBytes ys
    → length xs ≡ length ys
    → compare_bytes xs ys ≡ compare (value xs) (value ys)
unfolding value compare_bytes
compare_bytes-value [] [] a b e = ground arith
compare_bytes-value [] (y ∷ ys) a b e = absurd (omega arith)
compare_bytes-value (x ∷ xs) [] a b e = absurd (omega arith)
compare_bytes-value (x ∷ xs) (y ∷ ys) a b e =
    let s : size xs ≡ size ys = size-eq_of_length xs ys (omega arith) in
    let vx : value xs < size ys = omega (arith, value-lt-size xs a.1) in
    let vy : value ys < size ys = value-lt-size ys b.1 in
    let t : x * size xs ≡ x * size ys = ap (λ (k : ℕ). x * k) s in
    elim (Order-cases x y) [
      | inl lt ↦ ground (arith, digits_lt x y (size ys) (value xs) (value ys) lt vx)
      | inr (inl eq) ↦
          let u : x * size ys ≡ y * size ys = ap (λ (k : ℕ). k * size ys) eq in
          ground (arith, compare_bytes-value xs ys a.1 b.1 (omega arith))
      | inr (inr gt) ↦ ground (arith, digits_lt y x (size ys) (value ys) (value xs) gt vy)
    ]

pub value_injective :
    (xs ys : Bytes)
    → IsBytes xs
    → IsBytes ys
    → length xs ≡ length ys
    → value xs ≡ value ys
    → xs ≡ ys
unfolding value
value_injective [] [] a b e h = refl
value_injective [] (y ∷ ys) a b e h = absurd (omega arith)
value_injective (x ∷ xs) [] a b e h = absurd (omega arith)
value_injective (x ∷ xs) (y ∷ ys) a b e h =
    let s : size xs ≡ size ys = size-eq_of_length xs ys (omega arith) in
    let vx : value xs < size ys = omega (arith, value-lt-size xs a.1) in
    let vy : value ys < size ys = value-lt-size ys b.1 in
    let t : x * size xs ≡ x * size ys = ap (λ (k : ℕ). x * k) s in
    elim (Order-cases x y) [
      | inl lt ↦ absurd (omega (arith, digits_lt x y (size ys) (value xs) (value ys) lt vx))
      | inr (inl eq) ↦
          let u : x * size ys ≡ y * size ys = ap (λ (k : ℕ). k * size ys) eq in
          cc (eq, value_injective xs ys a.1 b.1 (omega arith) (omega arith))
      | inr (inr gt) ↦ absurd (omega (arith, digits_lt y x (size ys) (value ys) (value xs) gt vy))
    ]

-- An address of 16 bytes, as every address that the API server stores.
abbrev pub IsIp16 : Ip → Type 0
IsIp16 ip = IsBytes ip × (length ip ≡ 16)

size_of_length : (ip : Ip) → size ip ≡ 256 ^ length ip
unfolding size
size_of_length [] = refl
size_of_length (x ∷ xs) = rw (pow-suc 256 (length xs)) (omega (arith, size_of_length xs))

-- The number of IPv6 addresses.
abbrev pub address_count : ℕ
address_count = 2 ^ 128

pub size_ip16 : (ip : Ip) → length ip ≡ 16 → size ip ≡ address_count
size_ip16 ip h = size_of_length ip ∙ ap (λ (n : ℕ). 256 ^ n) h

pub value-lt-count : (ip : Ip) → IsIp16 ip → value ip < address_count
value-lt-count ip h = omega (arith, value-lt-size ip h.0, size_ip16 ip h.1)

-- On addresses of 16 bytes the order, the equality and To16 are those of their values.
module _ (a b : Ip) (ha : IsIp16 a) (hb : IsIp16 b) where
  pub le_bytes-value : le_bytes a b ≡ leb (value a) (value b)
  le_bytes-value = ground (arith, compare_bytes-value a b ha.0 hb.0 (ha.1 ∙ sym hb.1))

  pub lt_bytes-value : lt_bytes a b ≡ ltb (value a) (value b)
  lt_bytes-value = ground (arith, compare_bytes-value a b ha.0 hb.0 (ha.1 ∙ sym hb.1))

  pub ip_equal-value : ip_equal a b ≡ (value a == value b)
  unfolding ip_equal
  ip_equal-value = ground (arith, compare_bytes-value a b ha.0 hb.0 (ha.1 ∙ sym hb.1))

pub to16_of_IsIp16 : (a : Ip) → IsIp16 a → to16 a ≡ a
unfolding to16
to16_of_IsIp16 a h = ground arith
