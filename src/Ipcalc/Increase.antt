-- ===== src/Ipcalc/Increase.antt =====
-- IPIncrease and IPDecrease add and subtract one, modulo the number of addresses.
use rancher_flat_network.Prelude.{
  ℕ, ◌+◌, ◌*◌, ◌%◌, ◌≡◌, refl, [], ◌∷◌, arith, length, ap, sym, ◌∙◌, if◌then◌else◌, Bool-cases, inl,
  inr, ◌-◌,
}
use rancher_flat_network.Net.{Ip, IsBytes}
use rancher_flat_network.Net.Value.{
  size, value, Order-cases, IsIp16, address_count, size_ip16, value-lt-count,
}
use rancher_flat_network.Ipcalc.{increase_loop, ip_increase, decrease_loop, ip_decrease}

increase_loop-length : (ip : Ip) → length (increase_loop ip).1 ≡ length ip
unfolding increase_loop
increase_loop-length [] = refl
increase_loop-length (x ∷ xs) = ground (arith, increase_loop-length xs)

size-increase_loop : (ip : Ip) → size (increase_loop ip).1 ≡ size ip
unfolding increase_loop size
size-increase_loop [] = refl
size-increase_loop (x ∷ xs) = ground (arith, size-increase_loop xs)

increase_loop-IsBytes : (ip : Ip) → IsBytes ip → IsBytes (increase_loop ip).1
unfolding increase_loop
increase_loop-IsBytes [] b = tt
increase_loop-IsBytes (x ∷ xs) b = ground (arith, increase_loop-IsBytes xs b.1)

-- The loop runs past the front exactly at the last address, and wraps round to zero.
value-increase_loop :
    (ip : Ip)
    → IsBytes ip
    → value (increase_loop ip).1 + (if (increase_loop ip).0 then size ip else 0) ≡ value ip + 1
unfolding increase_loop value size
value-increase_loop [] b = refl
value-increase_loop (x ∷ xs) b =
    let s : size (increase_loop xs).1 ≡ size xs = size-increase_loop xs in
    let t : x * size (increase_loop xs).1 ≡ x * size xs = ap (λ (k : ℕ). x * k) s in
    let ih = value-increase_loop xs b.1 in
    elim (Bool-cases (increase_loop xs).0) [
      | inl wraps ↦ elim (Order-cases (x + 1) 256) [
        | inl lt ↦
            let m : (x + 1) % 256 ≡ x + 1 = omega arith in
            let u : (x + 1) % 256 * size xs ≡ (x + 1) * size xs = ap (λ (k : ℕ). k * size xs) m in
            let v : (x + 1) % 256 * size (increase_loop xs).1 ≡ (x + 1) % 256 * size xs =
              ap (λ (k : ℕ). (x + 1) % 256 * k) s in
            ground arith
        | inr (inl eq) ↦
            let m : (x + 1) % 256 ≡ 0 = omega arith in
            let u : (x + 1) % 256 * size (increase_loop xs).1 ≡ 0 * size (increase_loop xs).1 =
              ap (λ (k : ℕ). k * size (increase_loop xs).1) m in
            let n : x ≡ 255 = omega arith in
            let v : x * size xs ≡ 255 * size xs = ap (λ (k : ℕ). k * size xs) n in ground arith
        | inr (inr gt) ↦ absurd (omega arith)
      ]
      | inr stops ↦ ground arith
    ]

decrease_loop-length : (ip : Ip) → length (decrease_loop ip).1 ≡ length ip
unfolding decrease_loop
decrease_loop-length [] = refl
decrease_loop-length (x ∷ xs) = ground (arith, decrease_loop-length xs)

size-decrease_loop : (ip : Ip) → size (decrease_loop ip).1 ≡ size ip
unfolding decrease_loop size
size-decrease_loop [] = refl
size-decrease_loop (x ∷ xs) = ground (arith, size-decrease_loop xs)

decrease_loop-IsBytes : (ip : Ip) → IsBytes ip → IsBytes (decrease_loop ip).1
unfolding decrease_loop
decrease_loop-IsBytes [] b = tt
decrease_loop-IsBytes (x ∷ xs) b = ground (arith, decrease_loop-IsBytes xs b.1)

-- The loop runs past the front exactly at address zero, and wraps round to the last address.
value-decrease_loop :
    (ip : Ip)
    → IsBytes ip
    → value (decrease_loop ip).1 + 1 ≡ value ip + (if (decrease_loop ip).0 then size ip else 0)
unfolding decrease_loop value size
value-decrease_loop [] b = refl
value-decrease_loop (x ∷ xs) b =
    let s : size (decrease_loop xs).1 ≡ size xs = size-decrease_loop xs in
    let t : x * size (decrease_loop xs).1 ≡ x * size xs = ap (λ (k : ℕ). x * k) s in
    let ih = value-decrease_loop xs b.1 in
    elim (Bool-cases (decrease_loop xs).0) [
      | inl wraps ↦ elim (Order-cases 0 x) [
        | inl lt ↦
            let m : (x + 255) % 256 ≡ x - 1 = omega arith in
            let u : (x + 255) % 256 * size xs + size xs ≡ x * size xs =
              let w : (x + 255) % 256 + 1 ≡ x = omega arith in
              omega (arith, ap (λ (k : ℕ). k * size xs) w) in
            let v : (x + 255) % 256 * size (decrease_loop xs).1 ≡ (x + 255) % 256 * size xs =
              ap (λ (k : ℕ). (x + 255) % 256 * k) s in
            ground arith
        | inr (inl eq) ↦
            let m : (x + 255) % 256 ≡ 255 = omega arith in
            let u : (x + 255) % 256 * size (decrease_loop xs).1 ≡ 255 * size (decrease_loop xs).1 =
              ap (λ (k : ℕ). k * size (decrease_loop xs).1) m in
            let v : x * size xs ≡ 0 * size xs = ap (λ (k : ℕ). k * size xs) (sym eq) in ground arith
        | inr (inr gt) ↦ absurd (omega arith)
      ]
      | inr stops ↦ ground arith
    ]

pub ip_increase-IsIp16 : (ip : Ip) → IsIp16 ip → IsIp16 (ip_increase ip)
unfolding ip_increase
ip_increase-IsIp16 ip h = (increase_loop-IsBytes ip h.0, increase_loop-length ip ∙ h.1)

pub ip_decrease-IsIp16 : (ip : Ip) → IsIp16 ip → IsIp16 (ip_decrease ip)
unfolding ip_decrease
ip_decrease-IsIp16 ip h = (decrease_loop-IsBytes ip h.0, decrease_loop-length ip ∙ h.1)

-- On 16 bytes IPIncrease adds one, modulo the number of addresses.
pub value-ip_increase :
    (ip : Ip) → IsIp16 ip → value (ip_increase ip) ≡ (value ip + 1) % address_count
unfolding ip_increase
value-ip_increase ip h = ground (
  arith,
  value-increase_loop ip h.0,
  size_ip16 ip h.1,
  value-lt-count ip h,
  value-lt-count (ip_increase ip) (ip_increase-IsIp16 ip h),
)

-- On 16 bytes IPDecrease subtracts one, modulo the number of addresses.
pub value-ip_decrease :
    (ip : Ip)
    → IsIp16 ip
    → value (ip_decrease ip) ≡ (value ip + (address_count - 1)) % address_count
unfolding ip_decrease
value-ip_decrease ip h = ground (
  arith,
  value-decrease_loop ip h.0,
  size_ip16 ip h.1,
  value-lt-count ip h,
  value-lt-count (ip_decrease ip) (ip_decrease-IsIp16 ip h),
)
