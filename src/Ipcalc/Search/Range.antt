-- ===== src/Ipcalc/Search/Range.antt =====
-- The search of a range returns its first free address, and fails only where there is none.
use rancher_flat_network.Prelude.{
  ℕ, suc, zero, ◌+◌, ◌-◌, ◌≤◌, ◌<◌, ◌≡◌, true, false, List, [], ◌∷◌, arith, All, inl, inr, ◌∙◌, sym,
  is_empty, Bool-cases,
}
use rancher_flat_network.Net.{Ip, le_bytes, ip_equal, IpNet}
use rancher_flat_network.Net.Value.{
  value, IsIp16, le_bytes-value, ip_equal-value, address_count, to16_of_IsIp16, value_injective,
  Order-cases,
}
use rancher_flat_network.Types.{IpRange}
use rancher_flat_network.Ipcalc.{ip_increase}
use rancher_flat_network.Ipcalc.Increase.{value-ip_increase, ip_increase-IsIp16}
use rancher_flat_network.Ipcalc.Canonical.{IsRange, contains, ip_in_ranges-contains}
use rancher_flat_network.Ipcalc.Search.{
  Search, found, exhausted, running, skip_used, is_free, search_range, search_one,
}

-- No address numbered from `a` up to `b`, `b` left out, is free.
abbrev pub NoneFree : IpNet → List IpRange → ℕ → ℕ → Type 0
NoneFree network used a b =
    (x : Ip) → IsIp16 x → a ≤ value x → value x < b → is_free network used x ≡ false

-- What a search between two numbers may return: the first free address, or nothing.
abbrev pub FirstFree : IpNet → List IpRange → ℕ → ℕ → Search → Type 0
FirstFree network used a b (found ip) =
    IsIp16 ip
    × (a ≤ value ip)
    × (value ip ≤ b)
    × (is_free network used ip ≡ true)
    × NoneFree network used a (value ip)
FirstFree network used a b exhausted = NoneFree network used a (b + 1)
FirstFree network used a b running = ⊥

module _ (network : IpNet) (used : List IpRange) where
  pub NoneFree-step :
      (ip : Ip) (b : ℕ)
      → IsIp16 ip
      → is_free network used ip ≡ false
      → NoneFree network used (value ip + 1) b
      → NoneFree network used (value ip) b
  NoneFree-step ip b h e rest x hx le lt = elim (Order-cases (value ip) (value x)) [
    | inl below ↦ rest x hx (omega arith) lt
    | inr (inl here) ↦
        let same : ip ≡ x = value_injective ip x h.0 hx.0 (h.1 ∙ sym hx.1) here in rw same at e
    | inr (inr above) ↦ absurd (omega arith)
  ]

  FirstFree-step :
      (ip : Ip) (b : ℕ) (s : Search)
      → IsIp16 ip
      → is_free network used ip ≡ false
      → FirstFree network used (value ip + 1) b s
      → FirstFree network used (value ip) b s
  FirstFree-step ip b (found a) h e f =
      (f.0, omega arith, f.2, f.3, NoneFree-step ip (value a) h e f.4)
  FirstFree-step ip b exhausted h e f = NoneFree-step ip (b + 1) h e f
  FirstFree-step ip b running h e f = f

  FirstFree-from :
      (a b c : ℕ) (s : Search)
      → a ≤ b
      → NoneFree network used a b
      → FirstFree network used b c s
      → FirstFree network used a c s
  FirstFree-from a b c (found ip) le none f = (
    f.0,
    omega arith,
    f.2,
    f.3,
    λ x hx p q. elim (Order-cases (value x) b) [
      | inl below ↦ none x hx p below
      | inr above ↦ f.4 x hx (omega arith) q
    ],
  )
  FirstFree-from a b c exhausted le none f = λ x hx p q. elim (Order-cases (value x) b) [
    | inl below ↦ none x hx p below
    | inr above ↦ f x hx (omega arith) q
  ]
  FirstFree-from a b c running le none f = f

  search_range-FirstFree :
      (fuel : ℕ) (end ip : Ip)
      → IsIp16 end
      → IsIp16 ip
      → value end + 1 < address_count
      → value end + 1 < value ip + fuel
      → 1 ≤ fuel
      → FirstFree network used (value ip) (value end) (search_range fuel network used end ip)
  unfolding search_range
  search_range-FirstFree zero end ip he hi top enough some_fuel = absurd (omega arith)
  search_range-FirstFree (suc fuel) end ip he hi top enough some_fuel =
      let order = le_bytes-value ip end hi he in
      elim (Bool-cases (le_bytes ip end)) [
        | inr past ↦ rw (past, search_range) (λ x hx le lt. absurd (ground arith))
        | inl within ↦ elim (Bool-cases (is_free network used ip)) [
          | inl free ↦
              rw (within, free, search_range)
                (hi, omega arith, ground arith, free, λ x hx le lt. absurd (omega arith))
          | inr taken ↦
              let le : value ip ≤ value end = ground arith in
              let up : value (ip_increase ip) ≡ value ip + 1 =
                omega (arith, value-ip_increase ip hi) in
              rw (within, taken, search_range)
                (FirstFree-step ip (value end) _ hi taken (
                  rw up at (
                    search_range-FirstFree fuel end (ip_increase ip) he (ip_increase-IsIp16 ip hi)
                      top (omega arith) (omega arith))))
        ]
      ]

-- A skip moves over used addresses only.
skip_used_lem :
    (start : Ip) (us : List IpRange)
    → IsIp16 start
    → All IsRange us
    → All (λ u. value u.from ≤ value u.to) us
    → IsIp16 (skip_used start us)
      × (value start ≤ value (skip_used start us))
      × ((n : ℕ) → value start ≤ n → n < value (skip_used start us) → contains n us ≡ true)
unfolding skip_used contains
skip_used_lem start [] h k o = (h, omega arith, λ n le lt. absurd (omega arith))
skip_used_lem start (u ∷ us) h k o =
    let test = ip_equal-value u.from start k.0.0 h in
    let same = to16_of_IsIp16 u.to k.0.1 in
    elim (Bool-cases (ip_equal u.from start)) [
      | inl begins ↦
          let ih = skip_used_lem u.to us k.0.1 k.1 o.1 in
          let e : value u.from ≡ value start = ground arith in
          rw (begins, same) (ih.0, omega (arith, ih.1), λ n le lt. ground (arith, ih.2 n))
      | inr apart ↦
          let ih = skip_used_lem start us h k.1 o.1 in
          rw apart (ih.0, ih.1, λ n le lt. ground (arith, ih.2 n le lt))
    ]

abbrev pub IsOrdered : List IpRange → Type 0
IsOrdered = All (λ r. IsRange r × (value r.from ≤ value r.to))

pub IsOrdered-All : (rs : List IpRange) → IsOrdered rs → All IsRange rs
IsOrdered-All [] h = tt
IsOrdered-All (r ∷ rs) h = (h.0.0, IsOrdered-All rs h.1)

IsOrdered-le : (rs : List IpRange) → IsOrdered rs → All (λ u. value u.from ≤ value u.to) rs
IsOrdered-le [] h = tt
IsOrdered-le (r ∷ rs) h = (h.0.1, IsOrdered-le rs h.1)

-- A range whose end is not the very last address, after which IPIncrease wraps round.
abbrev pub IsBounded : IpRange → Type 0
IsBounded r = IsRange r × (value r.to + 1 < address_count)

module _ (network : IpNet) (used : List IpRange) (hu : IsOrdered used) where
  pub used_not_free :
      (x : Ip) → IsIp16 x → contains (value x) used ≡ true → is_free network used x ≡ false
  unfolding is_free
  used_not_free x hx e = ground (arith, ip_in_ranges-contains x used hx (IsOrdered-All used hu))

  pub search_one-FirstFree :
      (r : IpRange)
      → IsBounded r
      → FirstFree network used (value r.from) (value r.to) (search_one network used r)
  unfolding search_one
  search_one-FirstFree r h =
      let skip = skip_used_lem r.from used h.0.0 (IsOrdered-All used hu) (IsOrdered-le used hu) in
      let start = skip_used r.from used in
      let given : is_empty start ≡ false = ground arith in
      let ended : is_empty r.to ≡ false = ground arith in
      let fuel : ℕ = suc (value r.to + 1 - value start) in
      let s : Search = search_range fuel network used r.to start in
      let first =
        search_range-FirstFree network used fuel r.to start h.0.1 skip.0 h.1 (omega arith)
          (omega arith) in
      rw (to16_of_IsIp16 r.from h.0.0, to16_of_IsIp16 r.to h.0.1, given, ended)
        (FirstFree-from network used (value r.from) (value start) (value r.to) s skip.1
          (λ x hx le lt. used_not_free x hx (skip.2 (value x) le lt)) first)
