-- ===== src/Ipcalc/Remove.antt =====
-- RemoveIPFromRange takes an address out of the set that a canonical list of ranges stands for.
use rancher_flat_network.Prelude.{
  ℕ, ◌+◌, ◌≤◌, ◌<◌, ◌≡◌, refl, false, not, ◌&&◌, List, [], ◌∷◌, ◌++◌, arith, ◌==◌, is_empty, ◌⊎◌,
  inl, inr, ap, ◌∙◌, sym, Bool-cases, subst,
}
use rancher_flat_network.Net.{Ip}
use rancher_flat_network.Net.Value.{
  Order-cases, value, IsIp16, le_bytes-value, compare_bytes-value, value-lt-count, to16_of_IsIp16,
}
use rancher_flat_network.Types.{IpRange}
use rancher_flat_network.Ipcalc.{
  ip_increase, ip_decrease, insert_range, sort_ranges, cut_range, cut_ranges, remove_ip_from_range,
}
use rancher_flat_network.Ipcalc.Increase.{
  value-ip_increase, value-ip_decrease, ip_increase-IsIp16, ip_decrease-IsIp16,
}
use rancher_flat_network.Ipcalc.Canonical.{
  IsRange, contains, IsCanonical, contains_below, ip_in_ranges-contains, IsCanonical-All,
  IsCanonical-mono,
}

-- The set that a list stands for, with one address less.
abbrev pub Deletes : ℕ → List IpRange → List IpRange → Type 0
Deletes v rs out = (n : ℕ) → contains n out ≡ (not (n == v) && contains n rs)

sort_ranges_of_IsCanonical : (b : ℕ) (rs : List IpRange) → IsCanonical b rs → sort_ranges rs ≡ rs
unfolding sort_ranges insert_range
sort_ranges_of_IsCanonical b [] h = refl
sort_ranges_of_IsCanonical b (r ∷ []) h = refl
sort_ranges_of_IsCanonical b (r ∷ s ∷ rs) h =
    ap (insert_range r) (sort_ranges_of_IsCanonical (value r.to + 2) (s ∷ rs) h.3)
    ∙ ground (arith, le_bytes-value r.from s.from h.0.0 h.3.0.0)

module _ (ip : Ip) (hi : IsIp16 ip) where
  -- A range that ends below the address, or begins above it, stays.
  cut_range_apart :
      (r : IpRange)
      → IsRange r
      → (value r.to < value ip) ⊎ (value ip < value r.from)
      → value r.from ≤ value r.to
      → cut_range ip r ≡ r ∷ []
  unfolding cut_range
  cut_range_apart r h apart le = ground (
    arith,
    to16_of_IsIp16 r.from h.0,
    to16_of_IsIp16 r.to h.1,
    compare_bytes-value r.from ip h.0.0 hi.0 (h.0.1 ∙ sym hi.1),
    compare_bytes-value r.to ip h.1.0 hi.0 (h.1.1 ∙ sym hi.1),
  )

  -- Nothing above the bound is cut by an address below it.
  cut_ranges_below :
      (b : ℕ) (rs : List IpRange) → IsCanonical b rs → value ip < b → cut_ranges ip rs ≡ rs
  unfolding cut_ranges
  cut_ranges_below b [] h lt = refl
  cut_ranges_below b (r ∷ rs) h lt = rw (
    cut_range_apart r h.0 (inr (omega arith)) h.2,
    cut_ranges_below (value r.to + 2) rs h.3 (omega arith),
  )

  abbrev Cuts : ℕ → IpRange → List IpRange → List IpRange → Type 0
  Cuts b r rs o = IsCanonical b (o ++ rs) × Deletes (value ip) (r ∷ rs) (o ++ rs)

  -- The range that holds the address is shortened, split in two or dropped.
  cut_range_within :
      (b : ℕ) (r : IpRange) (rs : List IpRange)
      → IsCanonical b (r ∷ rs)
      → value r.from ≤ value ip
      → value ip ≤ value r.to
      → Cuts b r rs (cut_range ip r)
  unfolding cut_range contains
  cut_range_within b r rs h p q =
      let f = to16_of_IsIp16 r.from h.0.0 in
      let t = to16_of_IsIp16 r.to h.0.1 in
      let c = compare_bytes-value r.from ip h.0.0.0 hi.0 (h.0.0.1 ∙ sym hi.1) in
      let d = compare_bytes-value r.to ip h.0.1.0 hi.0 (h.0.1.1 ∙ sym hi.1) in
      let up = value-ip_increase ip hi in
      let down = value-ip_decrease ip hi in
      let up16 = ip_increase-IsIp16 ip hi in
      let down16 = ip_decrease-IsIp16 ip hi in
      let top = value-lt-count r.to h.0.1 in
      let bound = value-lt-count ip hi in
      let low : IpRange = record { from = r.from; to = ip_decrease ip } in
      let high : IpRange = record { from = ip_increase ip; to = r.to } in
      elim (Order-cases (value r.from) (value ip)) [
        | inl before ↦ elim (Order-cases (value ip) (value r.to)) [
          | inl behind ↦
              let e : cut_range ip r ≡ low ∷ high ∷ [] = ground arith in
              subst (Cuts b r rs) (sym e) (
                (
                  (h.0.0, down16),
                  omega arith,
                  omega arith,
                  ((up16, h.0.1), omega arith, omega arith, h.3),
                ),
                λ n. ground (arith, contains_below n (value r.to + 2) rs),
              )
          | inr (inl last) ↦
              let e : cut_range ip r ≡ low ∷ [] = ground arith in
              subst (Cuts b r rs) (sym e) (
                (
                  (h.0.0, down16),
                  omega arith,
                  omega arith,
                  IsCanonical-mono (value (ip_decrease ip) + 2) (value r.to + 2) rs (omega arith)
                      h.3,
                ),
                λ n. ground (arith, contains_below n (value r.to + 2) rs),
              )
          | inr (inr past) ↦ absurd (omega arith)
        ]
        | inr (inl first) ↦ elim (Order-cases (value ip) (value r.to)) [
          | inl behind ↦
              let e : cut_range ip r ≡ high ∷ [] = ground arith in
              subst (Cuts b r rs) (sym e) (
                ((up16, h.0.1), omega arith, omega arith, h.3),
                λ n. ground (arith, contains_below n (value r.to + 2) rs),
              )
          | inr (inl last) ↦
              let e : cut_range ip r ≡ [] = ground arith in
              subst (Cuts b r rs) (sym e) (
                IsCanonical-mono b (value r.to + 2) rs (omega arith) h.3,
                λ n. ground (arith, contains_below n (value r.to + 2) rs),
              )
          | inr (inr past) ↦ absurd (omega arith)
        ]
        | inr (inr past) ↦ absurd (omega arith)
      ]

  cut_ranges-Deletes :
      (b : ℕ) (rs : List IpRange)
      → IsCanonical b rs
      → IsCanonical b (cut_ranges ip rs) × Deletes (value ip) rs (cut_ranges ip rs)
  unfolding cut_ranges contains
  cut_ranges-Deletes b [] h = (tt, λ n. ground arith)
  cut_ranges-Deletes b (r ∷ rs) h = elim (Order-cases (value r.to) (value ip)) [
    | inl beyond ↦
        let ih = cut_ranges-Deletes (value r.to + 2) rs h.3 in
        rw (cut_range_apart r h.0 (inl beyond) h.2)
          ((h.0, h.1, h.2, ih.0), λ n. ground (arith, ih.1 n))
    | inr near ↦ elim (Order-cases (value ip) (value r.from)) [
      | inl below ↦
          rw
            (
              cut_range_apart r h.0 (inr below) h.2,
              cut_ranges_below (value r.to + 2) rs h.3 (omega arith),
            )
            (h, λ n. ground (arith, contains_below n (value r.to + 2) rs))
      | inr within ↦
          rw (cut_ranges_below (value r.to + 2) rs h.3 (omega arith))
            (cut_range_within b r rs h (omega arith) (omega arith))
    ]
  ]

  -- On a canonical list, and for an address of 16 bytes, RemoveIPFromRange takes out exactly the
  -- address, and keeps the list canonical.
  pub remove_ip_from_range-Deletes :
      (b : ℕ) (rs : List IpRange)
      → IsCanonical b rs
      → IsCanonical b (remove_ip_from_range ip rs)
        × Deletes (value ip) rs (remove_ip_from_range ip rs)
  unfolding remove_ip_from_range
  remove_ip_from_range-Deletes b rs h =
      let test = ip_in_ranges-contains ip rs hi (IsCanonical-All b rs h) in
      let same = to16_of_IsIp16 ip hi in
      let given : is_empty ip ≡ false = ground arith in
      let cut = cut_ranges-Deletes b rs h in
      let sorted = sort_ranges_of_IsCanonical b (cut_ranges ip rs) cut.0 in
      elim (Bool-cases (contains (value ip) rs)) [
        | inl present ↦
            let e : remove_ip_from_range ip rs ≡ cut_ranges ip rs = ground arith in rw e cut
        | inr absent ↦
            let e : remove_ip_from_range ip rs ≡ rs = ground arith in rw e (h, λ n. ground arith)
      ]
