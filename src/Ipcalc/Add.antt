-- ===== src/Ipcalc/Add.antt =====
-- AddIPToRange inserts an address into the set that a canonical list of ranges stands for. Address
-- `::` is left out, since the code subtracts one from it.
use rancher_flat_network.Prelude.{
  ℕ, ◌+◌, ◌≤◌, ◌<◌, ◌≡◌, refl, false, ◌||◌, List, [], ◌∷◌, ◌++◌, arith, ◌==◌, is_empty, ◌⊎◌, inl,
  inr, ap, ◌∙◌, sym, Option, none, some, if◌then◌else◌, Bool-cases, Option-cases, subst,
}
use rancher_flat_network.Net.{Ip, ip_equal, le_bytes}
use rancher_flat_network.Net.Value.{
  value, IsIp16, le_bytes-value, ip_equal-value, value-lt-count, value_injective,
}
use rancher_flat_network.Types.{IpRange}
use rancher_flat_network.Ipcalc.{
  ip_increase, ip_decrease, connect, extend_range, insert_range, sort_ranges, add_ip_to_range,
}
use rancher_flat_network.Ipcalc.Increase.{
  value-ip_increase, value-ip_decrease, ip_increase-IsIp16, ip_decrease-IsIp16,
}
use rancher_flat_network.Ipcalc.Canonical.{
  IsRange, contains, IsCanonical, ip_in_ranges-contains, IsCanonical-All,
}

pub value-ip_decrease_pos : (a : Ip) → IsIp16 a → 1 ≤ value a → value (ip_decrease a) + 1 ≡ value a
value-ip_decrease_pos a h p = omega (arith, value-ip_decrease a h, value-lt-count a h)

-- An address borders on the range below it or above it.
module _ (ip a : Ip) (hi : IsIp16 ip) (ha : IsIp16 a) where
  pub equal_decrease : 1 ≤ value a → ip_equal ip (ip_decrease a) ≡ (value ip + 1 == value a)
  equal_decrease p = ground (
    arith,
    ip_equal-value ip (ip_decrease a) hi (ip_decrease-IsIp16 a ha),
    value-ip_decrease_pos a ha p,
  )

  pub equal_increase : 1 ≤ value ip → ip_equal ip (ip_increase a) ≡ (value ip == value a + 1)
  equal_increase p = ground (
    arith,
    ip_equal-value ip (ip_increase a) hi (ip_increase-IsIp16 a ha),
    value-ip_increase a ha,
    value-lt-count a ha,
    value-lt-count ip hi,
  )

ip_increase_eq : (ip a : Ip) → IsIp16 ip → IsIp16 a → value ip ≡ value a + 1 → ip_increase a ≡ ip
ip_increase_eq ip a hi ha e =
    value_injective (ip_increase a) ip (ip_increase-IsIp16 a ha).0 hi.0
      ((ip_increase-IsIp16 a ha).1 ∙ sym hi.1)
      (omega (arith, value-ip_increase a ha, value-lt-count ip hi))

-- The set that a list stands for, with one more address.
abbrev pub Inserts : ℕ → List IpRange → List IpRange → Type 0
Inserts v rs out = (n : ℕ) → contains n out ≡ (n == v || contains n rs)

module _ (ip : Ip) (hi : IsIp16 ip) where
  connect_lem :
      (b : ℕ) (r : IpRange) (rs : List IpRange)
      → IsCanonical b (r ∷ rs)
      → 1 ≤ b
      → value ip ≡ value r.to + 1
      → IsCanonical b (connect ip r rs) × Inserts (value ip) (r ∷ rs) (connect ip r rs)
  unfolding connect contains
  connect_lem b r [] h p e = (((h.0.0, hi), h.1, omega arith, tt), λ n. ground arith)
  connect_lem b r (s ∷ rs) h p e =
      let test = equal_decrease ip s.from hi h.3.0.0 (omega arith) in
      elim (Bool-cases (value ip + 1 == value s.from)) [
        | inl joins ↦ (ground arith, λ n. ground arith)
        | inr apart ↦ (ground arith, λ n. ground arith)
      ]

  -- Nothing above the bound borders on an address that lies well below it.
  extend_below :
      (b : ℕ) (rs : List IpRange)
      → IsCanonical b rs
      → 1 ≤ value ip
      → value ip + 1 < b
      → extend_range ip rs ≡ none
  unfolding extend_range
  extend_below b [] h p lt = refl
  extend_below b (r ∷ rs) h p lt = ground (
    arith,
    equal_decrease ip r.from hi h.0.0,
    equal_increase ip r.to hi h.0.1,
    extend_below (value r.to + 2) rs h.3,
  )

  -- A range is extended, or two are joined.
  abbrev Extends : ℕ → List IpRange → List IpRange → Type 0
  Extends b rs out = IsCanonical b out × Inserts (value ip) rs out

  with_out :
      (b : ℕ) (rs o out : List IpRange) {x : Option (List IpRange)}
      → x ≡ some out
      → x ≡ some o
      → Extends b rs o
      → Extends b rs out
  with_out b rs o out e f h = let same : o ≡ out = cc in subst (Extends b rs) same h

  extend_head :
      (b : ℕ) (r : IpRange) (rs : List IpRange)
      → IsCanonical b (r ∷ rs)
      → 1 ≤ b
      → b ≤ value ip
      → value ip + 1 ≡ value r.from
      → Extends b (r ∷ rs) (record r { from = ip_decrease r.from } ∷ rs)
  unfolding contains
  extend_head b r rs h p q e =
      let d = value-ip_decrease_pos r.from h.0.0 (omega arith) in
      (((ip_decrease-IsIp16 r.from h.0.0, h.0.1), omega arith, omega arith, h.3), λ n. ground arith)

  extend_tail :
      (b : ℕ) (r : IpRange) (rs o : List IpRange)
      → IsCanonical b (r ∷ rs)
      → Extends (value r.to + 2) rs o
      → Extends b (r ∷ rs) (r ∷ o)
  unfolding contains
  extend_tail b r rs o h x = ((h.0, h.1, h.2, x.0), λ n. ground (arith, x.1 n))

  extend_range-some :
      (b : ℕ) (rs out : List IpRange)
      → IsCanonical b rs
      → 1 ≤ b
      → b ≤ value ip
      → contains (value ip) rs ≡ false
      → extend_range ip rs ≡ some out
      → Extends b rs out
  unfolding extend_range contains
  extend_range-some b [] out h p q free e = cc
  extend_range-some b (r ∷ rs) out h p q free e =
      let below = equal_decrease ip r.from hi h.0.0 (omega arith) in
      let above = equal_increase ip r.to hi h.0.1 (omega arith) in
      elim (Bool-cases (value ip + 1 == value r.from)) [
        | inl touches ↦
            with_out b (r ∷ rs) (record r { from = ip_decrease r.from } ∷ rs) out e (ground arith)
              (extend_head b r rs h p q (ground arith))
        | inr low ↦ elim (Bool-cases (value ip == value r.to + 1)) [
          | inl touches ↦
              let up : value ip ≡ value r.to + 1 = ground arith in
              let same : ip_increase r.to ≡ ip = ip_increase_eq ip r.to hi h.0.1 up in
              with_out b (r ∷ rs) (connect ip r rs) out e (rw (← same) (ground arith))
                (connect_lem b r rs h p up)
          | inr high ↦ elim (Option-cases (extend_range ip rs)) [
            | inl nothing ↦ absurd (ground arith)
            | inr (o, found) ↦
                let beyond : value r.to + 2 ≤ value ip =
                  ground (arith, extend_below (value r.to + 2) rs h.3) in
                with_out b (r ∷ rs) (r ∷ o) out e (ground arith) (
                  extend_tail b r rs o h (
                    extend_range-some (value r.to + 2) rs o h.3 (omega arith) beyond (ground arith)
                      found))
          ]
        ]
      ]

-- The sorted list with one more range.
place : IpRange → List IpRange → List IpRange
place x [] = x ∷ []
place x (r ∷ rs) = if le_bytes r.from x.from then r ∷ place x rs else x ∷ r ∷ rs

insert_range-place :
    (b : ℕ) (r x : IpRange) (rs : List IpRange)
    → IsCanonical b (r ∷ rs)
    → IsRange x
    → insert_range r (place x rs) ≡ place x (r ∷ rs)
unfolding insert_range place
insert_range-place b r x [] h hx =
    ground (arith, le_bytes-value r.from x.from h.0.0 hx.0, le_bytes-value x.from r.from hx.0 h.0.0)
insert_range-place b r x (s ∷ rs) h hx = ground (
  arith,
  le_bytes-value r.from x.from h.0.0 hx.0,
  le_bytes-value x.from r.from hx.0 h.0.0,
  le_bytes-value r.from s.from h.0.0 h.3.0.0,
  le_bytes-value s.from x.from h.3.0.0 hx.0,
)

-- To append a range and sort is to place it.
sort_ranges-append :
    (b : ℕ) (x : IpRange) (rs : List IpRange)
    → IsCanonical b rs
    → IsRange x
    → sort_ranges (rs ++ x ∷ []) ≡ place x rs
unfolding sort_ranges place insert_range
sort_ranges-append b x [] h hx = refl
sort_ranges-append b x (r ∷ rs) h hx =
    ap (insert_range r) (sort_ranges-append (value r.to + 2) x rs h.3 hx)
    ∙ insert_range-place b r x rs h hx

module _ (ip : Ip) (hi : IsIp16 ip) where
  abbrev alone : IpRange
  alone = record { from = ip; to = ip }

  -- An address that borders on no range becomes a range of its own.
  place_lem :
      (b : ℕ) (rs : List IpRange)
      → IsCanonical b rs
      → 1 ≤ b
      → b ≤ value ip
      → contains (value ip) rs ≡ false
      → extend_range ip rs ≡ none
      → IsCanonical b (place alone rs) × Inserts (value ip) rs (place alone rs)
  unfolding place contains extend_range
  place_lem b [] h p q free e = (((hi, hi), q, omega arith, tt), λ n. ground arith)
  place_lem b (r ∷ rs) h p q free e =
      let below = equal_decrease ip r.from hi h.0.0 (omega arith) in
      let above = equal_increase ip r.to hi h.0.1 (omega arith) in
      let order = le_bytes-value r.from ip h.0.0 hi in
      let nothing : extend_range ip rs ≡ none = ground arith in
      let gap : (value ip + 1 < value r.from) ⊎ (value r.to + 2 ≤ value ip) = ground arith in
      elim gap [
        | inl low ↦ (ground arith, λ n. ground arith)
        | inr high ↦
            let ih = place_lem (value r.to + 2) rs h.3 (omega arith) high (ground arith) nothing in
            (ground arith, λ n. ground (arith, ih.1 n))
      ]

  is_empty_IsIp16 : is_empty ip ≡ false
  is_empty_IsIp16 = ground arith

  -- On a list that is canonical from a positive bound on, and for an address of 16 bytes at or above
  -- the bound, AddIPToRange adds exactly the address, and keeps the list canonical.
  pub add_ip_to_range-Extends :
      (b : ℕ) (rs : List IpRange)
      → IsCanonical b rs
      → 1 ≤ b
      → b ≤ value ip
      → IsCanonical b (add_ip_to_range ip rs) × Inserts (value ip) rs (add_ip_to_range ip rs)
  unfolding add_ip_to_range
  add_ip_to_range-Extends b rs h p q =
      let test = ip_in_ranges-contains ip rs hi (IsCanonical-All b rs h) in
      let given = is_empty_IsIp16 in
      elim (Bool-cases (contains (value ip) rs)) [
        | inl present ↦
            let e : add_ip_to_range ip rs ≡ rs = ground arith in
            subst (Extends ip hi b rs) (sym e) (h, λ n. ground arith)
        | inr free ↦ elim (Option-cases (extend_range ip rs)) [
          | inl nothing ↦
              let sorted = sort_ranges-append b alone rs h (hi, hi) in
              let e : add_ip_to_range ip rs ≡ place alone rs = ground arith in
              subst (Extends ip hi b rs) (sym e) (place_lem b rs h p q free nothing)
          | inr (out, found) ↦
              let e : add_ip_to_range ip rs ≡ out = ground arith in
              subst (Extends ip hi b rs) (sym e) (extend_range-some ip hi b rs out h p q free found)
        ]
      ]
