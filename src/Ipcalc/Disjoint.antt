-- ===== src/Ipcalc/Disjoint.antt =====
-- CheckIPRangesConflict decides whether two lists of ranges are disjoint sets.
use rancher_flat_network.Prelude.{
  ℕ, ◌≤◌, ◌≡◌, refl, Bool, true, false, ◌&&◌, List, [], ◌∷◌, arith, leb, All, ◌⊎◌, inl, inr,
  Bool-cases, if◌then◌else◌,
}
use rancher_flat_network.Net.Value.{value, to16_of_IsIp16}
use rancher_flat_network.Types.{IpRange, Result, ok, err, ip_ranges_conflict}
use rancher_flat_network.Ipcalc.Canonical.{IsRange, contains, ip_in_ranges-contains}
use rancher_flat_network.Ipcalc.Conflict.{
  ip_range_conflict, range_conflicts, check_ip_ranges_conflict,
}
use rancher_flat_network.Ipcalc.Search.Range.{IsOrdered}

-- One address lies in both.
abbrev pub overlaps : IpRange → IpRange → Bool
overlaps r s = leb (value r.from) (value s.to) && leb (value s.from) (value r.to)

ip_range_conflict-overlaps :
    (r s : IpRange)
    → IsRange r × (value r.from ≤ value r.to)
    → IsRange s × (value s.from ≤ value s.to)
    → ip_range_conflict r s ≡ (if overlaps r s then err ip_ranges_conflict else ok tt)
unfolding ip_range_conflict contains
ip_range_conflict-overlaps r s hr hs =
    let sr : All IsRange (r ∷ []) = (hr.0, tt) in
    let ss : All IsRange (s ∷ []) = (hs.0, tt) in
    rw
      (
        to16_of_IsIp16 r.from hr.0.0,
        to16_of_IsIp16 r.to hr.0.1,
        to16_of_IsIp16 s.from hs.0.0,
        to16_of_IsIp16 s.to hs.0.1,
        ip_in_ranges-contains r.from (s ∷ []) hr.0.0 ss,
        ip_in_ranges-contains r.to (s ∷ []) hr.0.1 ss,
        ip_in_ranges-contains s.from (r ∷ []) hs.0.0 sr,
        ip_in_ranges-contains s.to (r ∷ []) hs.0.1 sr,
      )
      (ground arith)

-- No address is in both lists and the result is nil; or some address is, and it is the conflict.
abbrev pub Verdict : List IpRange → List IpRange → Result (Unit {0}) → Type 0
Verdict rs ss v =
    ((v ≡ ok tt) × ((n : ℕ) → (contains n rs && contains n ss) ≡ false))
    ⊎ ((v ≡ err ip_ranges_conflict) × (n : ℕ) × (contains n rs ≡ true) × (contains n ss ≡ true))

-- The first address of two overlapping ranges that is in both.
common : IpRange → IpRange → ℕ
common r s = if leb (value r.from) (value s.from) then value s.from else value r.from

module _ (r : IpRange) (hr : IsRange r × (value r.from ≤ value r.to)) where
  range_conflicts-Verdict :
      (ss : List IpRange) → IsOrdered ss → Verdict (r ∷ []) ss (range_conflicts r ss)
  unfolding range_conflicts contains common
  range_conflicts-Verdict [] h = inl (refl, λ n. ground arith)
  range_conflicts-Verdict (s ∷ ss) h =
      let one = ip_range_conflict-overlaps r s hr h.0 in
      elim (Bool-cases (overlaps r s)) [
        | inl clash ↦ inr (rw (one, clash) refl, common r s, ground arith, ground arith)
        | inr apart ↦ elim (range_conflicts-Verdict ss h.1) [
          | inl (e, none) ↦ inl (rw (one, apart) e, λ n. ground (arith, none n))
          | inr (e, n, p, q) ↦ inr (rw (one, apart) e, n, p, ground arith)
        ]
      ]

-- For two lists of ranges with ends of 16 bytes, each in order, CheckIPRangesConflict returns nil where
-- no address is in both, and the conflict error where some address is.
pub check_ip_ranges_conflict-Verdict :
    (rs ss : List IpRange)
    → IsOrdered rs
    → IsOrdered ss
    → Verdict rs ss (check_ip_ranges_conflict rs ss)
unfolding check_ip_ranges_conflict contains
check_ip_ranges_conflict-Verdict [] ss hr hs = inl (refl, λ n. refl)
check_ip_ranges_conflict-Verdict (r ∷ rs) ss hr hs = elim (range_conflicts-Verdict r hr.0 ss hs) [
  | inr (e, n, p, q) ↦ inr (rw (e, check_ip_ranges_conflict) refl, n, ground arith, q)
  | inl (e, none) ↦ elim (check_ip_ranges_conflict-Verdict rs ss hr.1 hs) [
    | inl (f, rest) ↦ inl (rw (e, check_ip_ranges_conflict) f, λ n. ground (arith, none n, rest n))
    | inr (f, n, p, q) ↦ inr (rw (e, check_ip_ranges_conflict) f, n, ground arith, q)
  ]
]
