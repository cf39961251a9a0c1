-- ===== src/Common/Verdicts.antt =====
-- What the checks of a subnet against itself and against the others come to.
use rancher_flat_network.Prelude.{
  ◌≡◌, refl, Bool, true, false, not, ◌&&◌, List, [], ◌∷◌, arith, is_empty, All, Bool-cases, inl,
  inr, ◌++◌, ap, sym, subst, ℤ, pos, negsuc, eq_ℤ, if◌then◌else◌, ◌⊎◌, ◌↔◌,
}
use rancher_flat_network.Slices.Order.{eq_bytes_refl, eq_of_eq_bytes}
use rancher_flat_network.Ipcalc.Search.Range.{IsOrdered}
use rancher_flat_network.Ipcalc.Disjoint.{Verdict, check_ip_ranges_conflict-Verdict}
use rancher_flat_network.Net.{eq_bytes, IpNet, to16, le_bytes, net_contains}
use rancher_flat_network.Types.{IpRange, FlatNetworkSubnet, Error, Result, ok, err, ◌>>◌}
use rancher_flat_network.Ipcalc.Conflict.{check_network_conflict, check_ip_ranges_conflict}
use rancher_flat_network.Common.Subnet.{
  is_valid_range, is_valid_ranges, is_other, check_subnet_conflict,
}

-- Both ends are addresses of the network, and they stand in order.
abbrev pub is_range_of : IpNet → IpRange → Bool
is_range_of network r =
    not (is_empty (to16 r.from))
    && not (is_empty (to16 r.to))
    && net_contains network (to16 r.from)
    && net_contains network (to16 r.to)
    && le_bytes (to16 r.from) (to16 r.to)

is_valid_range_iff :
    (network : IpNet) (r : IpRange)
    → (is_valid_range network r ≡ ok tt) ↔ (is_range_of network r ≡ true)
unfolding is_valid_range
is_valid_range_iff network r = ((λ e. ground arith), λ e. ground arith)

-- The ranges of a subnet are accepted just where each has two addresses of the network for its ends,
-- the first at most the second.
pub is_valid_ranges_iff :
    (network : IpNet) (rs : List IpRange)
    → (is_valid_ranges rs network ≡ ok tt) ↔ All (λ r. is_range_of network r ≡ true) rs
unfolding is_valid_ranges
is_valid_ranges_iff network [] = ((λ e. tt), λ e. refl)
is_valid_ranges_iff network (r ∷ rs) =
    let one = is_valid_range_iff network r in
    let ih = is_valid_ranges_iff network rs in
    (
      (λ e. (
        one.0 (first_ok (is_valid_range network r) (is_valid_ranges rs network) e),
        ih.0 (second_ok (is_valid_range network r) (is_valid_ranges rs network) e),
      )),
      λ e. rw (one.1 e.0) (ih.1 e.1),
    )
  where
    first_ok : (a b : Result (Unit {0})) → (a >> b) ≡ ok tt → a ≡ ok tt
    first_ok (ok tt) b e = refl
    first_ok (err x) b e = cc

    second_ok : (a b : Result (Unit {0})) → (a >> b) ≡ ok tt → b ≡ ok tt
    second_ok (ok tt) b e = e
    second_ok (err x) b e = cc

-- Another subnet by name, on the same flat mode and VLAN.
abbrev pub IsComparable : FlatNetworkSubnet → FlatNetworkSubnet → Type 0
IsComparable subnet s =
    (¬ (s.name ≡ subnet.name))
    × (s.spec.flat_mode ≡ subnet.spec.flat_mode)
    × (s.spec.vlan ≡ subnet.spec.vlan)

abbrev pub Clashes : FlatNetworkSubnet → FlatNetworkSubnet → Type 0
Clashes subnet s =
    IsComparable subnet s
    × ((e : Error) × (check_network_conflict s.spec.cidr subnet.spec.cidr ≡ err e))

-- Both have ranges, and the verdict is nil just where no address is in the ranges of both; or one has none, and
-- it is the error of the CIDRs.
abbrev pub Decides : FlatNetworkSubnet → FlatNetworkSubnet → Error → Result (Unit {0}) → Type 0
Decides subnet s e v =
    ((¬ (s.spec.ranges ≡ []))
      × (¬ (subnet.spec.ranges ≡ []))
      × Verdict subnet.spec.ranges s.spec.ranges v)
    ⊎ (((s.spec.ranges ≡ []) ⊎ (subnet.spec.ranges ≡ [])) × (v ≡ err e))

-- None clashes and the check passes; or the first one that does decides.
abbrev pub FirstDecides : FlatNetworkSubnet → List FlatNetworkSubnet → Result (Unit {0}) → Type 0
FirstDecides subnet ss v =
    ((v ≡ ok tt) × All (λ s. ¬ Clashes subnet s) ss)
    ⊎ ((before : List FlatNetworkSubnet) × (s : FlatNetworkSubnet) × (after : List
          FlatNetworkSubnet)
        × (e : Error) × (ss ≡ before ++ s ∷ after)
        × All (λ x. ¬ Clashes subnet x) before
        × IsComparable subnet s
        × (check_network_conflict s.spec.cidr subnet.spec.cidr ≡ err e)
        × Decides subnet s e v)

verdict_of : (v : Result (Unit {0})) → (v ≡ ok tt) ⊎ ((e : Error) × (v ≡ err e))
verdict_of (ok tt) = inl refl
verdict_of (err e) = inr (e, refl)

eq_ℤ_refl : (a : ℤ) → eq_ℤ a a ≡ true
eq_ℤ_refl (pos a) = ground arith
eq_ℤ_refl (negsuc a) = ground arith

eq_of_eq_ℤ : (a b : ℤ) → eq_ℤ a b ≡ true → a ≡ b
eq_of_eq_ℤ (pos a) (pos b) e = let same : a ≡ b = ground arith in ap pos same
eq_of_eq_ℤ (pos a) (negsuc b) e = cc
eq_of_eq_ℤ (negsuc a) (pos b) e = cc
eq_of_eq_ℤ (negsuc a) (negsuc b) e = let same : a ≡ b = ground arith in ap negsuc same

is_other-cases :
    (subnet s : FlatNetworkSubnet)
    → ((is_other subnet s ≡ true) × ¬ IsComparable subnet s)
      ⊎ ((is_other subnet s ≡ false) × IsComparable subnet s)
unfolding is_other
is_other-cases subnet s =
    let n = eq_bytes_refl subnet.name in
    let f = eq_bytes_refl subnet.spec.flat_mode in
    let v = eq_ℤ_refl subnet.spec.vlan in
    elim (Bool-cases (eq_bytes s.name subnet.name)) [
      | inl e ↦ inl (rw e refl, λ p. p.0 (eq_of_eq_bytes s.name subnet.name e))
      | inr e ↦ elim (Bool-cases (eq_bytes s.spec.flat_mode subnet.spec.flat_mode)) [
        | inr e1 ↦ inl (ground arith, λ p. let q = p.1 in ground (arith, f, e1, q))
        | inl e1 ↦ elim (Bool-cases (eq_ℤ s.spec.vlan subnet.spec.vlan)) [
          | inr e2 ↦ inl (ground arith, λ p. let q = p.2 in ground (arith, v, e2, q))
          | inl e2 ↦ inr (
            ground arith,
            (
              (λ p. ground (arith, n, e, p)),
              eq_of_eq_bytes s.spec.flat_mode subnet.spec.flat_mode e1,
              eq_of_eq_ℤ s.spec.vlan subnet.spec.vlan e2,
            ),
          )
        ]
      ]
    ]

FirstDecides-step :
    (subnet s : FlatNetworkSubnet) (ss : List FlatNetworkSubnet) (v : Result (Unit {0}))
    → ¬ Clashes subnet s
    → FirstDecides subnet ss v
    → FirstDecides subnet (s ∷ ss) v
FirstDecides-step subnet s ss v n (inl (e, a)) = inl (e, (n, a))
FirstDecides-step subnet s ss v n (inr (before, x, after, e, p, a, m, c, d)) =
    inr (s ∷ before, x, after, e, ap (λ l. s ∷ l) p, (n, a), m, c, d)

by_ranges :
    (rs ss : List IpRange) (e : Error)
    → IsOrdered rs
    → IsOrdered ss
    → let v =
        if not (is_empty ss) && not (is_empty rs) then check_ip_ranges_conflict rs ss else err e in
      ((¬ (ss ≡ [])) × (¬ (rs ≡ [])) × Verdict rs ss v) ⊎ (((ss ≡ []) ⊎ (rs ≡ [])) × (v ≡ err e))
by_ranges rs [] e hr hs = inr (inl refl, refl)
by_ranges [] (s ∷ ss) e hr hs = inr (inr refl, refl)
by_ranges (r ∷ rs) (s ∷ ss) e hr hs =
    inl ((λ p. cc), (λ p. cc), check_ip_ranges_conflict-Verdict (r ∷ rs) (s ∷ ss) hr hs)

-- The ranges of all the subnets have ends of 16 bytes in order. Then the check of a subnet against the others
-- passes where none of another name, on the same flat mode and VLAN, has a CIDR that conflicts. Otherwise the first
-- such subnet of the list decides, whatever is behind it: where both have ranges, the check passes if no address is
-- in the ranges of both and fails with their conflict if some address is; where one of the two has no ranges,
-- it fails with the error of the CIDRs.
pub check_subnet_conflict-FirstDecides :
    (subnet : FlatNetworkSubnet) (ss : List FlatNetworkSubnet)
    → IsOrdered subnet.spec.ranges
    → All (λ s. IsOrdered s.spec.ranges) ss
    → FirstDecides subnet ss (check_subnet_conflict subnet ss)
unfolding check_subnet_conflict
check_subnet_conflict-FirstDecides subnet [] hr hs = inl (refl, tt)
check_subnet_conflict-FirstDecides subnet (s ∷ ss) hr hs =
    let ih = check_subnet_conflict-FirstDecides subnet ss hr hs.1 in
    elim (is_other-cases subnet s) [
      | inl (other, n) ↦ rw other (FirstDecides-step subnet s ss _ (λ p. n p.0) ih)
      | inr (same, p) ↦ elim (verdict_of (check_network_conflict s.spec.cidr subnet.spec.cidr)) [
        | inl apart ↦
            let is : check_subnet_conflict subnet (s ∷ ss) ≡ check_subnet_conflict subnet ss =
              rw same (rw apart refl) in
            subst (λ v. FirstDecides subnet (s ∷ ss) v) (sym is)
              (FirstDecides-step subnet s ss _ (λ q. let r = q.1.1 in cc) ih)
        | inr (e, clash) ↦
            let d = by_ranges subnet.spec.ranges s.spec.ranges e hr hs.0 in
            let is : check_subnet_conflict subnet (s ∷ ss) ≡ (
                if not (is_empty s.spec.ranges) && not (is_empty subnet.spec.ranges)
                then check_ip_ranges_conflict subnet.spec.ranges s.spec.ranges
                else err e) =
              rw same (rw clash refl) in
            inr ([], s, ss, e, refl, tt, p, clash, subst (λ v. Decides subnet s e v) (sym is) d)
      ]
    ]
