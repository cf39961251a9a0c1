-- ===== src/Ipcalc/Conflict.antt =====
-- CheckNetworkConflict and CheckIPRangesConflict of pkg/ipcalc/ipcalc.go.
use rancher_flat_network.Prelude.{◌||◌, List, [], ◌∷◌, none, some, if◌then◌else◌, is_empty}
use rancher_flat_network.Net.{Bytes, Ip, to16, ip_equal, IpNet, net_contains}
use rancher_flat_network.Net.Parse.{parse_cidr}
use rancher_flat_network.Types.{
  IpRange, Result, ok, err, network_conflict, ip_ranges_conflict, invalid_range, invalid_cidr,
  ◌>>=◌, ◌>>◌,
}
use rancher_flat_network.Ipcalc.{ip_in_ranges}

unfoldable pub parse_or_err : Bytes → Result (Ip × IpNet)
parse_or_err cidr = elim (parse_cidr cidr) [ none ↦ err invalid_cidr | some p ↦ ok p ]

unfoldable pub overlap : Ip × IpNet → Ip × IpNet → Result (Unit {0})
overlap (ip1, n1) (ip2, n2) =
    if ip_equal ip1 ip2
    then err network_conflict
    else if net_contains n1 ip2
    then err network_conflict
    else if net_contains n2 ip1
    then err network_conflict
    else ok tt

unfoldable pub check_network_conflict : Bytes → Bytes → Result (Unit {0})
unfolding parse_or_err overlap
check_network_conflict cidr1 cidr2 = do
  p1 ← parse_or_err cidr1
  p2 ← parse_or_err cidr2
  overlap p1 p2

unfoldable pub ip_range_conflict : IpRange → IpRange → Result (Unit {0})
ip_range_conflict r1 r2 =
    let a1 = to16 r1.from in
    let a2 = to16 r1.to in
    let b1 = to16 r2.from in
    let b2 = to16 r2.to in
    let a : List IpRange = record { from = a1; to = a2 } ∷ [] in
    let b : List IpRange = record { from = b1; to = b2 } ∷ [] in
    if is_empty a1 || is_empty a2
    then err invalid_range
    else if is_empty b1 || is_empty b2
    then err invalid_range
    else if ip_in_ranges a1 b || ip_in_ranges a2 b
    then err ip_ranges_conflict
    else if ip_in_ranges b1 a || ip_in_ranges b2 a
    then err ip_ranges_conflict
    else ok tt

-- The inner loop of CheckIPRangesConflict, and the outer one. Where a list is empty they do nothing,
-- as its first test does.
unfoldable pub range_conflicts : IpRange → List IpRange → Result (Unit {0})
range_conflicts r1 [] = ok tt
range_conflicts r1 (r2 ∷ rs) = do ip_range_conflict r1 r2; range_conflicts r1 rs

unfoldable pub check_ip_ranges_conflict : List IpRange → List IpRange → Result (Unit {0})
check_ip_ranges_conflict [] ranges2 = ok tt
check_ip_ranges_conflict (r ∷ rs) ranges2 = do
  range_conflicts r ranges2
  check_ip_ranges_conflict rs ranges2
