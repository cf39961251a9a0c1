-- ===== src/Common/Subnet.antt =====
-- The checks of a subnet in pkg/common/common.go, with the modes of pkg/cni/macvlan and ipvlan.
use rancher_flat_network.Prelude.{
  ℕ, ℤ, pos, negsuc, eq_ℤ, leb, Bool, false, not, ◌&&◌, ◌||◌, List, [], ◌∷◌, if◌then◌else◌,
  is_empty,
}
use rancher_flat_network.Net.{Bytes, to16, le_bytes, eq_bytes, IpNet, net_contains}
use rancher_flat_network.Types.{
  IpRange, Route, FlatNetworkSubnet, Result, ok, err, ◌>>=◌, ◌>>◌, codes, invalid_range,
  invalid_route, invalid_gateway, invalid_mode, invalid_flat_mode,
}
use rancher_flat_network.Cni.Macvlan
use rancher_flat_network.Cni.Ipvlan
use rancher_flat_network.Ipcalc.Conflict.{
  check_network_conflict, check_ip_ranges_conflict, parse_or_err,
}

abbrev pub flat_mode_macvlan : Bytes
flat_mode_macvlan = codes "macvlan"

abbrev pub flat_mode_ipvlan : Bytes
flat_mode_ipvlan = codes "ipvlan"

-- The test of one range in isValidRanges.
unfoldable pub is_valid_range : IpNet → IpRange → Result (Unit {0})
is_valid_range network r =
    let s1 = to16 r.from in
    let s2 = to16 r.to in
    if is_empty s1 || is_empty s2
    then err invalid_range
    else if not (net_contains network s1) || not (net_contains network s2)
    then err invalid_range
    else if le_bytes s1 s2
    then ok tt
    else err invalid_range

unfoldable pub is_valid_ranges : List IpRange → IpNet → Result (Unit {0})
is_valid_ranges [] network = ok tt
is_valid_ranges (r ∷ rs) network = do is_valid_range network r; is_valid_ranges rs network

abbrev max_int32 : ℕ
max_int32 = 2147483647

priority_in_range : ℤ → Bool
priority_in_range (pos n) = leb n max_int32
priority_in_range (negsuc n) = false

unfoldable pub is_valid_route : IpNet → Route → Result (Unit {0})
unfolding priority_in_range parse_or_err
is_valid_route network r = if is_empty r.dev || is_empty r.dst then err invalid_route else (do
  _ ← parse_or_err r.dst
  if not (is_empty r.via) && not (net_contains network r.via)
      then err invalid_route
      else if priority_in_range r.priority
      then ok tt
      else err invalid_route)

unfoldable pub is_valid_routes : IpNet → List Route → Result (Unit {0})
is_valid_routes network [] = ok tt
is_valid_routes network (r ∷ rs) = do is_valid_route network r; is_valid_routes network rs

unfoldable pub validate_subnet : FlatNetworkSubnet → Result (Unit {0})
validate_subnet subnet =
    if not (
      eq_bytes subnet.spec.flat_mode flat_mode_macvlan
      || eq_bytes subnet.spec.flat_mode flat_mode_ipvlan)
    then err invalid_flat_mode
    else (do
      p ← parse_or_err subnet.spec.cidr
      if not (is_empty subnet.spec.gateway) && not (net_contains p.1 subnet.spec.gateway)
          then err invalid_gateway
          else is_valid_ranges subnet.spec.ranges p.1 >> is_valid_routes p.1 subnet.spec.routes)

-- What CheckSubnetConflict skips: the subnet itself, and those on another flat mode or VLAN.
unfoldable pub is_other : FlatNetworkSubnet → FlatNetworkSubnet → Bool
is_other subnet s =
    eq_bytes s.name subnet.name
    || not (eq_bytes s.spec.flat_mode subnet.spec.flat_mode)
    || not (eq_ℤ s.spec.vlan subnet.spec.vlan)

-- Where the CIDRs conflict, subnets with ranges are compared by these, and the loop ends.
unfoldable pub check_subnet_conflict :
    FlatNetworkSubnet → List FlatNetworkSubnet → Result (Unit {0})
check_subnet_conflict subnet [] = ok tt
check_subnet_conflict subnet (s ∷ ss) =
    let rest = check_subnet_conflict subnet ss in
    if is_other subnet s then rest else elim (check_network_conflict s.spec.cidr subnet.spec.cidr) [
      | ok u ↦ rest
      | err e ↦
          if not (is_empty s.spec.ranges) && not (is_empty subnet.spec.ranges)
          then check_ip_ranges_conflict subnet.spec.ranges s.spec.ranges
          else err e
    ]

-- Whether the mode and the flag of the subnet exist for its flat mode.
unfoldable pub check_mode : FlatNetworkSubnet → Result (Unit {0})
check_mode subnet =
    if eq_bytes subnet.spec.flat_mode flat_mode_macvlan
    then (do
      _ ← Macvlan.mode_from_string subnet.spec.mode
      if is_empty subnet.spec.ipvlan_flag then ok tt else err invalid_mode)
    else if eq_bytes subnet.spec.flat_mode flat_mode_ipvlan
    then (do
      _ ← Ipvlan.mode_from_string subnet.spec.mode
      _ ← Ipvlan.flag_from_string subnet.spec.ipvlan_flag
      ok tt)
    else err invalid_flat_mode

-- The loop of CheckSubnetFlatMode: one flat mode for the subnets on one VLAN.
unfoldable pub check_same_mode : FlatNetworkSubnet → List FlatNetworkSubnet → Result (Unit {0})
check_same_mode subnet [] = ok tt
check_same_mode subnet (s ∷ ss) =
    let rest = check_same_mode subnet ss in
    if eq_bytes s.name subnet.name || not (eq_ℤ s.spec.vlan subnet.spec.vlan)
    then rest
    else if eq_bytes s.spec.flat_mode subnet.spec.flat_mode
    then rest
    else err invalid_flat_mode

unfoldable pub check_subnet_flat_mode :
    FlatNetworkSubnet → List FlatNetworkSubnet → Result (Unit {0})
check_subnet_flat_mode subnet subnets = do check_mode subnet; check_same_mode subnet subnets
