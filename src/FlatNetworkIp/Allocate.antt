-- ===== src/FlatNetworkIp/Allocate.antt =====
-- pkg/controller/flatnetworkip/ipcalc.go and mac.go, with the edits of a subnet's status that the
-- handlers make.
use rancher_flat_network.Prelude.{
  Bool, true, false, not, ◌&&◌, ◌||◌, List, [], ◌∷◌, ◌++◌, none, some, if◌then◌else◌, is_empty,
  add_one, sub_one,
}
use rancher_flat_network.Net.{Bytes, Ip, to16, ip_equal, net_contains, eq_bytes}
use rancher_flat_network.Net.Parse.{parse_cidr}
use rancher_flat_network.Types.{
  FlatNetworkIp, FlatNetworkSubnet, SubnetStatus, Result, ok, err, invalid_ip, no_available_ip,
  no_available_mac,
}
use rancher_flat_network.Slices.{sort, binary_search}
use rancher_flat_network.Ipcalc.{ip_in_ranges, add_ip_to_range, remove_ip_from_range}
use rancher_flat_network.Ipcalc.Search.{get_available_ip}

-- The loop over the specified addresses.
unfoldable pub addr_among : Ip → List Ip → Bool
addr_among a [] = false
addr_among a (addr ∷ addrs) =
    not (is_empty (to16 addr)) && ip_equal (to16 addr) a || addr_among a addrs

unfoldable pub already_allocate_ip : FlatNetworkIp → FlatNetworkSubnet → Bool
already_allocate_ip ip subnet =
    if is_empty ip.status.addr
    then false
    else if is_empty ip.spec.addrs
    then elim (parse_cidr subnet.spec.cidr) [
      | none ↦ false
      | some (_, network) ↦ net_contains network ip.status.addr
    ]
    else addr_among ip.status.addr ip.spec.addrs

-- The first specified address that is in the subnet's ranges, if it has any, and not used.
unfoldable pub choose_addr : FlatNetworkSubnet → List Ip → Result Ip
choose_addr subnet [] = err no_available_ip
choose_addr subnet (v ∷ addrs) =
    let rest = choose_addr subnet addrs in
    let a = to16 v in
    if is_empty a
    then err invalid_ip
    else if not (is_empty subnet.spec.ranges) && not (ip_in_ranges a subnet.spec.ranges)
    then rest
    else if not (ip_in_ranges a subnet.status.used_ip)
    then ok a
    else rest

unfoldable pub allocate_ip : FlatNetworkIp → FlatNetworkSubnet → Result Ip
allocate_ip ip subnet =
    if already_allocate_ip ip subnet
    then ok ip.status.addr
    else if is_empty ip.spec.addrs
    then get_available_ip subnet.spec.cidr subnet.spec.ranges subnet.status.used_ip
    else choose_addr subnet ip.spec.addrs

unfoldable pub mac_among : Bytes → List Bytes → Bool
mac_among m [] = false
mac_among m (x ∷ xs) = eq_bytes x m || mac_among m xs

unfoldable pub already_allocated_mac : FlatNetworkIp → Bool
already_allocated_mac ip =
    if is_empty ip.spec.macs
    then true
    else if is_empty ip.status.mac
    then is_empty ip.spec.macs
    else mac_among ip.status.mac ip.spec.macs

-- The first specified MAC address that is not used.
unfoldable pub choose_mac : List Bytes → List Bytes → Result Bytes
choose_mac used [] = err no_available_mac
choose_mac used (m ∷ ms) =
    let rest = choose_mac used ms in if (binary_search used m).1 then rest else ok m

unfoldable pub allocate_mac : FlatNetworkIp → FlatNetworkSubnet → Result Bytes
allocate_mac ip subnet =
    if is_empty ip.spec.macs
    then ok []
    else if already_allocated_mac ip
    then ok ip.status.mac
    else choose_mac subnet.status.used_mac ip.spec.macs

-- slices.DeleteFunc
unfoldable pub delete_mac : Bytes → List Bytes → List Bytes
delete_mac m [] = []
delete_mac m (x ∷ xs) = let rest = delete_mac m xs in if eq_bytes x m then rest else x ∷ rest

unfoldable pub reserve_ip : Ip → SubnetStatus → SubnetStatus
reserve_ip addr t = if ip_in_ranges addr t.used_ip then t else record t {
  used_ip = add_ip_to_range addr t.used_ip;
  used_ip_count = add_one t.used_ip_count;
}

unfoldable pub reserve_mac : Bytes → SubnetStatus → SubnetStatus
reserve_mac mac t =
    if is_empty mac then t else record t { used_mac = sort (t.used_mac ++ mac ∷ []) }

-- The edit of onIPCreate: the addresses are taken.
unfoldable pub take_addresses : Ip → Bytes → FlatNetworkSubnet → FlatNetworkSubnet
take_addresses addr mac s = record s { status = reserve_mac mac (reserve_ip addr s.status) }

unfoldable pub release_ip : Ip → SubnetStatus → SubnetStatus
release_ip addr t =
    if ip_in_ranges addr t.used_ip
    then record t {
      used_ip = remove_ip_from_range addr t.used_ip;
      used_ip_count = sub_one t.used_ip_count;
    }
    else t

-- The fallback of onIPCreate: the addresses are given back.
unfoldable pub fall_back : Ip → Bytes → FlatNetworkSubnet → FlatNetworkSubnet
fall_back addr mac s = record s { status = drop_mac (release_ip addr s.status) }
  where
    drop_mac : SubnetStatus → SubnetStatus
    drop_mac t =
        if is_empty mac || is_empty t.used_mac
        then t
        else record t { used_mac = delete_mac mac t.used_mac }

-- The edit of handleIPRemove.
unfoldable pub give_back : Ip → Bytes → FlatNetworkSubnet → FlatNetworkSubnet
give_back addr mac s = record s { status = drop_mac (release_ip addr s.status) }
  where
    drop_mac : SubnetStatus → SubnetStatus
    drop_mac t =
        if is_empty mac then t else record t { used_mac = sort (delete_mac mac t.used_mac) }
