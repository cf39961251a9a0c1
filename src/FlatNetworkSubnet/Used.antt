-- ===== src/FlatNetworkSubnet/Used.antt =====
-- The addresses that the FlatNetworkIPs of a subnet use: filterDuplicatedIP, ip2UsedRanges and the
-- loop of onSubnetUpdate that collects them.
use rancher_flat_network.Prelude.{
  ℕ, Bool, true, false, not, ◌&&◌, ◌||◌, List, [], ◌∷◌, Option, none, some, if◌then◌else◌, is_empty,
  ℤ, pos, add_one,
}
use rancher_flat_network.Net.{Bytes, Ip, to16, eq_bytes, le_bytes}
use rancher_flat_network.Types.{IpRange, FlatNetworkIp}
use rancher_flat_network.Ipcalc.{add_ip_to_range}

abbrev pub is_deleting : Option ℕ → Bool
is_deleting none = false
is_deleting (some t) = true

-- What IP.String tells apart: the 16 bytes of an address, and the bytes of anything else.
unfoldable pub ip_text : Ip → Bytes
ip_text ip = if is_empty (to16 ip) then ip else to16 ip

-- `set[a]`, where "" stands for a missing key.
unfoldable pub owner_of : Bytes → List (Bytes × Bytes) → Bytes
owner_of a [] = []
owner_of a ((k, v) ∷ m) = if eq_bytes k a then v else owner_of a m

unfoldable pub has_address : FlatNetworkIp → Bool
has_address ip = not (is_empty (to16 ip.status.addr)) && not (is_deleting ip.deletion_timestamp)

-- The loop of filterDuplicatedIP over the addresses seen so far, each with the name of its first IP.
unfoldable pub duplicates_from : List (Bytes × Bytes) → List FlatNetworkIp → List FlatNetworkIp
duplicates_from seen [] = []
duplicates_from seen (ip ∷ ips) =
    let skip = duplicates_from seen ips in
    let first = duplicates_from ((ip_text ip.status.addr, ip.name) ∷ seen) ips in
    if not (has_address ip)
    then skip
    else if is_empty (owner_of (ip_text ip.status.addr) seen)
    then first
    else ip ∷ skip

unfoldable pub filter_duplicated_ip : List FlatNetworkIp → List FlatNetworkIp
filter_duplicated_ip ips = duplicates_from [] ips

-- The loop "Ensure the usedIPs are correct": how many addresses, and their ranges.
unfoldable pub collect_used : ℤ → List IpRange → List FlatNetworkIp → ℤ × List IpRange
collect_used count used [] = (count, used)
collect_used count used (ip ∷ ips) =
    let skip = collect_used count used ips in
    let next = collect_used (add_one count) (add_ip_to_range ip.status.addr used) ips in
    if is_deleting ip.deletion_timestamp || is_empty ip.status.addr then skip else next

-- With the gateway.
unfoldable pub used_of : Ip → List FlatNetworkIp → ℤ × List IpRange
used_of gateway ips =
    let (count, used) = collect_used (pos 0) [] ips in
    if is_empty gateway then (count, used) else (add_one count, add_ip_to_range gateway used)

-- slices.SortFunc by the address, where a missing address counts as smaller.
unfoldable pub insert_ip : FlatNetworkIp → List FlatNetworkIp → List FlatNetworkIp
insert_ip ip [] = ip ∷ []
insert_ip ip (j ∷ ips) =
    if is_empty ip.status.addr || is_empty j.status.addr || le_bytes ip.status.addr j.status.addr
    then ip ∷ j ∷ ips
    else j ∷ insert_ip ip ips

unfoldable pub add_each : List IpRange → List FlatNetworkIp → List IpRange
add_each used [] = used
add_each used (ip ∷ ips) = add_each (add_ip_to_range ip.status.addr used) ips

unfoldable pub sort_ips : List FlatNetworkIp → List FlatNetworkIp
sort_ips [] = []
sort_ips (ip ∷ ips) = insert_ip ip (sort_ips ips)

unfoldable pub ip2_used_ranges : List FlatNetworkIp → List IpRange
ip2_used_ranges ips = add_each [] (sort_ips ips)
