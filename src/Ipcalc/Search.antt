-- ===== src/Ipcalc/Search.antt =====
-- GetAvailableIP and GetDefaultGateway of pkg/ipcalc/ipcalc.go. The two loops of the search take
-- fuel: the first one round for each address up to the end of its range and one to leave, the second
-- one round for each address that there is and one to leave.
pub mod Range
pub mod Free
pub mod Network
use rancher_flat_network.Prelude.{
  ℕ, suc, zero, ◌+◌, ◌-◌, Bool, true, false, not, ◌&&◌, ◌||◌, List, [], ◌∷◌, Option, none, some,
  if◌then◌else◌, is_empty,
}
use rancher_flat_network.Net.{Bytes, Ip, le_bytes, to16, ip_equal, mask, IpNet, net_contains}
use rancher_flat_network.Net.Value.{value, address_count}
use rancher_flat_network.Net.Parse.{parse_cidr}
use rancher_flat_network.Types.{IpRange, Result, ok, err, no_available_ip, invalid_cidr, diverges}
use rancher_flat_network.Ipcalc.{ip_increase, ip_in_ranges, is_available_ip}

unfoldable pub get_default_gateway : Bytes → Result Ip
get_default_gateway cidr = elim (parse_cidr cidr) [
  | none ↦ err invalid_cidr
  | some (ip, network) ↦ ok (to16 (ip_increase (mask ip network.net_mask)))
]

pub data Search : Type 0 where
  found : Ip → Search
  exhausted running : Search

-- "Skip the already used range": where a used range begins at `start`, go to its end.
unfoldable pub skip_used : Ip → List IpRange → Ip
skip_used start [] = start
skip_used start (u ∷ us) = skip_used (if ip_equal u.from start then to16 u.to else start) us

-- In the network, neither its own nor the broadcast address, and not used.
unfoldable pub is_free : IpNet → List IpRange → Ip → Bool
is_free network used ip = is_available_ip ip network && not (ip_in_ranges ip used)

-- The loop over a range. Its variable is the slice `start` itself, so the test reads it too.
unfoldable pub search_range : ℕ → IpNet → List IpRange → Ip → Ip → Search
search_range zero network used end ip = running
search_range (suc fuel) network used end ip =
    let next = search_range fuel network used end (ip_increase ip) in
    if le_bytes ip end then (if is_free network used ip then found ip else next) else exhausted

-- One round of the loop over the ranges, without its search where an end is no address.
unfoldable pub search_one : IpNet → List IpRange → IpRange → Search
search_one network used r =
    let start = skip_used (to16 r.from) used in
    let end = to16 r.to in
    if is_empty start || is_empty end
    then exhausted
    else search_range (suc (value end + 1 - value start)) network used end start

unfoldable pub search_ranges : IpNet → List IpRange → List IpRange → Search
search_ranges network used [] = exhausted
search_ranges network used (r ∷ rs) = elim (search_one network used r) [
  | found ip ↦ found ip
  | exhausted ↦ search_ranges network used rs
  | running ↦ running
]

-- The loop over the network, where no ranges are defined.
unfoldable pub search_network : ℕ → IpNet → List IpRange → Ip → Search
search_network zero network used ip = running
search_network (suc fuel) network used ip =
    let next = search_network fuel network used (ip_increase (to16 ip)) in
    if net_contains network ip
    then (if not (is_empty (to16 ip)) && is_free network used (to16 ip)
        then found (to16 ip)
        else next)
    else exhausted

unfoldable pub outcome : Search → Result Ip
outcome (found ip) = ok ip
outcome exhausted = err no_available_ip
outcome running = err diverges

unfoldable pub search_available : Ip × IpNet → List IpRange → List IpRange → Search
search_available (ip, network) ranges used =
    if is_empty ranges
    then search_network (address_count + 2) network used
        (skip_used (ip_increase (mask ip network.net_mask)) used)
    else search_ranges network used ranges

unfoldable pub get_available_ip : Bytes → List IpRange → List IpRange → Result Ip
get_available_ip cidr ranges used = elim (parse_cidr cidr) [
  | none ↦ err invalid_cidr
  | some parsed ↦ outcome (search_available parsed ranges used)
]
