-- ===== src/Test/Ranges.antt =====
-- The theorems on pkg/ipcalc at concrete addresses and ranges.
use rancher_flat_network.Prelude.{◌+◌, ◌-◌, ◌%◌, ◌≡◌, refl, [], ◌∷◌, some, arith, true, false, All}
use rancher_flat_network.Net.{IpNet, to16, mask, and_bytes, compare_bytes}
use rancher_flat_network.Net.Parse.{parse_cidr}
use rancher_flat_network.Net.Value.{value, address_count}
use rancher_flat_network.Types.{codes}
use rancher_flat_network.Ipcalc.{
  ip_increase, ip_decrease, ip_in_ranges, add_ip_to_range, remove_ip_from_range,
}
use rancher_flat_network.Ipcalc.Increase.{value-ip_increase, value-ip_decrease}
use rancher_flat_network.Ipcalc.Canonical.{
  contains, IsCanonical, IsCanonical-All, ip_in_ranges-contains,
}
use rancher_flat_network.Ipcalc.Add.{Inserts, add_ip_to_range-Extends}
use rancher_flat_network.Ipcalc.Remove.{Deletes, remove_ip_from_range-Deletes}
use rancher_flat_network.Ipcalc.Laws.{remove-add, add-remove, add_comm}
use rancher_flat_network.Ipcalc.Conflict.{check_ip_ranges_conflict}
use rancher_flat_network.Ipcalc.Disjoint.{Verdict, check_ip_ranges_conflict-Verdict}
use rancher_flat_network.Ipcalc.Search.{get_available_ip}
use rancher_flat_network.Ipcalc.Search.Free.{Answers, get_available_ip-Answers}
use rancher_flat_network.Ipcalc.Search.Range.{IsOrdered, IsBounded}
use rancher_flat_network.Test.Data.{
  host, hosts, host-value, host-IsIp16, host-IsAddress, used_ranges, used_ranges-IsCanonical,
}

abbrev network : IpNet
network = record { ip = 10 ∷ 128 ∷ 0 ∷ 0 ∷ []; net_mask = 255 ∷ 255 ∷ 0 ∷ 0 ∷ [] }

parses : parse_cidr (codes "10.128.0.0/16") ≡ some (host 0, network)
unfolding parse_cidr to16 mask and_bytes compare_bytes
parses = refl

pub hosts-IsOrdered : IsOrdered (hosts 5 7 ∷ [])
hosts-IsOrdered = (
  (
    (host-IsIp16 5 (omega arith), host-IsIp16 7 (omega arith)),
    omega (arith, host-value 5, host-value 7),
  ),
  tt,
)

hosts-IsBounded : All IsBounded (hosts 5 9 ∷ [])
hosts-IsBounded =
    (((host-IsIp16 5 (omega arith), host-IsIp16 9 (omega arith)), omega (arith, host-value 9)), tt)

hosts_9-IsOrdered : IsOrdered (hosts 5 9 ∷ [])
hosts_9-IsOrdered = (
  (
    (host-IsIp16 5 (omega arith), host-IsIp16 9 (omega arith)),
    omega (arith, host-value 5, host-value 9),
  ),
  tt,
)

free_8 : contains (value (host 8)) used_ranges ≡ false
unfolding contains
free_8 = ground (arith, host-value 5, host-value 7, host-value 8)

used_6 : contains (value (host 6)) used_ranges ≡ true
unfolding contains
used_6 = ground (arith, host-value 5, host-value 7, host-value 6)

get_available_ip-Answers_example :
    Answers network used_ranges
      (hosts 5 9 ∷ [])
      (get_available_ip (codes "10.128.0.0/16") (hosts 5 9 ∷ []) used_ranges)
get_available_ip-Answers_example =
    get_available_ip-Answers (codes "10.128.0.0/16") (host 0) network (hosts 5 9 ∷ []) used_ranges
      parses (λ e. cc) hosts-IsBounded hosts-IsOrdered

add_ip_to_range-Extends_example :
    IsCanonical 1 (add_ip_to_range (host 8) used_ranges)
    × Inserts (value (host 8)) used_ranges (add_ip_to_range (host 8) used_ranges)
add_ip_to_range-Extends_example =
    add_ip_to_range-Extends (host 8) (host-IsIp16 8 (omega arith)) 1 used_ranges
      used_ranges-IsCanonical (omega arith) (omega (arith, host-value 8))

remove_ip_from_range-Deletes_example :
    IsCanonical 1 (remove_ip_from_range (host 6) used_ranges)
    × Deletes (value (host 6)) used_ranges (remove_ip_from_range (host 6) used_ranges)
remove_ip_from_range-Deletes_example =
    remove_ip_from_range-Deletes (host 6) (host-IsIp16 6 (omega arith)) 1 used_ranges
      used_ranges-IsCanonical

remove-add_example :
    remove_ip_from_range (host 8) (add_ip_to_range (host 8) used_ranges) ≡ used_ranges
remove-add_example =
    remove-add (host 8) (host-IsAddress 8 (omega arith)) used_ranges used_ranges-IsCanonical free_8

add-remove_example :
    add_ip_to_range (host 6) (remove_ip_from_range (host 6) used_ranges) ≡ used_ranges
add-remove_example =
    add-remove (host 6) (host-IsAddress 6 (omega arith)) used_ranges used_ranges-IsCanonical used_6

add_comm_example :
    add_ip_to_range (host 4) (add_ip_to_range (host 8) used_ranges)
    ≡ add_ip_to_range (host 8) (add_ip_to_range (host 4) used_ranges)
add_comm_example =
    add_comm (host 4) (host 8) (host-IsAddress 4 (omega arith)) (host-IsAddress 8 (omega arith))
      used_ranges used_ranges-IsCanonical

check_ip_ranges_conflict-Verdict_example :
    Verdict used_ranges (hosts 5 9 ∷ []) (check_ip_ranges_conflict used_ranges (hosts 5 9 ∷ []))
check_ip_ranges_conflict-Verdict_example =
    check_ip_ranges_conflict-Verdict used_ranges (hosts 5 9 ∷ []) hosts-IsOrdered hosts_9-IsOrdered

ip_in_ranges-contains_example :
    ip_in_ranges (host 6) used_ranges ≡ contains (value (host 6)) used_ranges
ip_in_ranges-contains_example =
    ip_in_ranges-contains (host 6) used_ranges (host-IsIp16 6 (omega arith))
      (IsCanonical-All 1 used_ranges used_ranges-IsCanonical)

value-ip_increase_example : value (ip_increase (host 255)) ≡ (value (host 255) + 1) % address_count
value-ip_increase_example = value-ip_increase (host 255) (host-IsIp16 255 (omega arith))

value-ip_decrease_example :
    value (ip_decrease (host 0)) ≡ (value (host 0) + (address_count - 1)) % address_count
value-ip_decrease_example = value-ip_decrease (host 0) (host-IsIp16 0 (omega arith))
