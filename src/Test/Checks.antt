-- ===== src/Test/Checks.antt =====
-- The theorems on the checks of the webhook and of pkg/cni at concrete inputs.
use rancher_flat_network.Prelude.{◌≡◌, refl, List, [], ◌∷◌, arith, inl, inr, ◌↔◌}
use rancher_flat_network.Net.{IpNet}
use rancher_flat_network.Types.{codes, FlatNetworkSubnet, ok}
use rancher_flat_network.Test.Ranges.{hosts-IsOrdered}
use rancher_flat_network.Common.Subnet.{check_subnet_conflict}
use rancher_flat_network.Common.Verdicts.{FirstDecides, check_subnet_conflict-FirstDecides}
use rancher_flat_network.Webhook.Workload.{used_by_others, none_used}
use rancher_flat_network.Webhook.Checks.{AllFree, none_used-AllFree}
use rancher_flat_network.Test.Data.{
  host, host-IsIp16, used_ranges, used_ranges-IsCanonical, subnet, subnet_of, ip_at,
}

abbrev network : IpNet
network = record { ip = 10 ∷ 128 ∷ 0 ∷ 0 ∷ []; net_mask = 255 ∷ 255 ∷ 0 ∷ 0 ∷ [] }

abbrev ranged : FlatNetworkSubnet
ranged = subnet_of used_ranges []

abbrev others : List FlatNetworkSubnet
others = subnet ∷ record ranged { name = codes "other" } ∷ []

check_subnet_conflict-FirstDecides_example :
    FirstDecides ranged others (check_subnet_conflict ranged others)
check_subnet_conflict-FirstDecides_example =
    check_subnet_conflict-FirstDecides ranged others hosts-IsOrdered (tt, (hosts-IsOrdered, tt))

none_used-AllFree_example :
    (none_used (used_by_others (ip_at (host 5) ∷ ip_at [] ∷ []) used_ranges) (host 5 ∷ host 6 ∷ [])
      ≡ ok tt)
    ↔ AllFree (ip_at (host 5) ∷ ip_at [] ∷ []) used_ranges (host 5 ∷ host 6 ∷ [])
none_used-AllFree_example =
    none_used-AllFree (ip_at (host 5) ∷ ip_at [] ∷ []) used_ranges (host 5 ∷ host 6 ∷ [])
      (inr (host-IsIp16 5 (omega arith)), (inl refl, tt)) used_ranges-IsCanonical
      (host-IsIp16 5 (omega arith), (host-IsIp16 6 (omega arith), tt))
