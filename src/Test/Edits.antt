-- ===== src/Test/Edits.antt =====
-- The theorems on sequences of edits of ranges, and on the search of a whole network.
use rancher_flat_network.Prelude.{◌≡◌, ◌≤◌, refl, List, [], ◌∷◌, some, arith, false}
use rancher_flat_network.Net.{
  Ip, IpNet, ip_equal, to16, mask, and_bytes, compare_bytes, net_contains, to4,
}
use rancher_flat_network.Net.Parse.{parse_cidr}
use rancher_flat_network.Net.Value.{value, size, IsIp16}
use rancher_flat_network.Types.{codes}
use rancher_flat_network.Ipcalc.{ip_increase}
use rancher_flat_network.Ipcalc.Canonical.{contains, IsCanonical}
use rancher_flat_network.Ipcalc.Refinement.{Edit, insert, delete, run, replay, run-replay}
use rancher_flat_network.Ipcalc.Search.{get_available_ip, skip_used}
use rancher_flat_network.Ipcalc.Search.Network.{
  AnswersInNetwork, first_tried, get_available_ip-AnswersInNetwork,
}
use rancher_flat_network.Test.Data.{
  host, host-IsAddress, host-IsIp16, used_ranges, used_ranges-IsCanonical,
}

abbrev edits : List Edit
edits = insert (host 9) ∷ delete (host 6) ∷ insert (host 6) ∷ []

run-replay_example :
    IsCanonical 1 (run edits used_ranges)
    × ((n : _) → contains n (run edits used_ranges) ≡ replay edits (λ m. contains m used_ranges) n)
run-replay_example =
    run-replay edits used_ranges
      (
        host-IsAddress 9 (omega arith),
        (host-IsAddress 6 (omega arith), (host-IsAddress 6 (omega arith), tt)),
      )
      used_ranges-IsCanonical

abbrev network : IpNet
network = record { ip = 10 ∷ 128 ∷ 0 ∷ 0 ∷ []; net_mask = 255 ∷ 255 ∷ 0 ∷ 0 ∷ [] }

abbrev outside : Ip
outside = 0 ∷ 0 ∷ 0 ∷ 0 ∷ 0 ∷ 0 ∷ 0 ∷ 0 ∷ 0 ∷ 0 ∷ 255 ∷ 255 ∷ 10 ∷ 129 ∷ 0 ∷ 0 ∷ []

parses : parse_cidr (codes "10.128.0.0/16") ≡ some (host 0, network)
unfolding parse_cidr to16 mask and_bytes compare_bytes
parses = refl

first_is : first_tried (host 0, network) used_ranges ≡ host 1
unfolding first_tried compare_bytes to16 skip_used ip_equal ip_increase mask and_bytes
first_is = refl

outside_is : net_contains network outside ≡ false
unfolding net_contains compare_bytes to4 and_bytes
outside_is = refl

outside-IsIp16 : IsIp16 outside
outside-IsIp16 = ground arith

first_below : value (first_tried (host 0, network) used_ranges) ≤ value outside
unfolding value size
first_below = rw first_is (omega arith)

get_available_ip-AnswersInNetwork_example :
    AnswersInNetwork network used_ranges
      (value (first_tried (host 0, network) used_ranges))
      (get_available_ip (codes "10.128.0.0/16") [] used_ranges)
get_available_ip-AnswersInNetwork_example =
    get_available_ip-AnswersInNetwork (codes "10.128.0.0/16") (host 0) network used_ranges outside
      parses (rw first_is (host-IsIp16 1 (omega arith))) outside-IsIp16 outside_is first_below
