-- ===== src/Test/Handlers.antt =====
-- The theorems on the handlers at a concrete subnet and cluster.
use rancher_flat_network.Prelude.{
  ℕ, ◌≡◌, refl, List, [], ◌∷◌, arith, pos, false, ◌==◌, ◌||◌, ◌&&◌, not, All, ◌↔◌, ◌⊎◌, inl, inr,
  add_one,
}
use rancher_flat_network.Net.{compare_bytes}
use rancher_flat_network.Net.Value.{value}
use rancher_flat_network.Types.{ok, err, no_available_mac}
use rancher_flat_network.Ipcalc.Canonical.{contains, IsCanonical}
use rancher_flat_network.Slices.Sorted.{ascending-IsSorted}
use rancher_flat_network.Slices.Binary.{IsAmong}
use rancher_flat_network.FlatNetworkIp.Allocate.{
  choose_addr, choose_mac, take_addresses, fall_back, give_back,
}
use rancher_flat_network.FlatNetworkIp.Choice.{Choice, choose_addr-Choice, fall_back-take_addresses}
use rancher_flat_network.FlatNetworkIp.Mac.{FirstUnused, choose_mac-FirstUnused}
use rancher_flat_network.FlatNetworkIp.Invariant.{IsTidy, edits-IsTidy}
use rancher_flat_network.FlatNetworkIp.Handlers.{record_addresses}
use rancher_flat_network.FlatNetworkIp.Recorded.{Recorded, record_addresses-Recorded}
use rancher_flat_network.FlatNetworkIp.Remove.{wait_pod_removed}
use rancher_flat_network.FlatNetworkIp.Waited.{Waited, wait_pod_removed-Waited}
use rancher_flat_network.FlatNetworkSubnet.Used.{filter_duplicated_ip, used_of}
use rancher_flat_network.FlatNetworkSubnet.Handlers.{cleanup_duplicated_ips}
use rancher_flat_network.FlatNetworkSubnet.Collected.{held, count_held, used_of-held}
use rancher_flat_network.FlatNetworkSubnet.Duplicates.{NoneClash, filter_duplicated_ip_iff}
use rancher_flat_network.FlatNetworkSubnet.SelfCheck.{Cleaned, cleanup_duplicated_ips-Cleaned}
use rancher_flat_network.Test.Data.{
  host, host-value, host-IsAddress, used_ranges, used_ranges-IsCanonical, subnet, ip_at, cluster,
  cluster-Retries,
}

free_8 : contains (value (host 8)) used_ranges ≡ false
unfolding contains
free_8 = ground (arith, host-value 5, host-value 7, host-value 8)

choose_addr-Choice_example :
    Choice subnet (host 6 ∷ host 8 ∷ []) (choose_addr subnet (host 6 ∷ host 8 ∷ []))
choose_addr-Choice_example = choose_addr-Choice subnet (host 6 ∷ host 8 ∷ [])

fall_back-take_addresses_example :
    fall_back (host 8) [] (take_addresses (host 8) [] subnet) ≡ subnet
fall_back-take_addresses_example =
    fall_back-take_addresses (host 8) subnet (host-IsAddress 8 (omega arith))
      used_ranges-IsCanonical free_8

choose_mac-FirstUnused_example :
    ((m : List ℕ) × (choose_mac ((1 ∷ []) ∷ (3 ∷ []) ∷ []) ((3 ∷ []) ∷ (2 ∷ []) ∷ []) ≡ ok m)
      × FirstUnused ((1 ∷ []) ∷ (3 ∷ []) ∷ []) ((3 ∷ []) ∷ (2 ∷ []) ∷ []) m)
    ⊎ ((choose_mac ((1 ∷ []) ∷ (3 ∷ []) ∷ []) ((3 ∷ []) ∷ (2 ∷ []) ∷ []) ≡ err no_available_mac)
        × All (λ m. IsAmong m ((1 ∷ []) ∷ (3 ∷ []) ∷ [])) ((3 ∷ []) ∷ (2 ∷ []) ∷ []))
unfolding compare_bytes
choose_mac-FirstUnused_example =
    choose_mac-FirstUnused ((1 ∷ []) ∷ (3 ∷ []) ∷ []) ((3 ∷ []) ∷ (2 ∷ []) ∷ [])
      (ascending-IsSorted ((1 ∷ []) ∷ (3 ∷ []) ∷ []) ((refl, tt), (tt, tt)))

edits-IsTidy_example :
    (IsTidy (take_addresses (host 8) (2 ∷ []) subnet).status
      × ((n : ℕ)
          → contains n (take_addresses (host 8) (2 ∷ []) subnet).status.used_ip
            ≡ (n == value (host 8) || contains n used_ranges)))
    × (IsTidy (fall_back (host 8) (2 ∷ []) subnet).status
        × ((n : ℕ)
            → contains n (fall_back (host 8) (2 ∷ []) subnet).status.used_ip
              ≡ (not (n == value (host 8)) && contains n used_ranges)))
    × (IsTidy (give_back (host 8) (2 ∷ []) subnet).status
        × ((n : ℕ)
            → contains n (give_back (host 8) (2 ∷ []) subnet).status.used_ip
              ≡ (not (n == value (host 8)) && contains n used_ranges)))
edits-IsTidy_example =
    edits-IsTidy (host 8) (2 ∷ []) (host-IsAddress 8 (omega arith)) subnet
      (used_ranges-IsCanonical, tt)

record_addresses-Recorded_example :
    Recorded cluster
      (host 8)
      (2 ∷ [])
      (ip_at [])
      (record_addresses cluster (host 8) (2 ∷ []) (ip_at []) [])
record_addresses-Recorded_example =
    record_addresses-Recorded cluster (host 8) (2 ∷ []) (ip_at []) cluster-Retries []

wait_pod_removed-Waited_example :
    Waited cluster (ip_at (host 8)) 60 [] (wait_pod_removed cluster 60 (ip_at (host 8)) [])
wait_pod_removed-Waited_example = wait_pod_removed-Waited cluster (ip_at (host 8)) 60 []

used_of-held_example :
    IsCanonical 1 (used_of (host 1) (ip_at (host 5) ∷ ip_at [] ∷ [])).1
    × ((n : ℕ)
        → contains n (used_of (host 1) (ip_at (host 5) ∷ ip_at [] ∷ [])).1
          ≡ (n == value (host 1) || held n (ip_at (host 5) ∷ ip_at [] ∷ [])))
    × ((used_of (host 1) (ip_at (host 5) ∷ ip_at [] ∷ [])).0
        ≡ add_one (count_held (pos 0) (ip_at (host 5) ∷ ip_at [] ∷ [])))
used_of-held_example =
    used_of-held (host 1) (ip_at (host 5) ∷ ip_at [] ∷ []) (host-IsAddress 1 (omega arith))
      (inr (host-IsAddress 5 (omega arith)), (inl refl, tt))

cleanup_duplicated_ips-Cleaned_example :
    Cleaned []
      (ip_at (host 5) ∷ ip_at [] ∷ [])
      (cleanup_duplicated_ips cluster (ip_at (host 5) ∷ ip_at [] ∷ []) [])
cleanup_duplicated_ips-Cleaned_example =
    cleanup_duplicated_ips-Cleaned cluster (ip_at (host 5) ∷ ip_at [] ∷ []) []

filter_duplicated_ip_iff_example :
    (filter_duplicated_ip (ip_at (host 5) ∷ ip_at [] ∷ ip_at (host 5) ∷ []) ≡ [])
    ↔ NoneClash (ip_at (host 5) ∷ ip_at [] ∷ ip_at (host 5) ∷ [])
filter_duplicated_ip_iff_example =
    filter_duplicated_ip_iff (ip_at (host 5) ∷ ip_at [] ∷ ip_at (host 5) ∷ [])
      (refl, (refl, (refl, tt)))
