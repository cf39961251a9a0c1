-- ===== src/Webhook/Subnet.antt =====
-- pkg/admission/webhook/subnet.go. The answers of the API server are an argument.
use rancher_flat_network.Prelude.{ℕ, ◌||◌, List, if◌then◌else◌, is_empty}
use rancher_flat_network.Net.{Bytes}
use rancher_flat_network.Types.{FlatNetworkSubnet, Result, ok, ◌>>=◌, ◌>>◌}
use rancher_flat_network.Common.Subnet.{
  validate_subnet, check_subnet_flat_mode, check_subnet_conflict,
}
use rancher_flat_network.FlatNetworkSubnet.Used.{is_deleting}
use rancher_flat_network.Webhook.Workload.{list_pages}

-- The pages are read with a token that is "" for the first and behind the last.
unfoldable pub validate_flat_network_subnet :
    ℕ → (Bytes → Result (List FlatNetworkSubnet × Bytes)) → FlatNetworkSubnet → Result (Unit {0})
validate_flat_network_subnet fuel page subnet =
    if is_empty subnet.name || is_deleting subnet.deletion_timestamp then ok tt else (do
      subnets ← list_pages fuel page List.[]
      validate_subnet subnet
      check_subnet_flat_mode subnet subnets
      check_subnet_conflict subnet subnets)
