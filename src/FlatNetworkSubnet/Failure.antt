-- ===== src/FlatNetworkSubnet/Failure.antt =====
-- handleError of pkg/controller/flatnetworksubnet. The text of an error is a parameter. What is returned
-- where a failure is written down is the error of that update, not the handler's.
use rancher_flat_network.Prelude.{◌||◌, Option, none, some, if◌then◌else◌, is_empty, []}
use rancher_flat_network.Net.{Bytes, eq_bytes}
use rancher_flat_network.Types.{FlatNetworkSubnet, failed, Error, Result}
use rancher_flat_network.Cluster.{Cluster, M, ◌>>=◌, pure, then_or_err, error_of}
use rancher_flat_network.FlatNetworkIp.Handlers.{subnet_update_status}
use rancher_flat_network.FlatNetworkSubnet.Used.{is_deleting}
use rancher_flat_network.FlatNetworkSubnet.Handlers.{Handled, subnet_get}

unfoldable pub error_message : (Error → Bytes) → Option Error → Bytes
error_message error_text none = []
error_message error_text (some e) = error_text e

-- The failure in the status of the subnet.
unfoldable pub set_failure : Bytes → FlatNetworkSubnet → FlatNetworkSubnet
set_failure message s = record s {
  status = record (s.status) {
    phase = if is_empty message then s.status.phase else failed;
    failure_message = message;
  };
}

module _ (c : Cluster) where
  -- The function that is retried on a conflict.
  unfoldable pub write_failure : Bytes → FlatNetworkSubnet → M (Result FlatNetworkSubnet)
  unfolding set_failure
  write_failure message subnet = do
    r ← subnet_get c subnet.namespace subnet.name
    then_or_err r (λ s. subnet_update_status c (set_failure message s))

  unfoldable pub settle_subnet : Bytes → Handled → M Handled
  unfolding write_failure
  settle_subnet message (subnet, e) =
      if is_deleting subnet.deletion_timestamp
        || is_empty subnet.name
        || eq_bytes subnet.status.failure_message message
      then pure (subnet, e)
      else (do
        r ← c.retry_on_conflict FlatNetworkSubnet (write_failure message subnet)
        pure (subnet, error_of r))

  unfoldable pub handle_subnet_error :
      (Error → Bytes) → (FlatNetworkSubnet → M Handled) → FlatNetworkSubnet → M Handled
  unfolding settle_subnet error_message
  handle_subnet_error error_text on_change subnet = do
    (s, e) ← on_change subnet
    settle_subnet (error_message error_text e) (s, e)
