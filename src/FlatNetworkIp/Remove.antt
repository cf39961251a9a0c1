-- ===== src/FlatNetworkIp/Remove.antt =====
-- pkg/controller/flatnetworkip/remove.go.
use rancher_flat_network.Prelude.{
  ℕ, suc, zero, Bool, false, Option, none, some, if◌then◌else◌, is_empty,
}
use rancher_flat_network.Net.{eq_bytes}
use rancher_flat_network.Types.{FlatNetworkIp, Error, pod_remove_timeout, Result, ok, err}
use rancher_flat_network.Cluster.{
  Cluster, Pod, M, ◌>>=◌, ◌>>◌, pure, note, with_lock, is_not_found, sleep,
}
use rancher_flat_network.FlatNetworkIp.Allocate.{give_back}
use rancher_flat_network.FlatNetworkIp.Handlers.{
  Handled, pod_cache_get, subnet_cache_get, subnet_update_status,
}

abbrev pub max_wait_for_pod_remove_period : ℕ
max_wait_for_pod_remove_period = 60

module _ (c : Cluster) where
  -- What the loop does with the pod that it finds: goes on waiting, or ends with an error or none.
  unfoldable pub still_deleting : FlatNetworkIp → Pod → Bool
  still_deleting ip pod = elim pod.deletion_timestamp [
    | none ↦ false
    | some t ↦ eq_bytes pod.uid ip.spec.pod_id
  ]

  -- The loop that waits for the pod, with the rounds that are left.
  unfoldable pub wait_pod_removed : ℕ → FlatNetworkIp → M (Option Error)
  unfolding still_deleting
  wait_pod_removed zero ip = pure (some pod_remove_timeout)
  wait_pod_removed (suc n) ip = do
    r ← pod_cache_get c ip.namespace ip.name
    elim r [
      | err e ↦ if is_not_found e then pure none else pure (some e)
      | ok pod ↦
          let again = (do note sleep; wait_pod_removed n ip) in
          if still_deleting ip pod then again else pure none
    ]

  -- The subnet's status gives the addresses up; a subnet that is gone needs nothing.
  unfoldable pub update_subnet_released : FlatNetworkIp → M (Result (Unit {0}))
  update_subnet_released ip = do
    r ← subnet_cache_get c ip.spec.subnet
    elim r [
      | err e ↦ if is_not_found e then pure (ok tt) else pure (err e)
      | ok s ↦ do
        q ← subnet_update_status c (give_back ip.status.addr ip.status.mac s)
        elim q [ err e ↦ pure (err e) | ok s' ↦ pure (ok tt) ]
    ]

  -- An update that fails is only logged.
  unfoldable pub handle_ip_remove : FlatNetworkIp → M Handled
  handle_ip_remove ip = if is_empty ip.name then pure (ip, none) else (do
    e ← wait_pod_removed max_wait_for_pod_remove_period ip
    elim e [
      | some e' ↦ pure (ip, some e')
      | none ↦
          with_lock ip.spec.subnet
            (do r ← c.retry_on_conflict (Unit {0}) (update_subnet_released ip); pure (ip, none))
    ])
