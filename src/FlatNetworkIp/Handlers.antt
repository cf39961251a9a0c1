-- ===== src/FlatNetworkIp/Handlers.antt =====
-- The handlers of pkg/controller/flatnetworkip. A handler returns the resource with an error or
-- nil, as in Go; logging is left out.
use rancher_flat_network.Prelude.{
  ℕ, ◌+◌, Bool, true, false, not, ◌&&◌, ◌||◌, [], Option, none, some, if◌then◌else◌, is_empty, ltb,
}
use rancher_flat_network.Net.{Bytes, Ip, eq_bytes}
use rancher_flat_network.Types.{
  subnet_namespace, FlatNetworkIp, FlatNetworkSubnet, Phase, init, pending, active, failed, unknown,
  Error, Result, ok, err,
}
use rancher_flat_network.Cluster.{
  Cluster, Pod, M, ◌>>=◌, ◌>>◌, pure, perform, note, event_error, with_lock, error_of, then_or_err,
  is_not_found, get_pod, get_ip, get_subnet, delete_pod, delete_ip, update_subnet_status,
  update_ip_status, enqueue_ip, now,
}
use rancher_flat_network.FlatNetworkIp.Allocate.{
  allocate_ip, allocate_mac, already_allocate_ip, already_allocated_mac, take_addresses, fall_back,
}

abbrev pub Handled : Type 0
Handled = FlatNetworkIp × Option Error

abbrev pub is_active : Phase → Bool
is_active active = true
is_active _ = false

module _ (c : Cluster) where
  unfoldable pub pod_cache_get : Bytes → Bytes → M (Result Pod)
  pod_cache_get ns name = perform (get_pod ns name) (λ h. c.pod_at h ns name)

  unfoldable pub ip_cache_get : Bytes → Bytes → M (Result FlatNetworkIp)
  ip_cache_get ns name = perform (get_ip ns name) (λ h. c.ip_at h ns name)

  unfoldable pub subnet_cache_get : Bytes → M (Result FlatNetworkSubnet)
  subnet_cache_get name =
      perform (get_subnet subnet_namespace name) (λ h. c.subnet_at h subnet_namespace name)

  unfoldable pub subnet_update_status : FlatNetworkSubnet → M (Result FlatNetworkSubnet)
  subnet_update_status s = perform (update_subnet_status s) (λ h. c.subnet_status_updated h s)

  unfoldable pub ip_update_status : FlatNetworkIp → M (Result FlatNetworkIp)
  ip_update_status ip = perform (update_ip_status ip) (λ h. c.ip_status_updated h ip)

  unfoldable pub ip_delete : Bytes → Bytes → M (Option Error)
  ip_delete ns name = perform (delete_ip ns name) (λ h. c.ip_deleted h ns name)

  unfoldable pub pod_delete : Bytes → Bytes → M (Option Error)
  pod_delete ns name = perform (delete_pod ns name) (λ h. c.pod_deleted h ns name)

  time_now : M ℕ
  time_now = perform now (λ h. c.time_at h)

  -- The first update of onIPCreate: the subnet's status takes the addresses in.
  unfoldable pub update_subnet_used : Ip → Bytes → FlatNetworkIp → M (Result FlatNetworkSubnet)
  unfolding subnet_cache_get subnet_update_status
  update_subnet_used addr mac ip = do
    r ← subnet_cache_get ip.spec.subnet
    then_or_err r (λ s. subnet_update_status (take_addresses addr mac s))

  -- The second one: the IP is pending, with its addresses and the time.
  unfoldable pub update_ip_pending : Ip → Bytes → FlatNetworkIp → M (Result FlatNetworkIp)
  unfolding ip_cache_get ip_update_status time_now
  update_ip_pending addr mac ip = do
    r ← ip_cache_get ip.namespace ip.name
    then_or_err r (λ i. do
      t ← time_now
      ip_update_status (record i {
        status = record (i.status) {
          addr = addr;
          mac = mac;
          phase = pending;
          allocated_time_stamp = t;
        };
      }))

  -- The second update failed. The fallback's own error replaces the first one before the event.
  unfoldable pub fall_back_subnet : Ip → Bytes → FlatNetworkSubnet → FlatNetworkIp → M Handled
  unfolding subnet_update_status
  fall_back_subnet addr mac subnet ip = do
    r ← subnet_update_status (fall_back addr mac subnet)
    event_error (error_of r)
    pure (ip, error_of r)

  -- onIPCreate behind its first update.
  unfoldable pub record_pending : Ip → Bytes → FlatNetworkIp → FlatNetworkSubnet → M Handled
  record_pending addr mac ip subnet = do
    q ← c.retry_on_conflict FlatNetworkIp (update_ip_pending addr mac ip)
    elim q [ ok i ↦ pure (i, none) | err e ↦ fall_back_subnet addr mac subnet ip ]

  -- onIPCreate from the two updates on.
  unfoldable pub record_addresses : Ip → Bytes → FlatNetworkIp → M Handled
  record_addresses addr mac ip = do
    r ← c.retry_on_conflict FlatNetworkSubnet (update_subnet_used addr mac ip)
    elim r [
      | err e ↦ do event_error (some e); pure (ip, some e)
      | ok subnet ↦ record_pending addr mac ip subnet
    ]

  unfoldable pub report : FlatNetworkIp → Error → M Handled
  report ip e = do event_error (some e); pure (ip, some e)

  -- onIPCreate behind the lock of the subnet.
  unfoldable pub allocate_locked : FlatNetworkIp → M Handled
  allocate_locked ip = do
    r ← subnet_cache_get ip.spec.subnet
    elim r [
      | err e ↦ report ip e
      | ok subnet ↦
          if is_active subnet.status.phase
          then elim (allocate_ip ip subnet) [
            | err e ↦ report ip e
            | ok addr ↦ elim (allocate_mac ip subnet) [
              | err e ↦ report ip e
              | ok mac ↦ record_addresses addr mac ip
            ]
          ]
          else (do note (enqueue_ip ip.namespace ip.name); pure (ip, none))
    ]

  unfoldable pub delete_and_return : FlatNetworkIp → M Handled
  unfolding ip_delete
  delete_and_return ip = do e ← ip_delete ip.namespace ip.name; pure (ip, e)

  unfoldable pub on_ip_create : FlatNetworkIp → M Handled
  on_ip_create ip = do
    r ← pod_cache_get ip.namespace ip.name
    elim r [
      | err e ↦ if is_not_found e then delete_and_return ip else pure (ip, some e)
      | ok pod ↦ with_lock ip.spec.subnet (allocate_locked ip)
    ]

  unfoldable pub on_ip_pending : FlatNetworkIp → M Handled
  unfolding time_now pod_delete
  on_ip_pending ip = do
    t ← time_now
    e ←
        if ltb (ip.status.allocated_time_stamp + 300) t
        then pod_delete ip.namespace ip.name
        else pure none
    elim e [
      | some e' ↦ pure (ip, some e')
      | none ↦ do note (enqueue_ip ip.namespace ip.name); pure (ip, none)
    ]

  unfoldable pub reset_phase : FlatNetworkIp → M (Result FlatNetworkIp)
  unfolding ip_cache_get ip_update_status
  reset_phase ip = do
    r ← ip_cache_get ip.namespace ip.name
    then_or_err r (λ i. ip_update_status (record i { status = record (i.status) { phase = init } }))

  -- onIPUpdate where the subnet exists.
  unfoldable pub check_allocated : FlatNetworkIp → FlatNetworkSubnet → M Handled
  check_allocated ip subnet = do
    r ← pod_cache_get ip.namespace ip.name
    elim r [
      | err e ↦ if is_not_found e then delete_and_return ip else pure (ip, some e)
      | ok pod ↦
          if not (eq_bytes pod.uid ip.spec.pod_id)
          then delete_and_return ip
          else if already_allocate_ip ip subnet && already_allocated_mac ip
          then pure (ip, none)
          else (do
            q ← c.retry_on_conflict FlatNetworkIp (reset_phase ip)
            elim q [ err e ↦ pure (ip, some e) | ok i ↦ pure (i, none) ])
    ]

  unfoldable pub on_ip_update : FlatNetworkIp → M Handled
  on_ip_update ip = do
    r ← subnet_cache_get ip.spec.subnet
    elim r [
      | err e ↦ if is_not_found e then delete_and_return ip else pure (ip, some e)
      | ok subnet ↦ check_allocated ip subnet
    ]

  -- The name is empty or the resource is being deleted.
  unfoldable pub is_skipped : FlatNetworkIp → Bool
  is_skipped ip = is_empty ip.name || elim ip.deletion_timestamp [ none ↦ false | some t ↦ true ]

  dispatch : Phase → FlatNetworkIp → M Handled
  dispatch active ip = on_ip_update ip
  dispatch pending ip = on_ip_pending ip
  dispatch init ip = on_ip_create ip
  dispatch failed ip = on_ip_create ip
  dispatch (unknown s) ip = on_ip_create ip

  unfoldable pub handle_ip : FlatNetworkIp → M Handled
  unfolding dispatch is_skipped
  handle_ip ip = if is_skipped ip then pure (ip, none) else dispatch ip.status.phase ip

  -- The message of handleError, as the resource's status takes it up.
  unfoldable pub record_failure : Bytes → FlatNetworkIp → M (Result FlatNetworkIp)
  unfolding ip_cache_get ip_update_status
  record_failure message ip = do
    r ← ip_cache_get ip.namespace ip.name
    then_or_err r (λ i. ip_update_status (record i {
      status = record (i.status) {
        phase = if is_empty message then i.status.phase else failed;
        failure_message = message;
      };
    }))

  message_of : (Error → Bytes) → Option Error → Bytes
  message_of error_text none = []
  message_of error_text (some e) = error_text e

  settle : Bytes → Handled → M Handled
  settle message (i, e) =
      if is_empty i.name || eq_bytes i.status.failure_message message then pure (i, e) else (do
        r ← c.retry_on_conflict FlatNetworkIp (record_failure message i)
        pure (i, error_of r))

  -- handleError around a handler; the text of an error is a parameter. Where the failure is written
  -- down, the error itself is not returned.
  unfoldable pub handle_error :
      (Error → Bytes) → (FlatNetworkIp → M Handled) → FlatNetworkIp → M Handled
  unfolding message_of settle
  handle_error error_text on_change ip = do
    (i, e) ← on_change ip
    let message = message_of error_text e
    settle message (i, e)
