-- ===== src/Pod/Handlers.antt =====
-- pod.go of pkg/controller/pod, logging left out.
use rancher_flat_network.Prelude.{
  Bool, true, not, ◌&&◌, ◌||◌, [], ◌∷◌, ◌++◌, Option, none, some, if◌then◌else◌, is_empty, ◌==◌,
}
use rancher_flat_network.Net.{Bytes, eq_bytes}
use rancher_flat_network.Types.{
  FlatNetworkIp, FlatNetworkSubnet, Labels, get_key, Error, Result, ok, err, annotation_ip,
  annotation_mac, annotation_subnet, label_subnet, label_selected_ip, label_selected_mac,
  label_flat_network_ip_type, label_flat_mode,
}
use rancher_flat_network.Maps.{merge}
use rancher_flat_network.Cluster.{
  Cluster, Pod, M, ◌>>=◌, ◌>>◌, pure, perform, note, event_error, then_or_err, error_of,
  is_not_found, is_already_exists, create_ip, update_ip, update_pod, enqueue_pod,
}
use rancher_flat_network.FlatNetworkIp.Handlers.{
  is_active, pod_cache_get, ip_cache_get, subnet_cache_get, ip_delete,
}
use rancher_flat_network.FlatNetworkSubnet.Used.{is_deleting}
use rancher_flat_network.Pod.NewIp.{
  ip_type, new_flat_network_ip, set_if_stateful_set_owner_ref, set_workload_and_project_label,
  flat_network_ip_updated,
}

abbrev pub Handled : Type 0
Handled = Pod × Option Error

-- IsPodEnabledFlatNetwork of pkg/utils/utils.go
unfoldable pub is_pod_enabled_flat_network : Pod → Bool
is_pod_enabled_flat_network pod =
    not (is_empty (get_key annotation_ip pod.annotations))
    && not (is_empty (get_key annotation_subnet pod.annotations))

-- The fields that an update takes from the expected IP.
unfoldable pub adopt : FlatNetworkIp → FlatNetworkIp → FlatNetworkIp
adopt expected ip = record ip {
  owner_references = expected.owner_references;
  labels = expected.labels;
  annotations = expected.annotations;
  spec = expected.spec;
}

-- strings.ReplaceAll of one byte by a text
unfoldable pub replace_all : Bytes → Bytes → Bytes
replace_all by [] = []
replace_all by (x ∷ xs) = if x == b':' then by ++ replace_all by xs else x ∷ replace_all by xs

unfoldable pub has_labels : Labels → Labels → Bool
has_labels [] own = true
has_labels ((k, v) ∷ labels) own = eq_bytes (get_key k own) v && has_labels labels own

module _ (c : Cluster) where
  unfoldable pub ip_update : FlatNetworkIp → M (Result FlatNetworkIp)
  ip_update ip = perform (update_ip ip) (λ h. c.ip_updated h ip)

  unfoldable pub ip_create : FlatNetworkIp → M (Result FlatNetworkIp)
  ip_create ip = perform (create_ip ip) (λ h. c.ip_created h ip)

  unfoldable pub pod_update : Pod → M (Result Pod)
  pod_update pod = perform (update_pod pod) (λ h. c.pod_updated h pod)

  unfoldable pub expected_ip : Pod → M (Result FlatNetworkIp)
  unfolding new_flat_network_ip set_if_stateful_set_owner_ref set_workload_and_project_label
  expected_ip pod = do
    r ← new_flat_network_ip c pod
    then_or_err r (λ ip. do
      ip1 ← set_if_stateful_set_owner_ref c ip pod
      ip2 ← set_workload_and_project_label c ip1 pod
      pure (ok ip2))

  unfoldable pub update_exist : FlatNetworkIp → Pod → M (Result FlatNetworkIp)
  unfolding ip_update adopt
  update_exist expected pod = do
    r ← ip_cache_get c pod.namespace pod.name
    then_or_err r (λ i. ip_update (adopt expected i))

  unfoldable pub create_expected : FlatNetworkIp → M (Result FlatNetworkIp)
  unfolding ip_create
  create_expected expected = do
    r ← ip_create expected
    elim r [
      | ok i ↦ pure (ok i)
      | err e ↦ if is_already_exists e then pure (ok expected) else pure (err e)
    ]

  -- An IP that is there and out of date is updated, and then the code goes on to create it.
  unfoldable pub ensure_expected :
      Option FlatNetworkIp → FlatNetworkIp → Pod → M (Result FlatNetworkIp)
  unfolding create_expected
  ensure_expected none expected pod = create_expected expected
  ensure_expected (some a) expected pod =
      if flat_network_ip_updated a expected then pure (ok a) else (do
        q ← c.retry_on_conflict FlatNetworkIp (update_exist expected pod)
        then_or_err q (λ i. create_expected expected))

  -- ensureFlatNetworkIP
  unfoldable pub ensure_flat_network_ip : Pod → M (Result FlatNetworkIp)
  ensure_flat_network_ip pod = do
    r ← ip_cache_get c pod.namespace pod.name
    elim r [
      | err e ↦
          if is_not_found e
          then (do q ← expected_ip pod; then_or_err q (λ i. ensure_expected none i pod))
          else pure (err e)
      | ok a ↦ do q ← expected_ip pod; then_or_err q (λ i. ensure_expected (some a) i pod)
    ]

  -- The labels of updatePodLabel.
  unfoldable pub pod_labels : Pod → FlatNetworkIp → FlatNetworkSubnet → Labels
  unfolding ip_type replace_all
  pod_labels pod ip subnet =
      (label_subnet, get_key annotation_subnet pod.annotations)
      ∷ (
        label_selected_ip,
        if is_empty ip.status.addr
            then []
            else replace_all (b'.' ∷ []) (c.ip_string ip.status.addr),
      )
      ∷ (
        label_selected_mac,
        if is_empty ip.status.mac || is_empty (get_key annotation_mac pod.annotations)
            then []
            else replace_all [] ip.status.mac,
      )
      ∷ (label_flat_network_ip_type, ip_type pod)
      ∷ (label_flat_mode, subnet.spec.flat_mode)
      ∷ []

  unfoldable pub merge_labels : Labels → Pod → M (Result Pod)
  unfolding pod_update
  merge_labels labels pod = do
    r ← pod_cache_get c pod.namespace pod.name
    then_or_err r (λ p. pod_update (record p { labels = merge labels p.labels }))

  unfoldable pub update_pod_label : Pod → FlatNetworkIp → M (Option Error)
  update_pod_label pod ip = do
    r ← subnet_cache_get c (get_key annotation_subnet pod.annotations)
    elim r [
      | err e ↦ pure (some e)
      | ok s ↦ if has_labels (pod_labels pod ip s) pod.labels then pure none else (do
        q ← c.retry_on_conflict Pod (merge_labels (pod_labels pod ip s) pod)
        pure (error_of q))
    ]

  unfoldable pub sync_deleting : Pod → M Handled
  sync_deleting pod = do
    e ← ip_delete c pod.namespace pod.name
    elim e [
      | none ↦ pure (pod, none)
      | some e' ↦ if is_not_found e' then pure (pod, none) else pure (pod, some e')
    ]

  -- sync behind ensureFlatNetworkIP
  unfoldable pub sync_labels : Pod → FlatNetworkIp → M Handled
  sync_labels pod ip =
      if not (is_active ip.status.phase)
      then (do note (enqueue_pod pod.namespace pod.name); pure (pod, none))
      else (do
        e ← update_pod_label pod ip
        elim e [
          | none ↦ pure (pod, none)
          | some e' ↦ do event_error (some e'); pure (pod, some e')
        ])

  unfoldable pub sync : Pod → M Handled
  sync pod =
      if not (is_pod_enabled_flat_network pod)
      then pure (pod, none)
      else if is_deleting pod.deletion_timestamp
      then sync_deleting pod
      else (do
        r ← ensure_flat_network_ip pod
        elim r [ err e ↦ do event_error (some e); pure (pod, some e) | ok ip ↦ sync_labels pod ip ])

  -- handleError: with an error the pod that was given is returned.
  unfoldable pub handle_error : (Pod → M Handled) → Pod → M Handled
  handle_error f pod = do
    (synced, e) ← f pod
    elim e [ some e' ↦ pure (pod, some e') | none ↦ pure (synced, none) ]
