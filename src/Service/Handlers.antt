-- ===== src/Service/Handlers.antt =====
-- service.go, flatnetwork_service.go and the rest of utils.go in pkg/controller/service, logging left out.
-- An error is named by its reason alone; how long a request to look again waits is not kept.
use rancher_flat_network.Prelude.{
  ◌-◌, Bool, true, false, not, ◌||◌, List, [], ◌∷◌, Option, none, some, if◌then◌else◌, is_empty,
  ltb,
}
use rancher_flat_network.Net.{Bytes, eq_bytes}
use rancher_flat_network.Types.{
  Labels, get_key, codes, Error, Result, ok, err, annotation_flat_network_service,
}
use rancher_flat_network.Objects.{Service}
use rancher_flat_network.Cluster
use rancher_flat_network.Cluster.{
  Cluster, Pod, M, ◌>>=◌, ◌>>◌, pure, perform, note, then_or_err, is_not_found, is_already_exists,
  get_service, create_service, update_service, delete_service, enqueue_service,
}
use rancher_flat_network.FlatNetworkSubnet.Used.{is_deleting}
use rancher_flat_network.Pod.Handlers.{is_pod_enabled_flat_network}
use rancher_flat_network.Service.Kinds.{
  flat_network_service_name_suffix, trim_suffix, is_ingress_service, is_macvlan_v1_service,
  is_flat_network_service,
}
use rancher_flat_network.Service.Expected.{
  IntStr, new_flat_network_service, flat_network_service_updated,
}

-- The service that a handler returns, none for nil, and the error.
abbrev pub Handled : Type 0
Handled = Option Service × Option Error

-- A pod that disables the service by its annotation.
unfoldable pub disables : Pod → Bool
disables pod = eq_bytes (get_key annotation_flat_network_service pod.annotations) (codes "disabled")

unfoldable pub any_pod : (Pod → Bool) → List Pod → Bool
any_pod p [] = false
any_pod p (x ∷ xs) = p x || any_pod p xs

-- What an update takes from the expected service.
unfoldable pub adopt_service : Service → Service → Service
adopt_service expected svc = record svc {
  spec = expected.spec;
  annotations = expected.annotations;
  owner_references = expected.owner_references;
}

module _ (c : Cluster) where
  unfoldable pub service_cache_get : Bytes → Bytes → M (Result Service)
  service_cache_get ns name = perform (get_service ns name) (λ h. c.service_at h ns name)

  unfoldable pub service_create : Service → M (Result Service)
  service_create svc = perform (create_service svc) (λ h. c.service_created h svc)

  unfoldable pub service_update : Service → M (Result Service)
  service_update svc = perform (update_service svc) (λ h. c.service_updated h svc)

  unfoldable pub service_delete : Bytes → Bytes → M (Option Error)
  service_delete ns name = perform (delete_service ns name) (λ h. c.service_deleted h ns name)

  unfoldable pub pods_list : Bytes → Labels → M (Result (List Pod))
  pods_list ns selector = perform (Cluster.list_pods ns selector) (λ h. c.pods_at h ns selector)

  -- A service younger than ten seconds is looked at again; times are in seconds.
  unfoldable pub await_pods : Service → M (Result Bool)
  await_pods svc = do
    t ← perform Cluster.now (λ h. c.time_at h)
    if ltb (t - svc.creation_timestamp) 10
        then (do note (enqueue_service svc.namespace svc.name); pure (ok true))
        else pure (ok true)

  unfoldable pub is_workload_disabled_flat_network : Service → M (Result Bool)
  unfolding pods_list await_pods disables any_pod
  is_workload_disabled_flat_network svc = if is_empty svc.spec.selector then pure (ok true) else (do
    r ← pods_list svc.namespace svc.spec.selector
    then_or_err r (λ pods.
        if is_empty pods
        then await_pods svc
        else if any_pod disables pods
        then pure (ok true)
        else pure (ok (not (any_pod is_pod_enabled_flat_network pods)))))

  unfoldable pub create_flat_network_service : Service → Service → M Handled
  unfolding service_create
  create_flat_network_service svc expected = do
    r ← service_create expected
    elim r [
      | ok created ↦ pure (some svc, none)
      | err e ↦ if is_already_exists e then pure (some svc, none) else pure (some svc, some e)
    ]

  -- The function that is retried on a conflict.
  unfoldable pub update_attempt : Service → M (Result Service)
  unfolding service_cache_get service_update adopt_service
  update_attempt expected = do
    r ← service_cache_get expected.namespace expected.name
    then_or_err r (λ svc. service_update (adopt_service expected svc))

  -- With the service of the update, the request to look again names that one.
  unfoldable pub update_flat_network_service : Service → Service → M Handled
  unfolding update_attempt
  update_flat_network_service svc expected = do
    r ← c.retry_on_conflict Service (update_attempt expected)
    elim r [
      | err e ↦ pure (some svc, some e)
      | ok updated ↦ do note (enqueue_service updated.namespace updated.name); pure (none, none)
    ]

  unfoldable pub ensure_flat_network_service : Service → Service → M Handled
  unfolding service_cache_get create_flat_network_service update_flat_network_service
  ensure_flat_network_service svc expected = do
    r ← service_cache_get expected.namespace expected.name
    elim r [
      | err e ↦
          if is_not_found e
          then create_flat_network_service svc expected
          else pure (some svc, some e)
      | ok exist ↦
          if flat_network_service_updated exist expected
          then (do note (enqueue_service svc.namespace svc.name); pure (some svc, none))
          else update_flat_network_service svc expected
    ]

  unfoldable pub should_delete_flat_network_service : Service → List Pod → M (Result Bool)
  unfolding service_cache_get disables any_pod
  should_delete_flat_network_service svc pods =
      if is_empty svc.spec.selector then pure (ok true) else (do
        r ← service_cache_get svc.namespace (trim_suffix flat_network_service_name_suffix svc.name)
        elim r [
          | err e ↦ if is_not_found e then pure (ok false) else pure (err e)
          | ok original ↦ pure (ok (any_pod disables pods))
        ])

  unfoldable pub handle_flat_network_service : Service → M Handled
  unfolding pods_list should_delete_flat_network_service service_delete
  handle_flat_network_service svc = do
    r ← pods_list svc.namespace svc.spec.selector
    elim r [
      | err e ↦ pure (some svc, some e)
      | ok pods ↦ do
        q ← should_delete_flat_network_service svc pods
        elim q [
          | err e ↦ pure (none, some e)
          | ok gone ↦
              if gone
              then (do e ← service_delete svc.namespace svc.name; pure (some svc, e))
              else (do note (enqueue_service svc.namespace svc.name); pure (some svc, none))
        ]
    ]

  module _ (i : IntStr) (network_attachment_annot : Bytes) where
    unfoldable pub handle_default_service : Service → M Handled
    unfolding is_workload_disabled_flat_network ensure_flat_network_service
    handle_default_service svc = do
      r ← is_workload_disabled_flat_network svc
      elim r [
        | err e ↦ pure (some svc, some e)
        | ok disabled ↦
            if disabled
            then pure (some svc, none)
            else ensure_flat_network_service svc
                (new_flat_network_service i network_attachment_annot svc)
      ]

    unfoldable pub sync_service : Service → M Handled
    unfolding handle_flat_network_service handle_default_service
    sync_service svc =
        if is_empty svc.name || is_deleting svc.deletion_timestamp
        then pure (some svc, none)
        else if is_ingress_service svc
        then pure (some svc, none)
        else if is_flat_network_service network_attachment_annot svc
        then handle_flat_network_service svc
        else if is_macvlan_v1_service network_attachment_annot svc
        then pure (some svc, none)
        else handle_default_service svc
