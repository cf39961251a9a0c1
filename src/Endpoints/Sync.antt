-- ===== src/Endpoints/Sync.antt =====
-- pkg/controller/endpoints: the Endpoints of a service; logging and registration left out.
use rancher_flat_network.Prelude.{
  Bool, true, false, not, ◌||◌, List, [], ◌∷◌, Option, none, some, if◌then◌else◌, is_empty,
}
use rancher_flat_network.Net.{Bytes}
use rancher_flat_network.Types.{
  set_key, codes, Error, pod_network_status_not_updated, Result, ok, err,
}
use rancher_flat_network.Objects.{Service}
use rancher_flat_network.Cluster.{Pod, Outcome, returned, panicked}
use rancher_flat_network.FlatNetworkSubnet.Used.{is_deleting}
use rancher_flat_network.Pod.Handlers.{is_pod_enabled_flat_network}
use rancher_flat_network.Endpoints.Resources.{EndpointResource, get_endpoint_resources}
use rancher_flat_network.Endpoints.Server
use rancher_flat_network.Endpoints.Server.{
  Endpoints, EndpointSlice, M, ◌>>=◌, ◌>>◌, pure, perform, note, then_or_err, Server,
}

abbrev pub label_service_name : Bytes
label_service_name = codes "kubernetes.io/service-name"

abbrev pub label_skip_mirror : Bytes
label_skip_mirror = codes "endpointslice.kubernetes.io/skip-mirror"

unfoldable pub is_not_updated : Error → Bool
is_not_updated pod_network_status_not_updated = true
is_not_updated _ = false

-- The Endpoints that are written.
unfoldable pub with_subsets : Bool → Service → EndpointResource → Endpoints → Endpoints
with_subsets discovery svc r e = record e {
  owner_references =
      record {
        kind = codes "Service";
        name = svc.name;
        uid = svc.uid;
        api_version = codes "v1";
        controller = some true;
        block_owner_deletion = some true;
      }
      ∷ [];
  labels = if discovery then set_key label_skip_mirror (codes "true") e.labels else e.labels;
  subsets = r.subsets;
}

unfoldable pub all_enabled : List Pod → Bool
unfolding is_pod_enabled_flat_network
all_enabled [] = true
all_enabled (p ∷ ps) =
    let rest = all_enabled ps in if is_pod_enabled_flat_network p then rest else false

module _ (c : Server) where
  -- One attempt of syncCoreV1Endpoints, behind the read.
  unfoldable pub write_endpoints : Service → EndpointResource → Endpoints → M (Result (Unit {0}))
  unfolding with_subsets
  write_endpoints svc r e = if c.subsets_derive r.subsets e.subsets then pure (ok tt) else (do
    u ←
        perform (Server.update_endpoints (with_subsets c.support_discovery_v1 svc r e))
          (λ h. c.endpoints_updated h (with_subsets c.support_discovery_v1 svc r e))
    then_or_err u (λ updated. pure (ok tt)))

  unfoldable pub endpoints_attempt : Service → EndpointResource → M (Result (Unit {0}))
  unfolding write_endpoints
  endpoints_attempt svc r = do
    g ←
        perform (Server.get_endpoints svc.namespace svc.name)
          (λ h. c.endpoints_at h svc.namespace svc.name)
    then_or_err g (λ e. write_endpoints svc r e)

  -- The slices of the service are looked at again.
  unfoldable pub enqueue_slices : List EndpointSlice → M (Result (Unit {0}))
  enqueue_slices [] = pure (ok tt)
  enqueue_slices (s ∷ ss) =
      let rest = enqueue_slices ss in do note (Server.enqueue_slice s.namespace s.name); rest

  unfoldable pub sync_core_v1_endpoints :
      Endpoints → Service → Option EndpointResource → M (Result (Unit {0}))
  unfolding endpoints_attempt enqueue_slices
  sync_core_v1_endpoints e svc none = pure (ok tt)
  sync_core_v1_endpoints e svc (some r) = do
    w ← c.retry_on_conflict (Unit {0}) (endpoints_attempt svc r)
    then_or_err w (λ done. do
      l ←
          perform (Server.list_slices e.namespace ((label_service_name, svc.name) ∷ []))
            (λ h. c.slices_at h e.namespace ((label_service_name, svc.name) ∷ []))
      then_or_err l enqueue_slices)

  -- What is done with the endpoints that GetEndpointResources gives.
  unfoldable pub with_resource :
      (Option EndpointResource → M (Result (Unit {0})))
      → M (Result (Unit {0}))
      → Outcome (Result (Option EndpointResource))
      → M (Result (Unit {0}))
  unfolding is_not_updated
  with_resource write again panicked h = (panicked, h)
  with_resource write again (returned (ok r)) h = write r h
  with_resource write again (returned (err e)) h =
      if is_not_updated e then again h else (returned (err e), h)

  unfoldable pub sync_of_service : Endpoints → Service → List Pod → M (Result (Unit {0}))
  unfolding all_enabled with_resource sync_core_v1_endpoints get_endpoint_resources
  sync_of_service e svc pods =
      if not (all_enabled pods)
      then pure (ok tt)
      else with_resource (sync_core_v1_endpoints e svc)
          (note (Server.enqueue_endpoints_after e.namespace e.name))
          (get_endpoint_resources c.library svc pods)

  -- The object that is returned is the one that is given.
  unfoldable pub sync_endpoints : Option Endpoints → M (Result (Unit {0}))
  unfolding sync_of_service
  sync_endpoints none = pure (ok tt)
  sync_endpoints (some e) =
      if is_empty e.name || is_deleting e.deletion_timestamp then pure (ok tt) else (do
        s ← perform (Server.get_service e.namespace e.name) (λ h. c.service_at h e.namespace e.name)
        then_or_err s (λ svc. do
          p ←
              perform (Server.list_pods svc.namespace svc.spec.selector)
                (λ h. c.pods_at h svc.namespace svc.spec.selector)
          then_or_err p (λ pods. sync_of_service e svc pods)))
