-- ===== src/Endpoints/Sources.antt =====
-- Which pods the endpoints of a service come from.
use rancher_flat_network.Prelude.{◌≡◌, refl, List, [], ◌∷◌, if◌then◌else◌, Bool-cases, inl, inr, ap}
use rancher_flat_network.Types.{Result, ok, err, get_key}
use rancher_flat_network.Objects.{Service}
use rancher_flat_network.Cluster.{Pod, Outcome, returned, panicked}
use rancher_flat_network.FlatNetworkSubnet.Used.{is_deleting}
use rancher_flat_network.Endpoints.Selection.{
  NetworkSelectionElement, parse_service_network_selections,
}
use rancher_flat_network.Endpoints.Resources.{
  Library, cons_subset, resources_for, pod_subsets, get_endpoint_resources, get_pod_endpoint_subset,
}

-- The pods that are not being deleted.
pub live : List Pod → List Pod
live [] = []
live (p ∷ ps) = if is_deleting p.deletion_timestamp then live ps else p ∷ live ps

module _ (l : Library) where
  pod_subsets-live :
      (svc : Service) (networks : List NetworkSelectionElement) (pods : List Pod)
      → pod_subsets l svc networks (live pods) ≡ pod_subsets l svc networks pods
  unfolding pod_subsets live
  pod_subsets-live svc networks [] = refl
  pod_subsets-live svc networks (p ∷ ps) = elim (Bool-cases (is_deleting p.deletion_timestamp)) [
    | inl gone ↦ rw gone (pod_subsets-live svc networks ps)
    | inr here ↦
        let ih = pod_subsets-live svc networks ps in
        rw here (rw here (ap (cons_subset (get_pod_endpoint_subset l svc networks p)) ih))
  ]

  resources_for-live :
      (svc : Service) (pods : List Pod) (q : Outcome (Result (List NetworkSelectionElement)))
      → resources_for l svc (live pods) q ≡ resources_for l svc pods q
  unfolding resources_for
  resources_for-live svc pods panicked = refl
  resources_for-live svc pods (returned (err e)) = refl
  resources_for-live svc pods (returned (ok networks)) =
      let same = pod_subsets-live svc networks pods in rw (same, resources_for) refl

  -- GetEndpointResources gives the same subsets, endpoints and ports, or the same error, for a list of
  -- pods as for those of the list that are not being deleted: a deleted pod is no endpoint, and its
  -- missing or broken network status is no error.
  pub get_endpoint_resources-live :
      (svc : Service) (pods : List Pod)
      → get_endpoint_resources l svc (live pods) ≡ get_endpoint_resources l svc pods
  unfolding get_endpoint_resources
  get_endpoint_resources-live svc pods =
      let q =
        parse_service_network_selections l.decode_selections
          (get_key l.network_attachment_annot svc.annotations) svc.namespace in
      let same = resources_for-live svc pods q in rw same refl
