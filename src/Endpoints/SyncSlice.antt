-- ===== src/Endpoints/SyncSlice.antt =====
-- pkg/controller/endpointslice: the EndpointSlices of a service; logging and registration left out. The lists are
-- sorted in place, which leaves a sorted list as it is.
use rancher_flat_network.Prelude.{
  ◌==◌, ltb, length, Bool, true, false, not, ◌&&◌, ◌||◌, List, [], ◌∷◌, Option, none, some,
  if◌then◌else◌, is_empty,
}
use rancher_flat_network.Net.{Bytes, eq_bytes, lt_bytes}
use rancher_flat_network.Types.{Labels, get_key, set_key, codes, Result, ok, err}
use rancher_flat_network.Objects.{Service}
use rancher_flat_network.Cluster.{returned, panicked}
use rancher_flat_network.FlatNetworkSubnet.Used.{is_deleting}
use rancher_flat_network.Endpoints.Resources.{
  Endpoint, SlicePort, EndpointResource, AddressType, ipv4, ipv6, get_endpoint_resources,
  get_endpoint_slice_address_type,
}
use rancher_flat_network.Endpoints.Server
use rancher_flat_network.Endpoints.Server.{
  EndpointSlice, M, ◌>>=◌, ◌>>◌, pure, perform, note, then_or_err, Server,
}
use rancher_flat_network.Endpoints.Sync.{label_service_name, with_resource}

abbrev pub label_managed_by : Bytes
label_managed_by = codes "endpointslice.kubernetes.io/managed-by"

unfoldable pub address_type_text : AddressType → Bytes
address_type_text ipv4 = codes "IPv4"
address_type_text ipv6 = codes "IPv6"

unfoldable pub get_available_endpoint_slices : List EndpointSlice → List EndpointSlice
get_available_endpoint_slices [] = []
get_available_endpoint_slices (s ∷ ss) =
    let rest = get_available_endpoint_slices ss in
    if is_deleting s.deletion_timestamp
      || (not (eq_bytes s.address_type (codes "IPv4"))
          && not (eq_bytes s.address_type (codes "IPv6")))
    then rest
    else s ∷ rest

-- The names that a list is sorted by, where all are there; `less` reads every element of a list of two or
-- more, and a missing name panics.
unfoldable pub target_name : Endpoint → Option Bytes
target_name e = elim e.target_ref [ none ↦ none | some t ↦ some t.name ]

unfoldable pub all_named {ℓ} : {A : Type ℓ} → (A → Option Bytes) → List A → Bool
all_named name [] = true
all_named name (x ∷ xs) =
    let rest = all_named name xs in elim (name x) [ none ↦ false | some n ↦ rest ]

unfoldable pub after : Option Bytes → Option Bytes → Bool
after (some a) (some b) = lt_bytes b a
after _ _ = false

unfoldable pub done_of : Result EndpointSlice → Result (Unit {0})
done_of (ok s) = ok tt
done_of (err e) = err e

module _ (c : Server) where
  unfoldable pub sort_by : {A : Type 0} → (A → Option Bytes) → List A → M (List A)
  unfolding all_named after
  sort_by name xs h =
      if ltb (length xs) 2 || all_named name xs
      then (returned (c.sort_slice _ (λ x y. after (name x) (name y)) xs), h)
      else (panicked, h)

  -- The write to the labels, of which a nil map panics.
  unfoldable pub managed : Option Labels → M Labels
  managed none h = (panicked, h)
  managed (some labels) h =
      (returned (set_key label_managed_by (codes "rancher-flat-network-controller") labels), h)

  -- The slice with the sorted resource is written, if it has the resource's type of address.
  unfoldable pub write_typed :
      EndpointSlice
      → Labels
      → List Endpoint
      → List SlicePort
      → Result AddressType
      → M (Result (Unit {0}))
  unfolding address_type_text done_of
  write_typed s labels endpoints ports (err e) h = (returned (ok tt), h)
  write_typed s labels endpoints ports (ok t) h =
      if not (eq_bytes (address_type_text t) s.address_type)
      then (returned (ok tt), h)
      else let new : EndpointSlice = record s {
        labels = some labels;
        endpoints = endpoints;
        ports = ports;
      } in
        (returned (done_of (c.slice_updated h new)), Server.update_slice new ∷ h)

  -- Behind the four sorts
  unfoldable pub write_slice :
      EndpointSlice
      → List Endpoint
      → List SlicePort
      → List Endpoint
      → List SlicePort
      → M (Result (Unit {0}))
  unfolding managed write_typed get_endpoint_slice_address_type
  write_slice s old_endpoints old_ports endpoints ports =
      if length old_endpoints == length endpoints
        && c.endpoints_derive endpoints old_endpoints
        && c.ports_derive ports old_ports
      then pure (ok tt)
      else (do
        labels ← managed s.labels
        write_typed s labels endpoints ports (
            get_endpoint_slice_address_type
              (record { subsets = []; endpoints = endpoints; endpoint_ports = ports })))

  unfoldable pub sort_and_write : EndpointResource → EndpointSlice → M (Result (Unit {0}))
  unfolding sort_by target_name write_slice
  sort_and_write r s = do
    old_endpoints ← sort_by target_name s.endpoints
    old_ports ← sort_by (λ p. p.name) s.ports
    endpoints ← sort_by target_name r.endpoints
    ports ← sort_by (λ p. p.name) r.endpoint_ports
    write_slice s old_endpoints old_ports endpoints ports

  unfoldable pub slice_attempt : EndpointResource → Bytes → Bytes → M (Result (Unit {0}))
  unfolding sort_and_write
  slice_attempt r namespace name = do
    g ← perform (Server.get_slice namespace name) (λ h. c.slice_at h namespace name)
    then_or_err g (sort_and_write r)

  unfoldable pub update_slices : EndpointResource → List EndpointSlice → M (Result (Unit {0}))
  unfolding slice_attempt
  update_slices r [] = pure (ok tt)
  update_slices r (s ∷ ss) =
      let rest = update_slices r ss in
      do
        w ← c.retry_on_conflict (Unit {0}) (slice_attempt r s.namespace s.name)
        then_or_err w (λ done. rest)

  unfoldable pub sync_discovery_v1_endpoint_slice :
      Service → Option EndpointResource → M (Result (Unit {0}))
  unfolding get_available_endpoint_slices update_slices
  sync_discovery_v1_endpoint_slice svc none = pure (ok tt)
  sync_discovery_v1_endpoint_slice svc (some r) = do
    l ←
        perform (Server.list_slices svc.namespace ((label_service_name, svc.name) ∷ []))
          (λ h. c.slices_at h svc.namespace ((label_service_name, svc.name) ∷ []))
    then_or_err l (λ slices. update_slices r (get_available_endpoint_slices slices))

  unfoldable pub sync_slice_of : EndpointSlice → Bytes → M (Result (Unit {0}))
  unfolding with_resource sync_discovery_v1_endpoint_slice get_endpoint_resources
  sync_slice_of s service_name = do
    g ←
        perform (Server.get_service s.namespace service_name)
          (λ h. c.service_at h s.namespace service_name)
    then_or_err g (λ svc. do
      p ←
          perform (Server.list_pods svc.namespace svc.spec.selector)
            (λ h. c.pods_at h svc.namespace svc.spec.selector)
      then_or_err p (λ pods.
          with_resource c (sync_discovery_v1_endpoint_slice svc)
            (note (Server.enqueue_slice_after s.namespace s.name))
            (get_endpoint_resources c.library svc pods)))

  unfoldable pub sync_labelled : EndpointSlice → Option Labels → M (Result (Unit {0}))
  unfolding sync_slice_of
  sync_labelled s none = pure (ok tt)
  sync_labelled s (some labels) =
      if is_empty labels || is_empty (get_key label_service_name labels)
      then pure (ok tt)
      else sync_slice_of s (get_key label_service_name labels)

  unfoldable pub sync_endpoint_slice : Option EndpointSlice → M (Result (Unit {0}))
  unfolding sync_labelled
  sync_endpoint_slice none = pure (ok tt)
  sync_endpoint_slice (some s) =
      if not c.support_discovery_v1 || is_empty s.name || is_deleting s.deletion_timestamp
      then pure (ok tt)
      else sync_labelled s s.labels
