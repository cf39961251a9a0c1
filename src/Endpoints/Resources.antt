-- ===== src/Endpoints/Resources.antt =====
-- GetEndpointResources, getPodEndpointSubset and GetEndpointSliceAddressType of pkg/common/endpoints.go. The
-- JSON of a pod's network status, FindPort and RepackSubsets are parameters.
use rancher_flat_network.Prelude.{
  ℕ, ◌-◌, ◌%◌, ℤ, pos, negsuc, Bool, true, not, ◌||◌, List, [], ◌∷◌, ◌++◌, map, Option, none, some,
  if◌then◌else◌, is_empty,
}
use rancher_flat_network.Net.{Bytes, to4, to16}
use rancher_flat_network.Net.Parse.{parse_ip}
use rancher_flat_network.Types.{
  get_key, codes, other, pod_network_status_not_updated, Result, ok, err,
}
use rancher_flat_network.Objects.{Service, ServicePort}
use rancher_flat_network.Cluster.{Pod, Outcome, returned, panicked}
use rancher_flat_network.FlatNetworkSubnet.Used.{is_deleting}
use rancher_flat_network.Endpoints.Selection.{
  NetworkSelectionElement, Decode, parse_service_network_selections,
  is_in_network_selection_elements_array,
}

pub record NetworkStatus : Type 0 where
  pub name : Bytes
  pub ips : List Bytes

pub record TargetRef : Type 0 where
  pub kind : Bytes
  pub name : Bytes
  pub namespace : Bytes
  pub resource_version : Bytes
  pub uid : Bytes

pub record EndpointAddress : Type 0 where
  pub ip : Bytes
  pub hostname : Bytes
  pub node_name : Option Bytes
  pub target_ref : Option TargetRef

-- An int32 stands as its 32 bits.
pub record EndpointPort : Type 0 where
  pub name : Bytes
  pub port : ℕ
  pub protocol : Bytes
  pub app_protocol : Option Bytes

pub record EndpointSubset : Type 0 where
  pub addresses : List EndpointAddress
  pub ports : List EndpointPort

pub record Endpoint : Type 0 where
  pub addresses : List Bytes
  pub ready : Option Bool
  pub hostname : Option Bytes
  pub node_name : Option Bytes
  pub target_ref : Option TargetRef

-- The port of an EndpointSlice: pointers, nil where nothing is set.
pub record SlicePort : Type 0 where
  pub name : Option Bytes
  pub port : Option ℕ
  pub protocol : Option Bytes
  pub app_protocol : Option Bytes

pub record EndpointResource : Type 0 where
  pub subsets : List EndpointSubset
  pub endpoints : List Endpoint
  pub endpoint_ports : List SlicePort

-- What the code takes from other packages.
pub record Library : Type 0 where
  pub network_attachment_annot : Bytes
  pub network_status_annot : Bytes
  pub decode_selections : Decode
  pub decode_statuses : Bytes → Option (List NetworkStatus)
  -- endpointslice.FindPort of k8s.io
  pub find_port : Pod → ServicePort → Option ℤ
  -- endpoints.RepackSubsets of k8s.io
  pub repack_subsets : List EndpointSubset → List EndpointSubset

unfoldable pub address_of : Pod → Bytes → EndpointAddress
address_of pod ip = record {
  ip = ip;
  hostname = [];
  node_name = some pod.node_name;
  target_ref = some (record {
    kind = codes "Pod";
    name = pod.name;
    namespace = pod.namespace;
    resource_version = pod.resource_version;
    uid = pod.uid;
  });
}

-- The addresses of the networks that the service selects.
unfoldable pub addresses_of :
    Pod → List NetworkSelectionElement → List NetworkStatus → List EndpointAddress
unfolding address_of is_in_network_selection_elements_array
addresses_of pod networks [] = []
addresses_of pod networks (s ∷ ss) =
    let rest = addresses_of pod networks ss in
    if is_in_network_selection_elements_array s.name pod.namespace networks
    then map (address_of pod) s.ips ++ rest
    else rest

-- int32(n)
unfoldable pub int32 : ℤ → ℕ
int32 (pos n) = n % 4294967296
int32 (negsuc n) = 4294967295 - n % 4294967296

unfoldable pub address_to_endpoint : EndpointAddress → Endpoint
address_to_endpoint a = record {
  addresses = a.ip ∷ [];
  ready = some true;
  hostname = if is_empty a.hostname then none else some a.hostname;
  node_name = a.node_name;
  target_ref = a.target_ref;
}

unfoldable pub to_slice_port : EndpointPort → SlicePort
to_slice_port p = record {
  name = some p.name;
  port = some p.port;
  protocol = some p.protocol;
  app_protocol = p.app_protocol;
}

unfoldable pub ep_ports_to_eps_ports : List EndpointPort → List SlicePort
unfolding to_slice_port
ep_ports_to_eps_ports ports = map to_slice_port ports

unfoldable pub endpoints_of : List EndpointSubset → List Endpoint
unfolding address_to_endpoint
endpoints_of [] = []
endpoints_of (s ∷ ss) = map address_to_endpoint s.addresses ++ endpoints_of ss

unfoldable pub slice_ports_of : List EndpointSubset → List SlicePort
unfolding ep_ports_to_eps_ports
slice_ports_of [] = []
slice_ports_of (s ∷ ss) = ep_ports_to_eps_ports s.ports ++ slice_ports_of ss

unfoldable pub cons_subset :
    Result EndpointSubset → Result (List EndpointSubset) → Result (List EndpointSubset)
cons_subset (err e) rest = err e
cons_subset (ok s) (err e) = err e
cons_subset (ok s) (ok ss) = ok (s ∷ ss)

module _ (l : Library) where
  -- A port that the pod lacks is left out.
  unfoldable pub ports_of : Pod → List ServicePort → List EndpointPort
  unfolding int32
  ports_of pod [] = []
  ports_of pod (p ∷ ps) = elim (l.find_port pod p) [
    | none ↦ ports_of pod ps
    | some n ↦
        record { name = p.name; port = int32 n; protocol = p.protocol; app_protocol = none }
        ∷ ports_of pod ps
  ]

  unfoldable pub get_pod_endpoint_subset :
      Service → List NetworkSelectionElement → Pod → Result EndpointSubset
  unfolding addresses_of ports_of
  get_pod_endpoint_subset svc networks pod =
      if is_empty (get_key l.network_status_annot pod.annotations)
      then err pod_network_status_not_updated
      else elim (l.decode_statuses (get_key l.network_status_annot pod.annotations)) [
        | none ↦ err other
        | some statuses ↦ ok (record {
          addresses = addresses_of pod networks statuses;
          ports = ports_of pod svc.spec.ports;
        })
      ]

  -- The loop over the pods.
  unfoldable pub pod_subsets :
      Service → List NetworkSelectionElement → List Pod → Result (List EndpointSubset)
  unfolding get_pod_endpoint_subset cons_subset
  pod_subsets svc networks [] = ok []
  pod_subsets svc networks (pod ∷ pods) =
      let rest = pod_subsets svc networks pods in
      if is_deleting pod.deletion_timestamp
      then rest
      else cons_subset (get_pod_endpoint_subset svc networks pod) rest

  unfoldable pub resource_of : List EndpointSubset → EndpointResource
  unfolding endpoints_of slice_ports_of
  resource_of subsets = record {
    subsets = l.repack_subsets subsets;
    endpoints = endpoints_of (l.repack_subsets subsets);
    endpoint_ports = slice_ports_of (l.repack_subsets subsets);
  }

  -- A nil resource is none.
  unfoldable pub resources_for :
      Service
      → List Pod
      → Outcome (Result (List NetworkSelectionElement))
      → Outcome (Result (Option EndpointResource))
  unfolding pod_subsets resource_of
  resources_for svc pods panicked = panicked
  resources_for svc pods (returned (err e)) = returned (err e)
  resources_for svc pods (returned (ok networks)) = elim (pod_subsets svc networks pods) [
    | err e ↦ returned (err e)
    | ok subsets ↦ returned (ok (some (resource_of subsets)))
  ]

  unfoldable pub get_endpoint_resources :
      Service → List Pod → Outcome (Result (Option EndpointResource))
  unfolding parse_service_network_selections resources_for
  get_endpoint_resources svc pods =
      let value = get_key l.network_attachment_annot svc.annotations in
      if is_empty value
      then returned (ok none)
      else resources_for svc pods
          (parse_service_network_selections l.decode_selections value svc.namespace)

pub data AddressType : Type 0 where
  ipv4 ipv6 : AddressType

-- With an address of a family: an error where the other family is there.
unfoldable pub add_ipv4 : Option AddressType → Result (Option AddressType)
add_ipv4 (some ipv6) = err other
add_ipv4 _ = ok (some ipv4)

unfoldable pub add_ipv6 : Option AddressType → Result (Option AddressType)
add_ipv6 (some ipv4) = err other
add_ipv6 _ = ok (some ipv6)

-- The address type so far, with one address more.
unfoldable pub next_address_type : Option AddressType → Bytes → Result (Option AddressType)
unfolding parse_ip to4 to16 add_ipv4 add_ipv6
next_address_type t a =
    if is_empty (parse_ip a) || is_empty (to16 (parse_ip a))
    then ok t
    else if not (is_empty (to4 (parse_ip a)))
    then add_ipv4 t
    else add_ipv6 t

unfoldable pub address_type_from : Option AddressType → List Bytes → Result (Option AddressType)
unfolding next_address_type
address_type_from t [] = ok t
address_type_from t (a ∷ rest) = elim (next_address_type t a) [
  | err e ↦ err e
  | ok u ↦ address_type_from u rest
]

unfoldable pub all_addresses : List Endpoint → List Bytes
all_addresses [] = []
all_addresses (e ∷ es) = e.addresses ++ all_addresses es

-- The last lines: IPv4 where no address parses.
unfoldable pub or_ipv4 : Result (Option AddressType) → Result AddressType
or_ipv4 (err e) = err e
or_ipv4 (ok none) = ok ipv4
or_ipv4 (ok (some t)) = ok t

unfoldable pub get_endpoint_slice_address_type : EndpointResource → Result AddressType
unfolding address_type_from all_addresses or_ipv4
get_endpoint_slice_address_type r = or_ipv4 (address_type_from none (all_addresses r.endpoints))
