-- ===== src/Test/Endpoints.antt =====
-- The theorems on the endpoints of services at concrete inputs.
use rancher_flat_network.Prelude.{◌≡◌, refl, [], ◌∷◌, ◌++◌, some, none, true, pos, List, Bool}
use rancher_flat_network.Net.{Bytes}
use rancher_flat_network.Types.{codes, ok}
use rancher_flat_network.Cluster.{Pod}
use rancher_flat_network.Objects.{Service}
use rancher_flat_network.Endpoints.Selection.{is_valid_name, parse_pod_network_selection_element}
use rancher_flat_network.Endpoints.Resources.{
  Library, Endpoint, EndpointResource, get_endpoint_resources, get_endpoint_slice_address_type,
  all_addresses,
}
use rancher_flat_network.Endpoints.Families.{
  is_v4, is_v6, any_address, type_of, get_endpoint_slice_address_type-type_of,
}
use rancher_flat_network.Endpoints.Sources.{live, get_endpoint_resources-live}
use rancher_flat_network.Endpoints.Printed.{parse_pod_network_selection_element-printed}
use rancher_flat_network.Test.Controllers.{pod, web, annot}

abbrev endpoint : Bytes → Endpoint
endpoint ip = record {
  addresses = ip ∷ [];
  ready = some true;
  hostname = none;
  node_name = none;
  target_ref = none;
}

abbrev both : EndpointResource
both = record {
  subsets = [];
  endpoints = endpoint (codes "10.128.0.5") ∷ endpoint (codes "fd00::5") ∷ [];
  endpoint_ports = [];
}

get_endpoint_slice_address_type-type_of_example :
    get_endpoint_slice_address_type both
    ≡ type_of
        (any_address is_v4 (all_addresses both.endpoints))
        (any_address is_v6 (all_addresses both.endpoints))
get_endpoint_slice_address_type-type_of_example = get_endpoint_slice_address_type-type_of both

-- Every pod has one network with one address.
abbrev pub library : Library
library = record {
  network_attachment_annot = annot;
  network_status_annot = codes "k8s.v1.cni.cncf.io/network-status";
  decode_selections = λ t. ([], Bool.false);
  decode_statuses =
      λ t. some (record { name = codes "default/net"; ips = codes "10.128.0.5" ∷ [] } ∷ []);
  find_port = λ p s. some (pos 8080);
  repack_subsets = λ ss. ss;
}

abbrev pub attached : Service
attached = record web { annotations = (annot, codes "net") ∷ [] }

abbrev pods : List Pod
pods = record pod { deletion_timestamp = some 5 } ∷ pod ∷ []

get_endpoint_resources-live_example :
    get_endpoint_resources library attached (live pods)
    ≡ get_endpoint_resources library attached pods
get_endpoint_resources-live_example = get_endpoint_resources-live library attached pods

parse_pod_network_selection_element-printed_example :
    parse_pod_network_selection_element
      (codes "kube" ++ b'/' ∷ (codes "net-1" ++ b'@' ∷ codes "eth1"))
      (codes "default")
    ≡ ok (record {
      namespace = codes "kube";
      name = codes "net-1";
      interface_request = codes "eth1";
    })
unfolding is_valid_name
parse_pod_network_selection_element-printed_example =
    parse_pod_network_selection_element-printed (codes "kube") (codes "net-1") (codes "eth1")
      (codes "default") refl refl refl
