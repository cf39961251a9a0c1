-- ===== src/Test/Controllers.antt =====
-- The theorems on the controllers of workloads, pods and services at concrete inputs.
use rancher_flat_network.Prelude.{◌≡◌, refl, [], ◌∷◌, none, some, false, arith, pos, negsuc}
use rancher_flat_network.Net.{Bytes, Ip, compare_bytes}
use rancher_flat_network.Types.{FlatNetworkIp, codes, ok, annotation_ip, annotation_subnet, get_key}
use rancher_flat_network.Cluster.{Cluster, Pod, returned, get_service}
use rancher_flat_network.Objects.{Service, int_value, str_value}
use rancher_flat_network.Webhook.Workload.{reserved_by_other}
use rancher_flat_network.Workload.Handlers.{reserve}
use rancher_flat_network.Workload.Reserved.{AllRefused, reserve-AllRefused}
use rancher_flat_network.Pod.Handlers.{ensure_expected, is_pod_enabled_flat_network}
use rancher_flat_network.Pod.Ensured.{Ensured, ensure_expected-Ensured}
use rancher_flat_network.Service.Expected.{IntStr, new_flat_network_service}
use rancher_flat_network.Service.Handlers.{
  should_delete_flat_network_service, is_workload_disabled_flat_network,
}
use rancher_flat_network.Service.Settled.{is_workload_disabled-should_delete}
use rancher_flat_network.Test.Data.{host, host-IsAddress, ip_at, cluster, cluster-Retries}

reserve-AllRefused_example :
    AllRefused (codes "b") (reserve (codes "a") (host 5 ∷ host 6 ∷ []) []) (host 5 ∷ host 6 ∷ [])
    × ((ip : Ip)
        → reserved_by_other (codes "a") ip (reserve (codes "a") (host 5 ∷ host 6 ∷ []) [])
          ≡ reserved_by_other (codes "a") ip [])
unfolding compare_bytes
reserve-AllRefused_example =
    reserve-AllRefused (codes "a") (codes "b") (host 5 ∷ host 6 ∷ []) [] refl
      (host-IsAddress 5 (omega arith), (host-IsAddress 6 (omega arith), tt))

abbrev pub pod : Pod
pod = record {
  name = codes "pod";
  namespace = codes "default";
  uid = codes "uid";
  resource_version = codes "1";
  node_name = codes "node";
  labels = [];
  annotations = (annotation_ip, codes "auto") ∷ (annotation_subnet, codes "subnet") ∷ [];
  owner_references = [];
  deletion_timestamp = none;
}

-- An IP in the cache that was made for an earlier pod of the name.
abbrev stale : FlatNetworkIp
stale = record (ip_at []) { labels = (codes "subnet", codes "other") ∷ [] }

ensure_expected-Ensured_example :
    Ensured cluster
      (some stale)
      (ip_at [])
      pod
      []
      (ensure_expected cluster (some stale) (ip_at []) pod [])
ensure_expected-Ensured_example =
    ensure_expected-Ensured cluster cluster-Retries (some stale) (ip_at []) pod []

abbrev pub int_str : IntStr
int_str = record {
  to_int = λ t. elim t [ int_value n ↦ pos n | str_value s ↦ pos 0 ];
  from_int = λ z. elim z [ pos n ↦ int_value n | negsuc n ↦ int_value 0 ];
}

abbrev pub annot : Bytes
annot = codes "k8s.v1.cni.cncf.io/networks"

abbrev pub web : Service
web = record {
  name = codes "web";
  namespace = codes "default";
  uid = codes "1";
  annotations = [];
  owner_references = [];
  creation_timestamp = 0;
  deletion_timestamp = none;
  spec = record {
    ports =
        record {
          name = codes "http";
          protocol = codes "TCP";
          port = 80;
          target_port = int_value 8080;
          node_port = 30080;
        }
        ∷ [];
    selector = (codes "app", codes "web") ∷ [];
    cluster_ip = codes "None";
    cluster_ips = [];
    service_type = codes "ClusterIP";
  };
}

-- The pod is listed, and the service is there under its own name.
abbrev services : Cluster
services = record cluster { pods_at = λ h ns l. ok (pod ∷ []); service_at = λ h ns n. ok web }

is_workload_disabled-should_delete_example :
    should_delete_flat_network_service services
      (new_flat_network_service int_str annot web)
      (pod ∷ [])
      []
    ≡ (returned (ok false), get_service (codes "default") (codes "web") ∷ [])
unfolding is_workload_disabled_flat_network is_pod_enabled_flat_network compare_bytes get_key
is_workload_disabled-should_delete_example =
    is_workload_disabled-should_delete int_str annot services web web (pod ∷ []) [] _ [] refl refl
      refl
