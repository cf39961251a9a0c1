-- ===== src/Test/Data.antt =====
-- A subnet, IPs and a cluster for the runs.
use rancher_flat_network.Prelude.{ℕ, ◌<◌, ◌≡◌, refl, List, [], ◌∷◌, none, pos, arith, ◌+◌, false}
use rancher_flat_network.Net.{Ip}
use rancher_flat_network.Net.Value.{value, size, IsIp16}
use rancher_flat_network.Types.{
  IpRange, FlatNetworkIp, FlatNetworkSubnet, active, init, codes, ok, err, not_found,
}
use rancher_flat_network.Cluster.{Cluster, Retries}
use rancher_flat_network.Ipcalc.Canonical.{IsCanonical}
use rancher_flat_network.Ipcalc.Laws.{IsAddress}

-- 10.128.0.d as 16 bytes
abbrev pub host : ℕ → Ip
host d = 0 ∷ 0 ∷ 0 ∷ 0 ∷ 0 ∷ 0 ∷ 0 ∷ 0 ∷ 0 ∷ 0 ∷ 255 ∷ 255 ∷ 10 ∷ 128 ∷ 0 ∷ d ∷ []

pub host-value : (d : ℕ) → value (host d) ≡ 281470857904128 + d
unfolding value size
host-value d = omega arith

pub host-IsIp16 : (d : ℕ) → d < 256 → IsIp16 (host d)
host-IsIp16 d h = ground arith

pub host-IsAddress : (d : ℕ) → d < 256 → IsAddress (host d)
host-IsAddress d h = (host-IsIp16 d h, omega (arith, host-value d))

abbrev pub hosts : ℕ → ℕ → IpRange
hosts a b = record { from = host a; to = host b }

-- Used: 10.128.0.5 to 10.128.0.7.
abbrev pub used_ranges : List IpRange
used_ranges = hosts 5 7 ∷ []

pub used_ranges-IsCanonical : IsCanonical 1 used_ranges
used_ranges-IsCanonical = (
  (host-IsIp16 5 (omega arith), host-IsIp16 7 (omega arith)),
  omega (arith, host-value 5),
  omega (arith, host-value 5, host-value 7),
  tt,
)

abbrev pub subnet_of : List IpRange → List IpRange → FlatNetworkSubnet
subnet_of ranges used = record {
  name = codes "subnet";
  namespace = codes "cattle-flat-network";
  labels = [];
  annotations = [];
  deletion_timestamp = none;
  spec = record {
    flat_mode = codes "macvlan";
    master = codes "eth0";
    vlan = pos 0;
    cidr = codes "10.128.0.0/16";
    mode = codes "bridge";
    ipvlan_flag = [];
    gateway = host 1;
    ranges = ranges;
    routes = [];
    route_settings = record {
      add_cluster_cidr = false;
      add_service_cidr = false;
      add_node_cidr = false;
      add_pod_ip_to_host = false;
      flat_network_default_gateway = false;
    };
  };
  status = record {
    phase = active;
    failure_message = [];
    gateway = host 1;
    reserved_ip = [];
    used_ip = used;
    used_ip_count = pos 3;
    used_mac = [];
  };
}

abbrev pub subnet : FlatNetworkSubnet
subnet = subnet_of [] used_ranges

abbrev pub ip_at : Ip → FlatNetworkIp
ip_at addr = record {
  name = codes "pod";
  namespace = codes "default";
  labels = [];
  annotations = [];
  owner_references = [];
  deletion_timestamp = none;
  spec = record { subnet = codes "subnet"; addrs = []; macs = []; pod_id = codes "uid" };
  status = record {
    phase = init;
    failure_message = [];
    allocated_time_stamp = 0;
    addr = addr;
    mac = [];
  };
}

-- Every read finds the one subnet and the one IP, no pod is there, and every write goes well the
-- first time.
abbrev pub cluster : Cluster
cluster = record {
  pod_at = λ h ns n. err not_found;
  ip_at = λ h ns n. ok (ip_at []);
  subnet_at = λ h ns n. ok subnet;
  subnets_at = λ h ns l. ok (subnet ∷ []);
  ips_at = λ h ns l. ok (ip_at (host 5) ∷ []);
  subnet_updated = λ h s. ok s;
  subnet_status_updated = λ h s. ok s;
  ip_created = λ h i. ok i;
  ip_updated = λ h i. ok i;
  ip_status_updated = λ h i. ok i;
  pod_updated = λ h p. ok p;
  pods_at = λ h ns l. ok [];
  object_at = λ h k ns n. err not_found;
  workload_updated = λ h w. ok w;
  service_at = λ h ns n. err not_found;
  service_created = λ h s. ok s;
  service_updated = λ h s. ok s;
  service_deleted = λ h ns n. none;
  network_attachment_at = λ h ns n. err not_found;
  network_attachment_created = λ h d. ok d;
  network_attachment_updated = λ h d. ok d;
  pod_deleted = λ h ns n. none;
  ip_deleted = λ h ns n. none;
  allocating_at = λ h n. false;
  time_at = λ h. 1000;
  ip_string = λ a. a;
  network_string = λ n. codes "10.128.0.0/16";
  retry_on_conflict = λ A f. f;
}

pub cluster-Retries : Retries cluster
cluster-Retries = record { last_attempt = λ A f h. ([], refl) }
