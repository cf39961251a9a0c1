-- ===== src/Test/Plugin.antt =====
-- The commands of the CNI plugin on a kernel that answers simply, and their theorems there.
use rancher_flat_network.Prelude.{
  Bool, true, ◌≡◌, refl, false, [], ◌∷◌, Option, none, some, pos, inl, inr,
}
use rancher_flat_network.Net.{compare_bytes}
use rancher_flat_network.Net.Parse.{parse_cidr}
use rancher_flat_network.Types.{
  FlatNetworkSubnet, Error, other, link_not_found, no_such_process, Result, ok, err, codes,
}
use rancher_flat_network.Cni.Macvlan
use rancher_flat_network.Cni.Kernel
use rancher_flat_network.Cni.Kernel.{
  Kernel, Place, host, pod, Link, KernelRoute, History, family_v4,
}
use rancher_flat_network.Cni.Config.{NetConf}
use rancher_flat_network.Cni.Command.{CmdArgs, Codec}
use rancher_flat_network.Cni.Add.{Stage, step, attempt}
use rancher_flat_network.Cni.Attach.{add}
use rancher_flat_network.Cni.Check.{check}
use rancher_flat_network.Cni.Del.{del}
use rancher_flat_network.Cni.Route.{get_route_by_ip, update_pod_default_gateway}
use rancher_flat_network.Cni.Cleanup.{noticed}
use rancher_flat_network.Cni.Unwind.{made_iface, Unwound, add-Unwound}
use rancher_flat_network.Cni.Shown.{LastAttempt}
use rancher_flat_network.Cni.Report.{Reported, add-Reported}
use rancher_flat_network.Cni.Validate.{IsRefused, check-IsRefused}
use rancher_flat_network.Cni.Removal.{del_again}
use rancher_flat_network.Cni.Gateway.{Moved, update_pod_default_gateway-Moved}
use rancher_flat_network.Test.Data
use rancher_flat_network.Test.Data.{subnet, ip_at}

abbrev link : Link
link = record {
  name = codes "eth1";
  index = 7;
  mac = [];
  promisc = 1;
  kind = Kernel.macvlan Macvlan.bridge;
}

abbrev default_route : KernelRoute
default_route = record {
  link_index = 3;
  dst = none;
  src = [];
  gw = 10 ∷ 42 ∷ 0 ∷ 1 ∷ [];
  via = [];
  priority = pos 0;
  family = family_v4;
}

abbrev local_route : KernelRoute
local_route = record default_route {
  dst = some (record { ip = 10 ∷ 42 ∷ 0 ∷ 0 ∷ []; net_mask = 255 ∷ 255 ∷ 0 ∷ 0 ∷ [] });
}

-- Every call goes well, but for the configuration of the interface where that is asked for, and for links in the
-- pod that are not found where that is asked for.
abbrev kernel_with : Option Error → Result Link → Kernel
kernel_with failure in_pod_link = record {
  entered = λ h. none;
  netns_opened = λ h. none;
  link_named = λ h p n. elim p [ host ↦ ok link | pod ↦ in_pod_link ];
  link_indexed = λ h p i. ok link;
  links = λ h. ok (record link { name = codes "eth0" } ∷ []);
  root_at = λ h. none;
  link_added = λ h l. none;
  link_up = λ h n. none;
  promisc_set = λ h n. none;
  link_renamed = λ h a b. none;
  link_deleted = λ h p n. none;
  name_at = λ h. ok (codes "tmp");
  addrs = λ h p n f. ok [];
  routes = λ h p. ok (local_route ∷ default_route ∷ []);
  routes_to = λ h ip. ok [];
  route_added = λ h p r. none;
  route_deleted = λ h p r. some no_such_process;
  route_replaced = λ h p r. none;
  ip_at = λ h ns n. ok (ip_at (Data.host 8));
  subnet_at = λ h n. ok subnet;
  ip_status_updated = λ h i. ok i;
  ipam_added = λ h b. ok [];
  ipam_deleted = λ h b. none;
  ipam_checked = λ h b. none;
  configured = λ h n. failure;
  printed = λ h. none;
  get_ip_family = λ ip. family_v4;
  network_string = λ n. codes "10.128.0.0/16";
  ip_string = λ a. a;
  map_order = λ l. l;
  retry_on_error = λ A again m. m;
  retry_on_conflict = λ A m. m;
}

abbrev net_conf : NetConf
net_conf = record {
  cni_version = [];
  raw_prev_result = some [];
  ipam = record { ipam_type = codes "static"; addresses = []; routes = [] };
  flat_network_config = record {
    mtu = pos 1500;
    cluster_cidr = [];
    service_cidr = [];
    arp_policy = [];
    proxy_arp = false;
  };
}

abbrev codec : Codec
codec = record {
  set_up = none;
  load_conf = λ b. ok net_conf;
  load_args = λ b. ok (codes "pod", codes "default");
  connected = λ b. none;
  encode = λ n. ok (codes "config");
  addresses_of = λ b. ok (Data.host 8 ∷ []);
  parse_prev_result = λ n b. ok (record { interfaces = [] });
  ips_validated = λ h n r. none;
  routes_validated = λ h r. none;
  left_address = λ h. [];
}

abbrev args : CmdArgs
args = record { netns = codes "ns"; if_name = codes "eth1"; args = []; path = []; stdin_data = [] }

abbrev works : Kernel
works = kernel_with none (ok link)

abbrev unconfigured : Kernel
unconfigured = kernel_with (some other) (ok link)

abbrev gone : Kernel
gone = kernel_with none (err link_not_found)

added : (add works codec args []).0 ≡ none
unfolding add step attempt compare_bytes Kernel.find_link Macvlan.mode_from_string Kernel.in_pod
    parse_cidr
added = refl

refused : (add unconfigured codec args []).0 ≡ some Stage.configured
unfolding add step attempt compare_bytes Kernel.find_link Macvlan.mode_from_string Kernel.in_pod
    parse_cidr
refused = refl

read_subnet_is : (sub : FlatNetworkSubnet) → ok subnet ≡ ok sub → subnet ≡ sub
read_subnet_is sub e = cc

host_routes_off :
    (sub : FlatNetworkSubnet)
    → ok subnet ≡ ok sub
    → sub.spec.route_settings.add_pod_ip_to_host ≡ false
host_routes_off sub e = let f = read_subnet_is sub e in rw (← f) refl

subnet-IsRefused : (sub : FlatNetworkSubnet) → ok subnet ≡ ok sub → IsRefused sub
unfolding IsRefused
subnet-IsRefused sub e = let f = read_subnet_is sub e in inl (rw (← f) refl)

add-Unwound_example : Unwound args Stage.configured (add unconfigured codec args []).1
unfolding noticed made_iface
add-Unwound_example =
    add-Unwound unconfigured codec args (λ h. refl) (λ h n. host_routes_off) [] Stage.configured
      refused refl refl

add-Reported_example : Reported works codec args (add works codec args []).1
unfolding LastAttempt
add-Reported_example = add-Reported works codec args (λ A f h. ([], refl)) [] added

check-IsRefused_example : ¬ ((check works codec args []).0 ≡ ok tt)
check-IsRefused_example = check-IsRefused works codec args (λ h n. subnet-IsRefused) []

del_again_example : (del gone codec args []).0 ≡ ok tt
del_again_example =
    del_again gone (λ h ip. ([], refl)) (λ h r. inr refl) (λ h. refl) (λ h n. inl refl)
      (λ h n f. ([], refl)) (λ h n. refl) codec args net_conf refl refl (λ h. refl) (λ h. refl) []

update_pod_default_gateway-Moved_example :
    Moved works
      (codes "eth1")
      (Data.host 8)
      (Data.host 1)
      []
      (update_pod_default_gateway works (codes "eth1") (Data.host 8) (Data.host 1) [])
update_pod_default_gateway-Moved_example =
    update_pod_default_gateway-Moved works (codes "eth1") (Data.host 8) (Data.host 1) []

-- Whether the last call deletes a link of the pod.
abbrev is_link_deletion : History → Bool
is_link_deletion (Kernel.link_del_by_name p n ∷ h) = true
is_link_deletion _ = false

-- The subnet with routes from the host to pods.
abbrev routed : FlatNetworkSubnet
routed = record subnet {
  spec = record (subnet.spec) {
    route_settings = record (subnet.spec.route_settings) { add_pod_ip_to_host = true };
  };
}

-- A failed configuration undoes the interface, but not where routes from the host to pods are asked for.
removed : is_link_deletion (add unconfigured codec args []).1 ≡ true
unfolding add step attempt compare_bytes Kernel.find_link Macvlan.mode_from_string Kernel.in_pod
    parse_cidr Kernel.delete_link_by_name
removed = refl

left_behind :
    is_link_deletion (add (record unconfigured { subnet_at = λ h n. ok routed }) codec args []).1
    ≡ false
unfolding add step attempt compare_bytes Kernel.find_link Macvlan.mode_from_string Kernel.in_pod
    parse_cidr Kernel.delete_link_by_name Kernel.and_then get_route_by_ip
left_behind = refl
