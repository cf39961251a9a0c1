-- ===== src/Migrate.antt =====
-- annotation_maps.go, the conversion of a subnet in subnet.go, and types of pkg/migrate: how resources
-- of the older operator become new ones.
pub mod Removed
use rancher_flat_network.Prelude.{
  ◌≡◌, refl, Bool, true, false, not, ◌&&◌, ◌||◌, List, [], ◌∷◌, ◌++◌, Option, none, some, arith,
  if◌then◌else◌, is_empty, ℤ, pos, Bool-cases, inl, inr, ap, ◌∙◌, sym,
}
use rancher_flat_network.Net.{Bytes, eq_bytes}
use rancher_flat_network.Net.Parse.{parse_ip}
use rancher_flat_network.Slices.Order.{eq_of_eq_bytes, eq_bytes_refl}
use rancher_flat_network.Types.{
  Labels, codes, set_key, IpRange, Route, FlatNetworkSubnet, init, invalid_range, invalid_route,
  Result, ok, err, ◌>>=◌, subnet_namespace, annotation_ip, annotation_subnet, annotation_mac,
  annotation_ingress, annotation_flat_network_service, annotations_ipv6to4,
}
use rancher_flat_network.Maps.{look_up, delete_key}
use rancher_flat_network.Maps.Laws.{look_up-delete_key, look_up-delete_other, eq_bytes_at}
use rancher_flat_network.Service.Kinds.{has_prefix}

pub record MacvlanRange : Type 0 where
  pub range_start : Bytes
  pub range_end : Bytes

pub record MacvlanRoute : Type 0 where
  pub dst : Bytes
  pub gw : Bytes
  pub iface : Bytes

pub record PodDefaultGateway : Type 0 where
  pub enable : Bool
  pub service_cidr : Bytes

pub record MacvlanSubnetSpec : Type 0 where
  pub master : Bytes
  pub vlan : ℤ
  pub cidr : Bytes
  pub mode : Bytes
  pub gateway : Bytes
  pub ranges : List MacvlanRange
  pub routes : List MacvlanRoute
  pub pod_default_gateway : PodDefaultGateway

pub record MacvlanSubnet : Type 0 where
  pub name : Bytes
  pub labels : Labels
  pub annotations : Labels
  pub spec : MacvlanSubnetSpec

-- The two loops of newFlatNetworkSubnet.
unfoldable pub migrate_ranges : List MacvlanRange → Result (List IpRange)
unfolding parse_ip
migrate_ranges [] = ok []
migrate_ranges (r ∷ rs) =
    let rest = migrate_ranges rs in
    if is_empty (parse_ip r.range_start) || is_empty (parse_ip r.range_end)
    then err invalid_range
    else (do
      new ← rest
      ok (record { from = parse_ip r.range_start; to = parse_ip r.range_end } ∷ new))

unfoldable pub migrate_routes : List MacvlanRoute → Result (List Route)
unfolding parse_ip
migrate_routes [] = ok []
migrate_routes (r ∷ rs) =
    let rest = migrate_routes rs in
    if is_empty (parse_ip r.gw) && not (is_empty r.gw) then err invalid_route else (do
      new ← rest
      ok (
          record { dev = r.iface; dst = r.dst; src = []; via = parse_ip r.gw; priority = pos 0 }
          ∷ new))

unfoldable pub new_flat_network_subnet : MacvlanSubnet → Result FlatNetworkSubnet
unfolding migrate_ranges migrate_routes
new_flat_network_subnet ms = do
  ranges ← migrate_ranges ms.spec.ranges
  routes ← migrate_routes ms.spec.routes
  ok (record {
    name = ms.name;
    namespace = subnet_namespace;
    labels = ms.labels;
    annotations = ms.annotations;
    deletion_timestamp = none;
    spec = record {
      flat_mode = codes "macvlan";
      master = ms.spec.master;
      vlan = ms.spec.vlan;
      cidr = ms.spec.cidr;
      mode = ms.spec.mode;
      ipvlan_flag = [];
      gateway = parse_ip ms.spec.gateway;
      ranges = ranges;
      routes = routes;
      route_settings = record {
        add_cluster_cidr = false;
        add_service_cidr = false;
        add_node_cidr = false;
        add_pod_ip_to_host = false;
        flat_network_default_gateway = ms.spec.pod_default_gateway.enable;
      };
    };
    status = record {
      phase = init;
      failure_message = [];
      gateway = [];
      reserved_ip = [];
      used_ip = [];
      used_ip_count = pos 0;
      used_mac = [];
    };
  })

-- strings.Contains
unfoldable pub contains_text : Bytes → Bytes → Bool
contains_text p [] = is_empty p
contains_text p (c ∷ s) = has_prefix p (c ∷ s) || contains_text p s

-- The new key of an old one, "" where there is none.
unfoldable pub annotation_key_map : Bytes → Bytes
annotation_key_map k =
    if eq_bytes k (codes "macvlan.pandaria.cattle.io/ip")
    then annotation_ip
    else if eq_bytes k (codes "macvlan.pandaria.cattle.io/subnet")
    then annotation_subnet
    else if eq_bytes k (codes "macvlan.pandaria.cattle.io/mac")
    then annotation_mac
    else if eq_bytes k (codes "macvlan.panda.io/ingress")
    then annotation_ingress
    else if eq_bytes k (codes "macvlan.panda.io/macvlanService")
    then annotation_flat_network_service
    else if eq_bytes k (codes "macvlan.panda.io/ipv6to4")
    then annotations_ipv6to4
    else []

-- One round of the loop of updateAnnotation.
unfoldable pub update_entry : Bytes → Bytes → Labels → Labels
unfolding contains_text annotation_key_map
update_entry k v u =
    if eq_bytes k (codes "k8s.v1.cni.cncf.io/networks")
      && eq_bytes v (codes "[{\"name\":\"static-macvlan-cni-attach\",\"interface\":\"eth1\"}]")
    then set_key k (codes "[{\"name\":\"rancher-flat-network\",\"interface\":\"eth1\"}]") u
    else if eq_bytes k (codes "v1.multus-cni.io/default-network")
        && eq_bytes v (codes "[{\"name\":\"static-macvlan-cni-attach\",\"interface\":\"eth0\"}]")
    then set_key k (codes "[{\"name\":\"rancher-flat-network\",\"interface\":\"eth0\"}]") u
    else if not (
        contains_text (codes "macvlan.panda.io") k
        || contains_text (codes "macvlan.pandaria.cattle.io") k)
    then u
    else if is_empty (annotation_key_map k)
    then delete_key k u
    else set_key (annotation_key_map k) v (delete_key k u)

unfoldable pub update_entries : Labels → Labels → Labels
unfolding update_entry
update_entries [] u = u
update_entries ((k, v) ∷ a) u = update_entries a (update_entry k v u)

-- updateAnnotation on the annotations of the template
unfoldable pub update_annotation : Labels → Labels
unfolding update_entries
update_annotation a = update_entries a a

unfoldable pub is_v1_label : Bytes → Bool
unfolding has_prefix
is_v1_label k =
    has_prefix (codes "macvlan.panda.io/") k || has_prefix (codes "macvlan.pandaria.cattle.io/") k

unfoldable pub remove_each : Labels → Labels → Labels
unfolding is_v1_label
remove_each [] mu = mu
remove_each ((k, v) ∷ m) mu = remove_each m (if is_v1_label k then delete_key k mu else mu)

unfoldable pub remove_v1_labels : Labels → Labels
unfolding remove_each
remove_v1_labels m = remove_each m m
