-- ===== src/Cni/HostRoute.antt =====
-- flatnetwork.go, kube_cidr.go and node.go of pkg/cni/route, logging left out.
use rancher_flat_network.Prelude.{
  ℕ, Bool, true, false, not, ◌&&◌, ◌||◌, List, [], ◌∷◌, ◌++◌, Option, none, some, if◌then◌else◌,
  is_empty, pos,
}
use rancher_flat_network.Net.{Bytes, Ip, IpNet, to4, to16}
use rancher_flat_network.Net.Parse.{parse_cidr, cidr_mask}
use rancher_flat_network.Types.{Route, Error, no_such_process, Result, ok, err, invalid_cidr}
use rancher_flat_network.Cni.Kernel
use rancher_flat_network.Cni.Kernel.{
  Kernel, Place, host, pod, Family, family_all, family_v4, family_v6, family_other, KernelRoute,
  Link, M, ◌>>=◌, ◌>>◌, pure, perform, then_or_err, and_then, from_error, list_addrs, add_route,
  delete_route, in_pod, is_link_local_unicast,
}
use rancher_flat_network.Cni.Addresses.{pod_iface_eth0, get_pod_native_ip, addr_list_by_name}
use rancher_flat_network.Cni.Route.{
  get_default_routes, get_default_link_id_set, get_route_by_ip, ensure_route_exists,
  add_pod_flat_network_custom_routes,
}

-- The gateways of the default routes: the last one of either family.
unfoldable pub gateways : List KernelRoute → Ip → Ip → Ip × Ip
gateways [] v4 v6 = (v4, v6)
gateways (r ∷ rs) v4 v6 = elim r.family [
  | family_v4 ↦ gateways rs r.gw v6
  | _ ↦ gateways rs v4 r.gw
]

-- The source of a route to the host: the first address of all, where some address is not link-local.
unfoldable pub source_of : Ip → List IpNet → Ip
unfolding is_link_local_unicast
source_of first [] = []
source_of first (a ∷ rest) = if is_link_local_unicast a.ip then source_of first rest else first

unfoldable pub route_source : List IpNet → Ip
unfolding source_of
route_source [] = []
route_source (a ∷ rest) = source_of a.ip (a ∷ rest)

unfoldable pub full_mask : Ip → Bytes
unfolding to4
full_mask ip = if is_empty (to4 ip) then cidr_mask 128 128 else cidr_mask 32 32

-- An address that has 16 bytes in its long form.
unfoldable pub is_usable : Ip → Bool
unfolding to16
is_usable ip = not (is_empty ip || is_empty (to16 ip))

unfoldable pub is_no_such_process : Error → Bool
is_no_such_process no_such_process = true
is_no_such_process _ = false

module _ (k : Kernel) where
  unfoldable pub host_route : KernelRoute → Ip → Ip → KernelRoute
  unfolding full_mask
  host_route original ip src = record {
    link_index = original.link_index;
    dst = some (record { ip = ip; net_mask = full_mask ip });
    src = src;
    gw = [];
    via = [];
    priority = pos 0;
    family = k.get_ip_family ip;
  }

  -- Behind the read of the original route.
  unfoldable pub add_host_route : KernelRoute → Ip → Bytes → M (Result (Unit {0}))
  unfolding host_route route_source
  add_host_route original ip master = do
    a ← addr_list_by_name k master (k.get_ip_family ip)
    then_or_err a (λ addrs.
        let r = host_route original ip (route_source addrs) in
        do
          e ← add_route k host r
          elim e [ none ↦ pure (ok tt) | some e' ↦ do delete_route k host r; pure (err e') ])

  unfoldable pub add_flat_network_route_to_host : Ip → Bytes → M (Result (Unit {0}))
  unfolding add_host_route is_usable
  add_flat_network_route_to_host ip master =
      if not (is_usable ip) || is_empty master then pure (ok tt) else (do
        p ← get_pod_native_ip k family_v4
        then_or_err p (λ pod_ip. if is_empty pod_ip then pure (ok tt) else (do
          r ← get_route_by_ip k pod_ip
          then_or_err r (λ found. elim found [
            | none ↦ pure (ok tt)
            | some original ↦ elim original.dst [
              | none ↦ pure (ok tt)
              | some d ↦ add_host_route original ip master
            ]
          ]))))

  -- The route that is deleted, by its link and its destination.
  unfoldable pub deleted_route : KernelRoute → KernelRoute
  deleted_route r = record {
    link_index = r.link_index;
    dst = r.dst;
    src = [];
    gw = [];
    via = [];
    priority = pos 0;
    family = family_all;
  }

  -- The error of the deletion, of which a missing route is none.
  unfoldable pub tolerate : Option Error → Result (Unit {0})
  unfolding is_no_such_process
  tolerate none = ok tt
  tolerate (some e) = if is_no_such_process e then ok tt else err e

  unfoldable pub delete_to : KernelRoute → Option IpNet → M (Result (Unit {0}))
  unfolding deleted_route tolerate
  delete_to route none = pure (ok tt)
  delete_to route (some d) = do e ← delete_route k host (deleted_route route); pure (tolerate e)

  unfoldable pub delete_found : Option KernelRoute → M (Result (Unit {0}))
  unfolding delete_to
  delete_found none = pure (ok tt)
  delete_found (some route) = delete_to route route.dst

  unfoldable pub del_flat_network_route_from_host : Ip → M (Result (Unit {0}))
  unfolding delete_found is_usable
  del_flat_network_route_from_host ip =
      if not (is_usable ip) then pure (ok tt) else and_then (get_route_by_ip k ip) delete_found

  unfoldable pub kube_route : Ip → IpNet → ℕ → Ip × Ip → KernelRoute
  unfolding to4 to16
  kube_route ip network id (v4, v6) =
      let is_v6 = not (is_empty (to16 ip)) && is_empty (to4 ip) in
      record {
        link_index = id;
        dst = some network;
        src = [];
        gw = if is_v6 then v6 else v4;
        via = [];
        priority = pos 0;
        family = if is_v6 then family_v6 else family_v4;
      }

  -- The loop over the links returns in its first round.
  unfoldable pub add_pod_kube_cidr_routes : Bytes → M (Result (Unit {0}))
  unfolding kube_route gateways
  add_pod_kube_cidr_routes cidr = elim (parse_cidr cidr) [
    | none ↦ pure (err invalid_cidr)
    | some (ip, network) ↦ in_pod k (do
      s ← get_default_link_id_set k pod
      then_or_err s (λ ids. do
        r ← get_default_routes k pod
        then_or_err r (λ rs. if is_empty rs then pure (ok tt) else elim (k.map_order ids) [
          | [] ↦ pure (ok tt)
          | id ∷ others ↦ ensure_route_exists k pod (kube_route ip network id (gateways rs [] []))
        ])))
  ]

  unfoldable pub address_routes : List IpNet → Ip → Ip → List Route
  unfolding is_link_local_unicast
  address_routes [] v4 v6 = []
  address_routes (a ∷ rest) v4 v6 =
      let others = address_routes rest v4 v6 in
      if is_link_local_unicast a.ip
      then others
      else record {
        dev = pod_iface_eth0;
        dst = k.network_string a;
        src = [];
        via = elim (k.get_ip_family a.ip) [ family_v4 ↦ v4 | _ ↦ v6 ];
        priority = pos 0;
      }
        ∷ others

  unfoldable pub get_host_cidr_custom_routes : ℕ → Ip → Ip → M (Result (List Route))
  unfolding address_routes
  get_host_cidr_custom_routes id v4 v6 = do
    l ← perform (Kernel.link_by_index host id) (λ h. k.link_indexed h host id)
    then_or_err l (λ link. do
      a ← list_addrs k host link.name family_all
      then_or_err a (λ addrs. pure (ok (address_routes addrs v4 v6))))

  unfoldable pub node_routes : List ℕ → Ip × Ip → List Route → M (Result (List Route))
  unfolding get_host_cidr_custom_routes
  node_routes [] gws routes = pure (ok routes)
  node_routes (id ∷ ids) gws routes = do
    r ← get_host_cidr_custom_routes id gws.0 gws.1
    then_or_err r (λ more. node_routes ids gws (routes ++ more))

  unfoldable pub add_pod_node_cidr_routes : M (Result (Unit {0}))
  unfolding node_routes gateways
  add_pod_node_cidr_routes = do
    s ← get_default_link_id_set k host
    then_or_err s (λ ids. do
      g ←
          in_pod k
            (do r ← get_default_routes k pod; then_or_err r (λ rs. pure (ok (gateways rs [] []))))
      then_or_err g (λ gws. do
        r ← node_routes (k.map_order ids) gws []
        then_or_err r (λ routes. add_pod_flat_network_custom_routes k routes)))
