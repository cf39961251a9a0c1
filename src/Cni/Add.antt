-- ===== src/Cni/Add.antt =====
-- Add of pkg/cni/commands/add.go, from the result of the IPAM plugin on. Every return names its stage, and the Boolean tells whether Go's variable
-- `err` is not nil there, since the deferred functions read that variable and not what is returned.
use rancher_flat_network.Prelude.{
  Bool, true, false, not, ◌&&◌, List, [], ◌∷◌, ◌++◌, Option, none, some, if◌then◌else◌, is_empty,
}
use rancher_flat_network.Net.{Bytes, Ip, eq_bytes, to4}
use rancher_flat_network.Types.{FlatNetworkIp, FlatNetworkSubnet, Phase, Result, ok, err, codes}
use rancher_flat_network.Common.Annotation.{split}
use rancher_flat_network.Cni.Kernel
use rancher_flat_network.Cni.Kernel.{
  Kernel, pod, Interface, History, M, ◌>>=◌, ◌>>◌, pure, perform, then_or_err, from_error, error_of,
  find_link, delete_link_by_name, in_pod,
}
use rancher_flat_network.Cni.Addresses.{pod_iface_eth0}
use rancher_flat_network.Cni.Route.{update_pod_default_gateway, add_pod_flat_network_custom_routes}
use rancher_flat_network.Cni.HostRoute.{
  add_flat_network_route_to_host, add_pod_kube_cidr_routes, add_pod_node_cidr_routes,
}
use rancher_flat_network.Cni.Config.{NetConf}
use rancher_flat_network.Cni.Command.{CmdArgs, Codec, read_ip}

pub data Stage : Type 0 where
  setup conf arguments client address subnet promisc vlan netns create : Stage
  ipam_config ipam_add ipam_result no_addresses configured : Stage
  cluster_cidr service_cidr node_cidr host_route default_gateway custom_routes status printed :
      Stage

-- A return of Add: the stage of the error it returns, whether the variable `err` is set, and the address in
-- the variable `flatNetworkIP`.
pub record Exit : Type 0 where
  pub returned : Option Stage
  pub err_set : Bool
  pub addr : Ip

abbrev pub failed_at : Stage → Ip → Exit
failed_at s addr = record { returned = some s; err_set = true; addr = addr }

-- A return behind `if err := ...`, or of a new error.
abbrev pub shadowed_at : Stage → Ip → Exit
shadowed_at s addr = record { returned = some s; err_set = false; addr = addr }

abbrev pub finished : Ip → Exit
finished addr = record { returned = none; err_set = false; addr = addr }

-- `if err != nil { return ... }` in front of the rest of the body.
abbrev pub or_fail : {A : Type 0} → Stage → Ip → Result A → (A → M Exit) → M Exit
or_fail s addr (ok a) rest = rest a
or_fail s addr (err e) rest = pure (failed_at s addr)

-- A call in front of the rest of the body.
unfoldable pub step : Stage → Ip → M (Result (Unit {0})) → M Exit → M Exit
step s addr m rest = do e ← m; or_fail s addr e (λ done. rest)

abbrev pub or_return : {A : Type 0} → Stage → Result A → (A → M (Option Stage)) → M (Option Stage)
or_return s (ok a) rest = rest a
or_return s (err e) rest = pure (some s)

-- A call whose error is returned before the interface is made.
unfoldable pub attempt :
    {A : Type 0} → Stage → M (Result A) → (A → M (Option Stage)) → M (Option Stage)
attempt s m rest = do r ← m; or_return s r rest

-- A part that some setting asks for.
abbrev pub if_asked : Bool → M (Result (Unit {0})) → M (Result (Unit {0}))
if_asked true m = m
if_asked false m = pure (ok tt)

abbrev pub arp_notify_policy : Bytes
arp_notify_policy = codes "arp_notify"

abbrev pub arping_policy : Bytes
arping_policy = codes "arping"

unfoldable pub sysctl_path : Bytes → Bytes → Bytes
sysctl_path if_name key = codes "net/ipv4/conf/" ++ if_name ++ b'/' ∷ key

-- What Add has found when the interface stands.
pub record Found : Type 0 where
  pub net_conf : NetConf
  pub ip : FlatNetworkIp
  pub subnet : FlatNetworkSubnet
  pub vlan : Bytes
  pub namespace : Bytes
  pub name : Bytes

abbrev pub found : NetConf → FlatNetworkIp → FlatNetworkSubnet → Bytes → Bytes → Bytes → Found
found n ip sub vlan_iface namespace name = record {
  net_conf = n;
  ip = ip;
  subnet = sub;
  vlan = vlan_iface;
  namespace = namespace;
  name = name;
}

module _ (k : Kernel) (c : Codec) (args : CmdArgs) where
  unfoldable pub set_sysctl : Bytes → M (Result (Unit {0}))
  unfolding sysctl_path
  set_sysctl key = perform (Kernel.sysctl (sysctl_path args.if_name key)) (λ h. ok tt)

  -- The errors of arping are only logged.
  unfoldable pub announce : List Ip → M (Result (Unit {0}))
  unfolding to4
  announce [] = pure (ok tt)
  announce (ip ∷ ips) =
      let rest = announce ips in
      if is_empty (to4 ip) then rest else perform (Kernel.gratuitous_arp ip) (λ h. tt) >> rest

  -- The function that Add runs in the pod behind the IPAM plugin.
  unfoldable pub configure_iface : NetConf → List Ip → M (Result (Unit {0}))
  unfolding set_sysctl announce
  configure_iface n ips = do
    if_asked (eq_bytes n.flat_network_config.arp_policy arp_notify_policy)
        (set_sysctl (codes "arp_notify"))
    if_asked n.flat_network_config.proxy_arp (set_sysctl (codes "proxy_arp"))
    e ← perform (Kernel.configure args.if_name) (λ h. k.configured h args.if_name)
    elim e [
      | some e' ↦ pure (err e')
      | none ↦
          if_asked (eq_bytes n.flat_network_config.arp_policy arping_policy)
            (do l ← find_link k pod args.if_name; then_or_err l (λ link. announce ips))
    ]

  unfoldable pub add_cidrs : List Bytes → M (Result (Unit {0}))
  unfolding add_pod_kube_cidr_routes
  add_cidrs [] = pure (ok tt)
  add_cidrs (cidr ∷ cidrs) =
      let rest = add_cidrs cidrs in
      if is_empty cidr
      then rest
      else (do e ← add_pod_kube_cidr_routes k cidr; then_or_err e (λ done. rest))

  unfoldable pub activated : Interface → FlatNetworkIp → FlatNetworkIp
  activated iface ip = record ip {
    status = record (ip.status) { mac = iface.mac; phase = Phase.active };
  }

  -- One round of the update at the end of Add.
  unfoldable pub update_status : Found → Interface → M (Result FlatNetworkIp)
  unfolding read_ip activated
  update_status f iface = do
    g ← read_ip k f.namespace f.name
    then_or_err g (λ ip.
        perform (Kernel.update_ip_status (activated iface ip))
          (λ h. k.ip_status_updated h (activated iface ip)))

  -- Behind the update of the status
  unfoldable pub conclude : Interface → Result FlatNetworkIp → M Exit
  conclude iface (err e) = do
    addr ← (λ h. (c.left_address h, h))
    in_pod k (do d ← delete_link_by_name k iface.name; pure (from_error d))
    pure (failed_at status addr)
  conclude iface (ok ip) = do
    e ← perform Kernel.print_result (λ h. k.printed h)
    or_fail printed ip.status.addr (from_error e) (λ done. pure (finished ip.status.addr))

  -- Behind the custom routes
  unfoldable pub report : Found → Interface → Result (Unit {0}) → M Exit
  unfolding update_status conclude
  report f iface (err e) = pure (shadowed_at custom_routes f.ip.status.addr)
  report f iface (ok done) =
      k.retry_on_conflict FlatNetworkIp (update_status f iface) >>= conclude iface

  -- The routes in the pod and on the host.
  unfoldable pub add_routes : Found → Interface → M Exit
  unfolding add_cidrs split add_pod_node_cidr_routes add_flat_network_route_to_host
      update_pod_default_gateway add_pod_flat_network_custom_routes report
  add_routes f iface =
      let settings = f.subnet.spec.route_settings in
      let addr = f.ip.status.addr in
      step cluster_cidr addr
        (if_asked settings.add_cluster_cidr
          (add_cidrs (split b',' f.net_conf.flat_network_config.cluster_cidr)))
        (step service_cidr addr
          (if_asked settings.add_service_cidr
            (add_cidrs (split b',' f.net_conf.flat_network_config.service_cidr)))
          (step node_cidr addr (if_asked settings.add_node_cidr (add_pod_node_cidr_routes k)) (
            step host_route addr
              (if_asked settings.add_pod_ip_to_host (add_flat_network_route_to_host k addr f.vlan))
              (step default_gateway addr
                (if_asked
                  (settings.flat_network_default_gateway
                    && not (eq_bytes args.if_name pod_iface_eth0))
                  (update_pod_default_gateway k args.if_name addr f.subnet.status.gateway))
                (add_pod_flat_network_custom_routes k f.subnet.spec.routes >>= report f iface)))))

  unfoldable pub configure_and_route : Found → Interface → List Ip → M Exit
  unfolding configure_iface add_routes
  configure_and_route f iface [] = pure (shadowed_at no_addresses f.ip.status.addr)
  configure_and_route f iface (ip ∷ ips) =
      step configured f.ip.status.addr (in_pod k (configure_iface f.net_conf (ip ∷ ips)))
        (add_routes f iface)

  -- From the result of the IPAM plugin on.
  unfoldable pub apply_result : Found → Interface → Bytes → M Exit
  unfolding configure_and_route
  apply_result f iface output =
      or_fail ipam_result f.ip.status.addr (c.addresses_of output) (configure_and_route f iface)
