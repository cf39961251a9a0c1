-- ===== src/Cni/Attach.antt =====
-- Add of pkg/cni/commands/add.go: its beginning, the deferred functions and the order of all parts.
use rancher_flat_network.Prelude.{true, false, not, Option, some, if◌then◌else◌, is_empty, pos}
use rancher_flat_network.Net.{Bytes, eq_bytes}
use rancher_flat_network.Types.{
  FlatNetworkIp, FlatNetworkSubnet, invalid_flat_mode, Result, ok, err,
}
use rancher_flat_network.Common.Subnet.{flat_mode_macvlan, flat_mode_ipvlan}
use rancher_flat_network.Cni.Kernel
use rancher_flat_network.Cni.Kernel.{
  Kernel, pod, Interface, History, M, ◌>>=◌, ◌>>◌, pure, perform, then_or_err, from_error, error_of,
  find_link, delete_link_by_name, in_pod,
}
use rancher_flat_network.Cni.Addresses.{set_promisc_on, get_vlan_iface_on_host}
use rancher_flat_network.Cni.HostRoute.{del_flat_network_route_from_host}
use rancher_flat_network.Cni.Config.{NetConf, merge_ipam_config}
use rancher_flat_network.Cni.Create.{Options, create_macvlan, create_ipvlan}
use rancher_flat_network.Cni.Command.{CmdArgs, Codec, read_subnet, wait_for_ip}
use rancher_flat_network.Cni.Add.{
  Stage, setup, conf, arguments, client, address, subnet, promisc, vlan, netns, create, ipam_config,
  ipam_add, Exit, failed_at, or_fail, attempt, if_asked, Found, found, apply_result,
}

module _ (k : Kernel) (c : Codec) (args : CmdArgs) where
  -- The deferred function of the IPAM plugin: `err` becomes the error of the deletion of the route.
  unfoldable pub release_ipam : Found → Bytes → Exit → M Exit
  unfolding del_flat_network_route_from_host
  release_ipam f config ex = if not ex.err_set then pure ex else (do
    d ←
        if f.subnet.spec.route_settings.add_pod_ip_to_host
        then (do
          e ← del_flat_network_route_from_host k ex.addr
          elim e [ ok done ↦ pure false | err e' ↦ pure true ])
        else pure true
    perform (Kernel.ipam_del config) (λ h. k.ipam_deleted h config)
    pure (record ex { err_set = d }))

  -- The IPAM plugin on the configuration that is written for it
  unfoldable pub encoded : Found → Interface → Result Bytes → M Exit
  unfolding apply_result release_ipam
  encoded f iface (err e) = pure (failed_at ipam_config f.ip.status.addr)
  encoded f iface (ok config) = do
    r ← perform (Kernel.ipam_add config) (λ h. k.ipam_added h config)
    or_fail ipam_add f.ip.status.addr r
        (λ output. apply_result k c args f iface output >>= release_ipam f config)

  unfoldable pub run_ipam : Found → Interface → M Exit
  unfolding merge_ipam_config encoded
  run_ipam f iface =
      or_fail ipam_config f.ip.status.addr
        (merge_ipam_config k.ip_string args.if_name f.net_conf f.ip f.subnet)
        (λ n. encoded f iface (c.encode n))

  -- The deferred function of the interface.
  unfoldable pub remove_link : Exit → M (Option Stage)
  remove_link ex = if not ex.err_set then pure ex.returned else (do
    in_pod k (do d ← delete_link_by_name k args.if_name; pure (from_error d))
    pure ex.returned)

  -- Behind the making of the interface.
  unfoldable pub settle : Found → Interface → M (Option Stage)
  unfolding run_ipam remove_link
  settle f iface = do ex ← run_ipam f iface; remove_link ex

  unfoldable pub create_iface :
      NetConf → FlatNetworkIp → FlatNetworkSubnet → Bytes → M (Result Interface)
  unfolding create_macvlan create_ipvlan
  create_iface n ip sub vlan_iface =
      let options : Options = record {
        mode = sub.spec.mode;
        flag = sub.spec.ipvlan_flag;
        master = vlan_iface;
        mtu = n.flat_network_config.mtu;
        if_name = args.if_name;
        netns = args.netns;
        mac = ip.status.mac;
      } in
      if eq_bytes sub.spec.flat_mode flat_mode_macvlan
      then create_macvlan k options
      else if eq_bytes sub.spec.flat_mode flat_mode_ipvlan
      then create_ipvlan k options
      else pure (err invalid_flat_mode)

  unfoldable pub open_netns : M (Result (Unit {0}))
  open_netns = do o ← perform Kernel.open_netns (λ h. k.netns_opened h); pure (from_error o)

  -- From the read of the subnet on.
  unfoldable pub attach : NetConf → Bytes → Bytes → FlatNetworkIp → M (Option Stage)
  unfolding read_subnet set_promisc_on get_vlan_iface_on_host create_iface open_netns settle
  attach n name namespace ip = attempt subnet (read_subnet k ip.spec.subnet) (λ sub.
      attempt promisc
        (if_asked (eq_bytes sub.spec.flat_mode flat_mode_macvlan)
          (set_promisc_on k sub.spec.master))
        (λ done.
          attempt vlan (get_vlan_iface_on_host k sub.spec.master (pos 0) sub.spec.vlan)
            (λ vlan_iface. attempt netns open_netns (λ opened.
              attempt create (create_iface n ip sub vlan_iface.name)
                (λ iface. settle (found n ip sub vlan_iface.name namespace name) iface)))))

  unfoldable pub add : M (Option Stage)
  unfolding wait_for_ip attach
  add = attempt setup (pure (from_error c.set_up)) (λ done.
      attempt conf (pure (c.load_conf args.stdin_data)) (λ n.
        attempt arguments (pure (c.load_args args.args)) (λ names.
          attempt client (pure (from_error (c.connected args.path))) (λ connected.
            attempt address (wait_for_ip k names.1 names.0) (λ ip.
              if is_empty ip.status.addr
              then pure (some address)
              else attach n names.0 names.1 ip)))))
