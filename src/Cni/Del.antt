-- ===== src/Cni/Del.antt =====
-- Del of pkg/cni/commands/del.go, logging left out.
use rancher_flat_network.Prelude.{Bool, true, false, List, [], ◌∷◌, if◌then◌else◌, is_empty}
use rancher_flat_network.Net.{Bytes, IpNet}
use rancher_flat_network.Types.{Error, link_not_found, Result, ok, err}
use rancher_flat_network.Cni.Kernel
use rancher_flat_network.Cni.Kernel.{
  Kernel, pod, Link, family_all, M, ◌>>=◌, pure, perform, then_or_err, and_then, from_error,
  find_link, list_addrs, delete_link, in_pod, is_link_local_unicast,
}
use rancher_flat_network.Cni.HostRoute.{del_flat_network_route_from_host}
use rancher_flat_network.Cni.Command.{CmdArgs, Codec}

unfoldable pub is_link_not_found : Error → Bool
is_link_not_found link_not_found = true
is_link_not_found _ = false

module _ (k : Kernel) where
  -- In the pod: the link is deleted, and the addresses it had are kept.
  unfoldable pub remove_found : Result Link → M (Result (List IpNet))
  unfolding is_link_not_found
  remove_found (err e) = if is_link_not_found e then pure (ok []) else pure (err e)
  remove_found (ok link) = and_then (list_addrs k pod link.name family_all) (λ addrs. do
    d ← delete_link k pod link.name
    then_or_err (from_error d) (λ done. pure (ok addrs)))

  unfoldable pub remove_iface : Bytes → M (Result (List IpNet))
  unfolding remove_found
  remove_iface if_name = find_link k pod if_name >>= remove_found

  -- The loop over the addresses, on the host.
  unfoldable pub remove_routes : List IpNet → M (Result (Unit {0}))
  unfolding del_flat_network_route_from_host is_link_local_unicast
  remove_routes [] = pure (ok tt)
  remove_routes (a ∷ rest) =
      let others = remove_routes rest in
      if is_link_local_unicast a.ip
      then others
      else and_then (del_flat_network_route_from_host k a.ip) (λ done. others)

  unfoldable pub opened : M (Result (Unit {0}))
  opened = do o ← perform Kernel.open_netns (λ h. k.netns_opened h); pure (from_error o)

  -- Behind ipam.ExecDel
  unfoldable pub detach : CmdArgs → M (Result (Unit {0}))
  unfolding opened remove_iface remove_routes
  detach args =
      if is_empty args.netns
      then pure (ok tt)
      else and_then opened
          (λ there. and_then (in_pod k (remove_iface args.if_name)) (λ addrs. remove_routes addrs))

  unfoldable pub ipam_delete : CmdArgs → M (Result (Unit {0}))
  ipam_delete args = do
    e ← perform (Kernel.ipam_del args.stdin_data) (λ h. k.ipam_deleted h args.stdin_data)
    pure (from_error e)

  unfoldable pub del : Codec → CmdArgs → M (Result (Unit {0}))
  unfolding ipam_delete detach
  del c args = and_then (pure (from_error c.set_up)) (λ done.
      and_then (pure (c.load_conf args.stdin_data))
        (λ n. and_then (ipam_delete args) (λ released. detach args)))
