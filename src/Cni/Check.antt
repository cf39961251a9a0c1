-- ===== src/Cni/Check.antt =====
-- Check and validateCniContainerInterface of pkg/cni/commands/check.go, logging left out.
use rancher_flat_network.Prelude.{not, ◌&&◌, List, [], ◌∷◌, none, some, if◌then◌else◌, is_empty}
use rancher_flat_network.Net.{Bytes, eq_bytes}
use rancher_flat_network.Types.{FlatNetworkIp, FlatNetworkSubnet, other, Result, ok, err, codes}
use rancher_flat_network.Common.Subnet.{flat_mode_macvlan, flat_mode_ipvlan}
use rancher_flat_network.Cni.Macvlan
use rancher_flat_network.Cni.Ipvlan
use rancher_flat_network.Cni.Kernel
use rancher_flat_network.Cni.Kernel.{
  Kernel, host, pod, LinkKind, Link, Interface, M, ◌>>=◌, pure, perform, and_then, from_error,
  find_link, in_pod,
}
use rancher_flat_network.Cni.Config.{NetConf}
use rancher_flat_network.Cni.Command.{
  CmdArgs, PrevResult, Codec, is_not_found, read_ip, read_subnet,
}

unfoldable pub or_bridge : Bytes → Bytes
or_bridge s = if is_empty s then codes "bridge" else s

unfoldable pub actual_macvlan : LinkKind → Result (Bytes × Bytes)
unfolding Macvlan.mode_to_string
actual_macvlan (Kernel.macvlan m) = elim (Macvlan.mode_to_string m) [
  | err e ↦ err e
  | ok mode ↦ ok (mode, [])
]
actual_macvlan _ = err other

unfoldable pub actual_ipvlan : LinkKind → Result (Bytes × Bytes)
unfolding Ipvlan.mode_to_string Ipvlan.flag_to_string
actual_ipvlan (Kernel.ipvlan m f) = elim (Ipvlan.mode_to_string m) [
  | err e ↦ err e
  | ok mode ↦ elim (Ipvlan.flag_to_string f) [ err e ↦ err e | ok flag ↦ ok (mode, flag) ]
]
actual_ipvlan _ = err other

-- The actual mode and flag of a link; of a macvlan the flag stays empty.
unfoldable pub actual : Bytes → LinkKind → Result (Bytes × Bytes)
unfolding actual_macvlan actual_ipvlan
actual flat_mode kind =
    if eq_bytes flat_mode flat_mode_macvlan
    then actual_macvlan kind
    else if eq_bytes flat_mode flat_mode_ipvlan
    then actual_ipvlan kind
    else ok ([], [])

-- The end of validateCniContainerInterface
unfoldable pub compare_actual :
    Interface → Bytes → Bytes → Link → Result (Bytes × Bytes) → Result (Unit {0})
unfolding or_bridge
compare_actual intf expected_mode expected_flag link (err e) = err e
compare_actual intf expected_mode expected_flag link (ok (mode, flag)) =
    if not (eq_bytes (or_bridge expected_mode) mode)
    then err other
    else if not (eq_bytes (or_bridge expected_flag) flag)
    then err other
    else if not (is_empty intf.mac) && not (eq_bytes intf.mac link.mac)
    then err other
    else ok tt

-- validateCniContainerInterface behind the look-up of the link
unfoldable pub compare_link : Interface → Bytes → Bytes → Bytes → Link → Result (Unit {0})
unfolding actual compare_actual
compare_link intf flat_mode expected_mode expected_flag link =
    if is_empty intf.sandbox
    then err other
    else compare_actual intf expected_mode expected_flag link (actual flat_mode link.kind)

-- The interface of the earlier result in the namespace: the last one that fits, the zero value if none does.
unfoldable pub container_interface : CmdArgs → Interface → List Interface → Interface
container_interface args found [] = found
container_interface args found (i ∷ is) =
    container_interface args
      (if eq_bytes args.if_name i.name && eq_bytes args.netns i.sandbox then i else found) is

abbrev pub no_interface : Interface
no_interface = record { name = []; mac = []; sandbox = [] }

module _ (k : Kernel) where
  unfoldable pub validate_cni_container_interface :
      Interface → Bytes → Bytes → Bytes → M (Result (Unit {0}))
  unfolding compare_link
  validate_cni_container_interface intf flat_mode expected_mode expected_flag =
      if is_empty intf.name
      then pure (err other)
      else and_then (find_link k pod intf.name)
          (λ link. pure (compare_link intf flat_mode expected_mode expected_flag link))

  -- In the pod
  unfoldable pub validate :
      Codec → CmdArgs → FlatNetworkSubnet → PrevResult → Interface → M (Result (Unit {0}))
  unfolding validate_cni_container_interface
  validate c args sub result intf =
      and_then
        (validate_cni_container_interface intf sub.spec.flat_mode sub.spec.mode
          sub.spec.ipvlan_flag)
        (λ done.
          and_then (λ h. (from_error (c.ips_validated h args.if_name result), h))
            (λ same h. (from_error (c.routes_validated h result), h)))

  -- Behind ipam.ExecCheck
  unfoldable pub check_result :
      Codec → CmdArgs → FlatNetworkSubnet → PrevResult → M (Result (Unit {0}))
  unfolding container_interface validate
  check_result c args sub result =
      if not (eq_bytes args.netns (container_interface args no_interface result.interfaces).sandbox)
      then pure (err other)
      else and_then (find_link k host sub.spec.master) (λ master.
        in_pod k
          (validate c args sub result (container_interface args no_interface result.interfaces)))

  unfoldable pub check_prev_result :
      Codec → CmdArgs → NetConf → FlatNetworkSubnet → M (Result (Unit {0}))
  unfolding check_result
  check_prev_result c args n sub = elim n.raw_prev_result [
    | none ↦ pure (err other)
    | some raw ↦
        and_then (pure (c.parse_prev_result n raw)) (λ result. check_result c args sub result)
  ]

  unfoldable pub opened : M (Result (Unit {0}))
  opened = do o ← perform Kernel.open_netns (λ h. k.netns_opened h); pure (from_error o)

  unfoldable pub ipam_check : CmdArgs → M (Result (Unit {0}))
  ipam_check args = do
    e ← perform (Kernel.ipam_check args.stdin_data) (λ h. k.ipam_checked h args.stdin_data)
    pure (from_error e)

  unfoldable pub check : Codec → CmdArgs → M (Result (Unit {0}))
  unfolding is_not_found read_ip read_subnet opened ipam_check check_prev_result
  check c args = and_then (pure (from_error c.set_up)) (λ done.
      and_then (pure (c.load_conf args.stdin_data)) (λ n.
        and_then (pure (c.load_args args.args)) (λ names. and_then opened (λ there.
          and_then (pure (from_error (c.connected args.path))) (λ connected.
            and_then (k.retry_on_error FlatNetworkIp is_not_found (read_ip k names.1 names.0))
              (λ ip. and_then (read_subnet k ip.spec.subnet) (λ sub.
                and_then (ipam_check args) (λ checked. check_prev_result c args n sub))))))))
