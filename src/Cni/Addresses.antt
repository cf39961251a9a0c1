-- ===== src/Cni/Addresses.antt =====
-- pkg/cni/common/common.go: the addresses of the pod, and the interfaces of the host; logging left out.
use rancher_flat_network.Prelude.{
  ◌==◌, List, [], ◌∷◌, ◌++◌, Option, none, some, if◌then◌else◌, ℤ, pos, eq_ℤ,
}
use rancher_flat_network.Net.{Bytes, Ip, IpNet, eq_bytes}
use rancher_flat_network.Types.{Result, ok, err, codes}
use rancher_flat_network.FlatNetworkSubnet.Handlers.{int_text}
use rancher_flat_network.Cni.Kernel
use rancher_flat_network.Cni.Kernel.{
  Kernel, Place, host, pod, Family, Link, NewLink, Interface, M, ◌>>=◌, ◌>>◌, pure, perform,
  then_or_err, from_error, find_link, list_addrs, delete_link, in_pod, is_link_local_unicast,
}

abbrev pub pod_iface_eth0 : Bytes
pod_iface_eth0 = codes "eth0"

abbrev pub pod_iface_eth1 : Bytes
pod_iface_eth1 = codes "eth1"

-- The last address that is not link-local, [] where there is none.
unfoldable pub last_address : Ip → List IpNet → Ip
unfolding is_link_local_unicast
last_address ip [] = ip
last_address ip (a ∷ rest) = last_address (if is_link_local_unicast a.ip then ip else a.ip) rest

-- The interface with the name, as it stands in the list.
unfoldable pub interface_named : Bytes → List Link → Option Interface
interface_named name [] = none
interface_named name (l ∷ ls) =
    if eq_bytes l.name name
    then some (record { name = name; mac = l.mac; sandbox = [] })
    else interface_named name ls

unfoldable pub vlan_name : Bytes → ℤ → Bytes
vlan_name master vlan_id =
    if eq_ℤ vlan_id (pos 0) then master else master ++ b'.' ∷ int_text vlan_id

module _ (k : Kernel) where
  unfoldable pub get_pod_native_ip : Family → M (Result Ip)
  unfolding last_address
  get_pod_native_ip family = in_pod k (do
    l ← find_link k pod pod_iface_eth0
    then_or_err l (λ link. do
      a ← list_addrs k pod link.name family
      then_or_err a (λ addrs. pure (ok (last_address [] addrs)))))

  unfoldable pub addr_list_by_name : Bytes → Family → M (Result (List IpNet))
  addr_list_by_name iface family = do
    l ← find_link k host iface
    then_or_err l (λ link. list_addrs k host link.name family)

  unfoldable pub set_promisc_on : Bytes → M (Result (Unit {0}))
  set_promisc_on iface = do
    l ← find_link k host iface
    then_or_err l (λ link. if link.promisc == 1 then pure (ok tt) else (do
      e ← perform (Kernel.set_promisc_on link.name) (λ h. k.promisc_set h link.name)
      pure (from_error e)))

  -- The VLAN interface is made, set up and read again; where a step behind the making fails, it is
  -- deleted again.
  unfoldable pub finish_vlan : Bytes → M (Result Interface)
  finish_vlan if_name = do
    up ← perform (Kernel.link_set_up if_name) (λ h. k.link_up h if_name)
    elim up [
      | some e ↦ do delete_link k host if_name; pure (err e)
      | none ↦ do
        l ← find_link k host if_name
        elim l [
          | err e ↦ do delete_link k host if_name; pure (err e)
          | ok link ↦ pure (ok (record { name = if_name; mac = link.mac; sandbox = [] }))
        ]
    ]

  unfoldable pub create_vlan_on_host : Bytes → ℤ → Bytes → ℤ → M (Result Interface)
  unfolding finish_vlan
  create_vlan_on_host master mtu if_name vlan_id = do
    root ← perform Kernel.get_root (λ h. k.root_at h)
    elim root [
      | some e ↦ pure (err e)
      | none ↦ do
        l ← find_link k host master
        then_or_err l (λ link.
            let new : NewLink = record {
              name = if_name;
              parent_index = link.index;
              mtu = mtu;
              mac = none;
              kind = Kernel.vlan vlan_id;
            } in
            do
              added ← perform (Kernel.link_add new) (λ h. k.link_added h new)
              elim added [ some e ↦ pure (err e) | none ↦ finish_vlan if_name ])
    ]

  unfoldable pub get_vlan_iface_on_host : Bytes → ℤ → ℤ → M (Result Interface)
  unfolding interface_named vlan_name create_vlan_on_host
  get_vlan_iface_on_host master mtu vlan_id = do
    ls ← perform Kernel.link_list (λ h. k.links h)
    then_or_err ls (λ links. elim (interface_named (vlan_name master vlan_id) links) [
      | some i ↦ pure (ok i)
      | none ↦ create_vlan_on_host master mtu (vlan_name master vlan_id) vlan_id
    ])
