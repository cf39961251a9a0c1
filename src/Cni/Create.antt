-- ===== src/Cni/Create.antt =====
-- Create of pkg/cni/macvlan/macvlan.go and pkg/cni/ipvlan/ipvlan.go: an interface is made under a random name
-- and renamed in the pod. Logging is left out.
use rancher_flat_network.Prelude.{Option, none, some, if◌then◌else◌, is_empty, ℤ}
use rancher_flat_network.Net.{Bytes}
use rancher_flat_network.Types.{Error, Result, ok, err, invalid_mac}
use rancher_flat_network.Common.Annotation.{parse_mac, mac_string}
use rancher_flat_network.Cni.Macvlan
use rancher_flat_network.Cni.Ipvlan
use rancher_flat_network.Cni.Kernel
use rancher_flat_network.Cni.Kernel.{
  Kernel, Place, host, pod, LinkKind, Link, NewLink, Interface, M, ◌>>=◌, ◌>>◌, pure, perform,
  then_or_err, find_link, delete_link, delete_link_by_name, in_pod,
}

-- The options of either kind; a macvlan has no flag.
pub record Options : Type 0 where
  pub mode : Bytes
  pub flag : Bytes
  pub master : Bytes
  pub mtu : ℤ
  pub if_name : Bytes
  pub netns : Bytes
  pub mac : Bytes

-- The MAC that is asked for, if any.
unfoldable pub asked_mac : Bytes → Result (Option Bytes)
unfolding parse_mac mac_string
asked_mac s =
    if is_empty s
    then ok none
    else elim (parse_mac s) [ none ↦ err invalid_mac | some m ↦ ok (some (mac_string m)) ]

unfoldable pub created : Options → Link → Interface
created o link = record { name = o.if_name; mac = link.mac; sandbox = o.netns }

module _ (k : Kernel) where
  unfoldable pub rename_link : Bytes → Bytes → M (Option Error)
  rename_link old new = perform (Kernel.link_rename old new) (λ h. k.link_renamed h old new)

  -- macvlan.Create in the pod
  unfoldable pub settle_macvlan : Options → Bytes → M (Result Interface)
  unfolding rename_link created
  settle_macvlan o name = do
    e ← rename_link name o.if_name
    elim e [
      | some e' ↦ do delete_link k pod name; pure (err e')
      | none ↦ do
        l ← find_link k pod o.if_name
        elim l [
          | err e' ↦ do delete_link_by_name k o.if_name; pure (err e')
          | ok link ↦ pure (ok (created o link))
        ]
    ]

  -- ipvlan.Create in the pod: where the link cannot be renamed, it is not deleted.
  unfoldable pub settle_ipvlan : Options → Bytes → M (Result Interface)
  unfolding rename_link created
  settle_ipvlan o name = do
    e ← rename_link name o.if_name
    elim e [
      | some e' ↦ pure (err e')
      | none ↦ do
        l ← find_link k pod o.if_name
        elim l [
          | err e' ↦ do delete_link k pod name; pure (err e')
          | ok link ↦ pure (ok (created o link))
        ]
    ]

  -- Both functions from the look-up of the master on.
  unfoldable pub create_link :
      Options → LinkKind → (Options → Bytes → M (Result Interface)) → M (Result Interface)
  unfolding asked_mac
  create_link o kind settle = do
    m ← find_link k host o.master
    then_or_err m (λ master. do
      n ← perform Kernel.random_name (λ h. k.name_at h)
      then_or_err n (λ name. elim (asked_mac o.mac) [
        | err e ↦ pure (err e)
        | ok mac ↦
            let new : NewLink = record {
              name = name;
              parent_index = master.index;
              mtu = o.mtu;
              mac = mac;
              kind = kind;
            } in
            do
              added ← perform (Kernel.link_add new) (λ h. k.link_added h new)
              elim added [ some e ↦ pure (err e) | none ↦ in_pod k (settle o name) ]
      ]))

  unfoldable pub create_macvlan : Options → M (Result Interface)
  unfolding create_link settle_macvlan
  create_macvlan o = elim (Macvlan.mode_from_string o.mode) [
    | err e ↦ pure (err e)
    | ok mode ↦ create_link o (Kernel.macvlan mode) settle_macvlan
  ]

  unfoldable pub create_ipvlan : Options → M (Result Interface)
  unfolding create_link settle_ipvlan
  create_ipvlan o = elim (Ipvlan.mode_from_string o.mode) [
    | err e ↦ pure (err e)
    | ok mode ↦ elim (Ipvlan.flag_from_string o.flag) [
      | err e ↦ pure (err e)
      | ok flag ↦ create_link o (Kernel.ipvlan mode flag) settle_ipvlan
    ]
  ]
