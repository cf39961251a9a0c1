-- ===== src/Cni/Kernel.antt =====
-- What the CNI plugin calls, of netlink, of the IPAM plugin and of the API server. None of that code is in
-- the repository: an answer depends on the history of all calls before it.
use rancher_flat_network.Prelude.{
  ℕ, ◌==◌, Bool, ◌&&◌, List, ◌∷◌, Option, none, some, if◌then◌else◌, is_empty, ℤ, length, leb,
  get_or,
}
use rancher_flat_network.Net.{Bytes, Ip, IpNet, to4}
use rancher_flat_network.Types.{Error, Result, ok, err, FlatNetworkIp, FlatNetworkSubnet}
use rancher_flat_network.Cni.Macvlan
use rancher_flat_network.Cni.Ipvlan

-- The network namespace of the host and that of the pod.
pub data Place : Type 0 where
  host pod : Place

pub data Family : Type 0 where
  family_all family_v4 family_v6 : Family
  family_other : ℕ → Family

pub data LinkKind : Type 0 where
  macvlan : Macvlan.Mode → LinkKind
  ipvlan : Ipvlan.Mode → Ipvlan.Flag → LinkKind
  vlan : ℤ → LinkKind
  other_kind : LinkKind

-- netlink.Link, of which a MAC is its text.
pub record Link : Type 0 where
  pub name : Bytes
  pub index : ℕ
  pub mac : Bytes
  pub promisc : ℕ
  pub kind : LinkKind

-- What a link is made from: its name, the index of its parent, its MTU, its MAC and its kind.
pub record NewLink : Type 0 where
  pub name : Bytes
  pub parent_index : ℕ
  pub mtu : ℤ
  pub mac : Option Bytes
  pub kind : LinkKind

-- netlink.Route, with `Via` as its text, "" for nil.
pub record KernelRoute : Type 0 where
  pub link_index : ℕ
  pub dst : Option IpNet
  pub src : Ip
  pub gw : Ip
  pub via : Bytes
  pub priority : ℤ
  pub family : Family

pub record Interface : Type 0 where
  pub name : Bytes
  pub mac : Bytes
  pub sandbox : Bytes

pub data Call : Type 0 where
  enter open_netns : Call
  link_by_name link_del_by_name link_del : Place → Bytes → Call
  link_by_index : Place → ℕ → Call
  link_list get_root : Call
  link_add : NewLink → Call
  link_set_up set_promisc_on : Bytes → Call
  link_rename : Bytes → Bytes → Call
  random_name : Call
  addr_list : Place → Bytes → Family → Call
  route_list : Place → Call
  route_get : Ip → Call
  route_add route_del route_replace : Place → KernelRoute → Call
  ipam_add ipam_del ipam_check configure : Bytes → Call
  sysctl : Bytes → Call
  gratuitous_arp : Ip → Call
  get_ip : Bytes → Bytes → Call
  get_subnet : Bytes → Call
  update_ip_status : FlatNetworkIp → Call
  print_result : Call

-- The last call first.
abbrev pub History : Type 0
History = List Call

abbrev pub M : Type 0 → Type 0
M A = History → A × History

module _ {A B : Type 0} where
  infixl 5 ◌>>=◌ ◌>>◌
  abbrev pub ◌>>=◌ : M A → (A → M B) → M B
  ◌>>=◌ m f h = let (a, h') = m h in f a h'

  abbrev pub ◌>>◌ : M A → M B → M B
  m >> k = m >>= λ _. k

  -- `if err != nil { return err }`
  abbrev pub then_or_err : Result A → (A → M (Result B)) → M (Result B)
  then_or_err (ok a) f h = f a h
  then_or_err (err e) f h = (err e, h)

-- A call that may fail in front of the rest of a function.
unfoldable pub and_then : {A B : Type 0} → M (Result A) → (A → M (Result B)) → M (Result B)
and_then m f = do r ← m; then_or_err r f

abbrev pub pure : {A : Type 0} → A → M A
pure a h = (a, h)

abbrev pub perform : {A : Type 0} → Call → (History → A) → M A
perform call answer h = (answer h, call ∷ h)

pub record Kernel : Type 1 where
  pub entered : History → Option Error
  -- ns.GetNS
  pub netns_opened : History → Option Error
  pub link_named : History → Place → Bytes → Result Link
  pub link_indexed : History → Place → ℕ → Result Link
  pub links : History → Result (List Link)
  -- netns.Get of the namespace of the thread
  pub root_at : History → Option Error
  pub link_added : History → NewLink → Option Error
  pub link_up : History → Bytes → Option Error
  pub promisc_set : History → Bytes → Option Error
  pub link_renamed : History → Bytes → Bytes → Option Error
  pub link_deleted : History → Place → Bytes → Option Error
  pub name_at : History → Result Bytes
  pub addrs : History → Place → Bytes → Family → Result (List IpNet)
  pub routes : History → Place → Result (List KernelRoute)
  pub routes_to : History → Ip → Result (List KernelRoute)
  pub route_added : History → Place → KernelRoute → Option Error
  pub route_deleted : History → Place → KernelRoute → Option Error
  pub route_replaced : History → Place → KernelRoute → Option Error
  pub ip_at : History → Bytes → Bytes → Result FlatNetworkIp
  pub subnet_at : History → Bytes → Result FlatNetworkSubnet
  pub ip_status_updated : History → FlatNetworkIp → Result FlatNetworkIp
  pub ipam_added : History → Bytes → Result Bytes
  pub ipam_deleted : History → Bytes → Option Error
  pub ipam_checked : History → Bytes → Option Error
  pub configured : History → Bytes → Option Error
  pub printed : History → Option Error
  -- nl.GetIPFamily
  pub get_ip_family : Ip → Family
  -- IPNet.String and IP.String
  pub network_string : IpNet → Bytes
  pub ip_string : Ip → Bytes
  -- the order in which a loop meets the keys of a Go map
  pub map_order : List ℕ → List ℕ
  -- retry.OnError and retry.RetryOnConflict of client-go
  pub retry_on_error : (A : Type 0) → (Error → Bool) → M (Result A) → M (Result A)
  pub retry_on_conflict : (A : Type 0) → M (Result A) → M (Result A)

-- IP.IsLinkLocalUnicast
unfoldable pub is_link_local_unicast : Ip → Bool
unfolding to4
is_link_local_unicast ip =
    if is_empty (to4 ip)
    then length ip == 16
      && get_or ip 0 0 == 254
      && leb 128 (get_or ip 1 0)
      && leb (get_or ip 1 0) 191
    else get_or (to4 ip) 0 0 == 169 && get_or (to4 ip) 1 0 == 254

module _ (k : Kernel) where
  unfoldable pub find_link : Place → Bytes → M (Result Link)
  find_link p name = perform (link_by_name p name) (λ h. k.link_named h p name)

  unfoldable pub list_addrs : Place → Bytes → Family → M (Result (List IpNet))
  list_addrs p name family = perform (addr_list p name family) (λ h. k.addrs h p name family)

  unfoldable pub list_routes : Place → M (Result (List KernelRoute))
  list_routes p = perform (route_list p) (λ h. k.routes h p)

  unfoldable pub add_route : Place → KernelRoute → M (Option Error)
  add_route p r = perform (route_add p r) (λ h. k.route_added h p r)

  unfoldable pub delete_route : Place → KernelRoute → M (Option Error)
  delete_route p r = perform (route_del p r) (λ h. k.route_deleted h p r)

  unfoldable pub delete_link : Place → Bytes → M (Option Error)
  delete_link p name = perform (link_del p name) (λ h. k.link_deleted h p name)

  unfoldable pub delete_link_by_name : Bytes → M (Option Error)
  delete_link_by_name name = perform (link_del_by_name pod name) (λ h. k.link_deleted h pod name)

  -- netns.Do around a function
  unfoldable pub in_pod : {A : Type 0} → M (Result A) → M (Result A)
  in_pod m = do e ← perform enter (λ h. k.entered h); elim e [ some e' ↦ pure (err e') | none ↦ m ]

abbrev pub error_of {ℓ} : {A : Type ℓ} → Result A → Option Error
error_of (ok a) = none
error_of (err e) = some e

-- The error of a call as the result of a function without a value.
abbrev pub from_error : Option Error → Result (Unit {0})
from_error none = ok tt
from_error (some e) = err e
