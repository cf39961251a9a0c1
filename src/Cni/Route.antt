-- ===== src/Cni/Route.antt =====
-- pkg/cni/route/route.go, logging and PrintRoutes left out. In netlink a route without a destination is a
-- default route; its destination reads as "<nil>".
use rancher_flat_network.Prelude.{
  ℕ, ◌==◌, Bool, true, false, not, ◌&&◌, ◌||◌, List, [], ◌∷◌, Option, none, some, if◌then◌else◌,
  is_empty,
}
use rancher_flat_network.Net.{Bytes, Ip, IpNet, eq_bytes, ip_equal, to4}
use rancher_flat_network.Net.Parse.{parse_ip, parse_cidr}
use rancher_flat_network.Types.{Route, Result, ok, err, invalid_cidr, codes}
use rancher_flat_network.Cni.Kernel
use rancher_flat_network.Cni.Kernel.{
  Kernel, Place, host, pod, Family, family_all, family_v4, family_v6, family_other, KernelRoute,
  Link, M, ◌>>=◌, ◌>>◌, pure, perform, then_or_err, and_then, from_error, find_link, list_routes,
  add_route, in_pod,
}
use rancher_flat_network.Cni.Addresses.{pod_iface_eth1}

unfoldable pub is_default_route : KernelRoute → Bool
unfolding parse_ip
is_default_route r = elim r.dst [
  | none ↦ true
  | some n ↦ ip_equal n.ip (parse_ip (codes "0.0.0.0")) || ip_equal n.ip (parse_ip (codes "::"))
]

unfoldable pub default_routes : List KernelRoute → List KernelRoute
unfolding is_default_route
default_routes [] = []
default_routes (r ∷ rs) =
    let rest = default_routes rs in if is_default_route r then r ∷ rest else rest

-- A map as a set: the keys that are set, each once.
unfoldable pub link_ids : List KernelRoute → List ℕ → List ℕ
link_ids [] ids = ids
link_ids (r ∷ rs) ids = link_ids rs (if has_id r.link_index ids then ids else r.link_index ∷ ids)
  where
    has_id : ℕ → List ℕ → Bool
    has_id n [] = false
    has_id n (i ∷ is) = n == i || has_id n is

unfoldable pub same_family : Family → Family → Bool
same_family family_all family_all = true
same_family family_v4 family_v4 = true
same_family family_v6 family_v6 = true
same_family (family_other a) (family_other b) = a == b
same_family _ _ = false

unfoldable pub same_address_family : KernelRoute → Ip → Bool
unfolding to4
same_address_family r ip = elim r.family [
  | family_v4 ↦ not (is_empty (to4 ip))
  | family_v6 ↦ is_empty (to4 ip)
  | family_all ↦ true
  | family_other n ↦ false
]

-- Two addresses of which one may be nil.
unfoldable pub compatible : Ip → Ip → Bool
compatible a b = is_empty a || is_empty b || ip_equal a b

-- The route that UpdatePodDefaultGateway puts in place of a default route.
unfoldable pub replaced : ℕ → Ip → Ip → KernelRoute → KernelRoute
replaced index ip gateway r = record r { link_index = index; src = ip; gw = gateway }

-- Whether a route is one that UpdatePodDefaultGateway replaces.
unfoldable pub is_replaced : Ip → KernelRoute → Bool
unfolding is_default_route same_address_family
is_replaced ip r = is_default_route r && same_address_family r ip

module _ (k : Kernel) where
  unfoldable pub dst_text : Option IpNet → Bytes
  dst_text none = codes "<nil>"
  dst_text (some n) = k.network_string n

  -- One route of the list against the route that is looked for.
  unfoldable pub same_route : KernelRoute → KernelRoute → Bool
  unfolding dst_text same_family compatible
  same_route r route =
      eq_bytes (dst_text r.dst) (dst_text route.dst)
      && same_family r.family route.family
      && compatible r.src route.src
      && (is_empty r.via || is_empty route.via || eq_bytes r.via route.via)
      && compatible r.gw route.gw

  unfoldable pub any_route : KernelRoute → List KernelRoute → Bool
  unfolding same_route
  any_route route [] = false
  any_route route (r ∷ rs) = same_route r route || any_route route rs

  unfoldable pub get_default_routes : Place → M (Result (List KernelRoute))
  unfolding default_routes
  get_default_routes p = do r ← list_routes k p; then_or_err r (λ rs. pure (ok (default_routes rs)))

  unfoldable pub get_default_link_id_set : Place → M (Result (List ℕ))
  unfolding get_default_routes link_ids
  get_default_link_id_set p = do
    r ← get_default_routes p
    then_or_err r (λ rs. pure (ok (link_ids rs [])))

  -- A nil route is none.
  unfoldable pub first_of : List KernelRoute → Option KernelRoute
  first_of [] = none
  first_of (first ∷ rest) = some first

  unfoldable pub get_route_by_ip : Ip → M (Result (Option KernelRoute))
  unfolding first_of
  get_route_by_ip ip =
      and_then (perform (Kernel.route_get ip) (λ h. k.routes_to h ip))
        (λ rs. pure (ok (first_of rs)))

  unfoldable pub check_route_exists : Place → KernelRoute → M (Result Bool)
  unfolding any_route
  check_route_exists p route = do
    r ← list_routes k p
    then_or_err r (λ rs. pure (ok (any_route route rs)))

  unfoldable pub ensure_route_exists : Place → KernelRoute → M (Result (Unit {0}))
  unfolding check_route_exists
  ensure_route_exists p route = do
    r ← check_route_exists p route
    then_or_err r
        (λ there. if there then pure (ok tt) else (do e ← add_route k p route; pure (from_error e)))

  -- The destination 0.0.0.0 or "::0" of a custom route becomes a default route.
  unfoldable pub custom_route : Link → Route → Ip → IpNet → KernelRoute
  custom_route link r ip network = record {
    link_index = link.index;
    dst =
        if eq_bytes (k.ip_string network.ip) (codes "0.0.0.0")
          || eq_bytes (k.ip_string network.ip) (codes "::0")
        then none
        else some network;
    src = r.src;
    gw = r.via;
    via = [];
    priority = r.priority;
    family = k.get_ip_family ip;
  }

  -- One round of the loop over the custom routes.
  unfoldable pub add_custom_route : Route → M (Result (Unit {0}))
  unfolding ensure_route_exists custom_route
  add_custom_route r = if eq_bytes r.dev pod_iface_eth1 then pure (ok tt) else (do
    l ← find_link k pod r.dev
    then_or_err l (λ link. elim (parse_cidr r.dst) [
      | none ↦ pure (err invalid_cidr)
      | some (ip, network) ↦ ensure_route_exists pod (custom_route link r ip network)
    ]))

  unfoldable pub add_custom_routes : List Route → M (Result (Unit {0}))
  unfolding add_custom_route
  add_custom_routes [] = pure (ok tt)
  add_custom_routes (r ∷ rs) =
      let rest = add_custom_routes rs in do e ← add_custom_route r; then_or_err e (λ done. rest)

  unfoldable pub add_pod_flat_network_custom_routes : List Route → M (Result (Unit {0}))
  unfolding add_custom_routes
  add_pod_flat_network_custom_routes routes =
      if is_empty routes then pure (ok tt) else in_pod k (add_custom_routes routes)

  -- The loop of UpdatePodDefaultGateway.
  unfoldable pub replace_routes : ℕ → Ip → Ip → List KernelRoute → M (Result (Unit {0}))
  unfolding is_replaced replaced
  replace_routes index ip gateway [] = pure (ok tt)
  replace_routes index ip gateway (r ∷ rs) =
      let rest = replace_routes index ip gateway rs in
      if not (is_replaced ip r) then rest else (do
        e ←
            perform (Kernel.route_replace pod (replaced index ip gateway r))
              (λ h. k.route_replaced h pod (replaced index ip gateway r))
        elim e [ some e' ↦ pure (err e') | none ↦ rest ])

  unfoldable pub update_pod_default_gateway : Bytes → Ip → Ip → M (Result (Unit {0}))
  unfolding replace_routes
  update_pod_default_gateway if_name ip gateway = in_pod k (do
    l ← find_link k pod if_name
    then_or_err l (λ link. do
      r ← list_routes k pod
      then_or_err r (λ rs. replace_routes link.index ip gateway rs)))
