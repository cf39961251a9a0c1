-- ===== src/Cni/Ensure.antt =====
-- Proofs about EnsureRouteExists of pkg/cni/route/route.go: a route that stands is not added again.
use rancher_flat_network.Prelude.{◌≡◌, refl, true, List, [], ◌∷◌, ◌++◌, arith}
use rancher_flat_network.Net.{Ip, ip_equal}
use rancher_flat_network.Slices.Order.{eq_bytes_refl}
use rancher_flat_network.Types.{ok}
use rancher_flat_network.Cni.Kernel
use rancher_flat_network.Cni.Kernel.{
  Kernel, Place, pod, Family, family_all, family_v4, family_v6, family_other, Link, KernelRoute,
  Call, History, M, ◌>>=◌, pure,
}
use rancher_flat_network.Cni.Route.{
  dst_text, same_family, compatible, same_route, any_route, check_route_exists, ensure_route_exists,
}

same_family_refl : (f : Family) → same_family f f ≡ true
unfolding same_family
same_family_refl family_all = refl
same_family_refl family_v4 = refl
same_family_refl family_v6 = refl
same_family_refl (family_other n) = ground arith

ip_equal_refl : (a : Ip) → ip_equal a a ≡ true
unfolding ip_equal
ip_equal_refl a = ground (arith, eq_bytes_refl a)

compatible_refl : (a : Ip) → compatible a a ≡ true
unfolding compatible
compatible_refl a = ground (arith, ip_equal_refl a)

module _ (k : Kernel) where
  same_route_refl : (r : KernelRoute) → same_route k r r ≡ true
  unfolding same_route
  same_route_refl r = ground (
    arith,
    eq_bytes_refl (dst_text k r.dst),
    same_family_refl r.family,
    compatible_refl r.src,
    compatible_refl r.gw,
    eq_bytes_refl r.via,
  )

  any_route-append :
      (r : KernelRoute) (before after : List KernelRoute)
      → any_route k r (before ++ r ∷ after) ≡ true
  unfolding any_route
  any_route-append r [] after = ground (arith, same_route_refl r)
  any_route-append r (x ∷ xs) after = ground (arith, any_route-append r xs after)

  -- A route that the kernel lists is found, whatever else is listed, so that the routes are read once and
  -- nothing is added.
  pub ensure_route_exists-again :
      (p : Place) (route : KernelRoute) (before after : List KernelRoute) (h : History)
      → k.routes h p ≡ ok (before ++ route ∷ after)
      → ensure_route_exists k p route h ≡ (ok tt, Kernel.route_list p ∷ h)
  unfolding ensure_route_exists check_route_exists Kernel.list_routes
  ensure_route_exists-again p route before after h e =
      rw e (rw (any_route-append route before after) refl)
