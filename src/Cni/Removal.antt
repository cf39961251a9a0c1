-- ===== src/Cni/Removal.antt =====
-- Proofs about Del of pkg/cni/commands/del.go: it succeeds on a pod that is gone in part.
use rancher_flat_network.Prelude.{
  ◌≡◌, refl, Bool, true, false, List, [], ◌∷◌, Option, none, some, is_empty, if◌then◌else◌, not,
  ◌⊎◌, inl, inr,
}
use rancher_flat_network.Net.{Bytes, Ip, IpNet}
use rancher_flat_network.Types.{Error, link_not_found, no_such_process, Result, ok, err}
use rancher_flat_network.Cni.Kernel
use rancher_flat_network.Cni.Kernel.{
  Kernel, Place, host, pod, Family, family_all, Link, KernelRoute, History, M, ◌>>=◌, pure, perform,
  from_error, then_or_err, and_then, in_pod, is_link_local_unicast,
}
use rancher_flat_network.Cni.HostRoute.{
  is_usable, tolerate, deleted_route, delete_to, delete_found, del_flat_network_route_from_host,
}
use rancher_flat_network.Cni.Route.{get_route_by_ip, first_of}
use rancher_flat_network.Cni.Config.{NetConf}
use rancher_flat_network.Cni.Command.{CmdArgs, Codec}
use rancher_flat_network.Cni.Del.{
  remove_found, remove_iface, remove_routes, opened, detach, ipam_delete, del,
}

unfoldable Succeeds : {A : Type 0} → M (Result A) → Type 0
Succeeds m = (h : History) → (a : _) × ((m h).0 ≡ ok a)

and_then-Succeeds :
    {A B : Type 0} (m : M (Result A)) (f : A → M (Result B))
    → Succeeds m
    → ((a : A) → Succeeds (f a))
    → Succeeds (and_then m f)
unfolding Succeeds and_then
and_then-Succeeds m f p q h = let (a, e) = p h in rw e (q a (m h).1)

if-Succeeds :
    {A : Type 0} (b : Bool) (m n : M (Result A))
    → Succeeds m
    → Succeeds n
    → Succeeds (if b then m else n)
if-Succeeds true m n p q = p
if-Succeeds false m n p q = q

done-Succeeds : {A : Type 0} (a : A) → Succeeds (pure (ok a))
unfolding Succeeds
done-Succeeds a h = (a, refl)

module _ (k : Kernel)
    (routes_to : (h : History) (ip : Ip) → (rs : List KernelRoute) × (k.routes_to h ip ≡ ok rs))
    (route_deleted : (h : History) (r : KernelRoute)
      → (k.route_deleted h host r ≡ none) ⊎ (k.route_deleted h host r ≡ some no_such_process)) where
  tolerated : (e : Option Error) → (e ≡ none) ⊎ (e ≡ some no_such_process) → tolerate k e ≡ ok tt
  unfolding tolerate
  tolerated e (inl p) = rw p refl
  tolerated e (inr p) = rw p refl

  delete_to-Succeeds : (r : KernelRoute) (d : Option IpNet) → Succeeds (delete_to k r d)
  unfolding delete_to Succeeds Kernel.delete_route
  delete_to-Succeeds r none h = (tt, refl)
  delete_to-Succeeds r (some d) h = (tt, tolerated _ (route_deleted h (deleted_route k r)))

  delete_found-Succeeds : (r : Option KernelRoute) → Succeeds (delete_found k r)
  unfolding delete_found Succeeds
  delete_found-Succeeds none h = (tt, refl)
  delete_found-Succeeds (some r) h = delete_to-Succeeds r r.dst h

  get_route_by_ip-Succeeds : (ip : Ip) → Succeeds (get_route_by_ip k ip)
  unfolding get_route_by_ip and_then Succeeds
  get_route_by_ip-Succeeds ip h = let (rs, e) = routes_to h ip in rw e (first_of k rs, refl)

  del_flat_network_route_from_host-Succeeds :
      (ip : Ip) → Succeeds (del_flat_network_route_from_host k ip)
  unfolding del_flat_network_route_from_host
  del_flat_network_route_from_host-Succeeds ip =
      if-Succeeds (not (is_usable ip)) _ _ (done-Succeeds tt)
        (and_then-Succeeds _ _ (get_route_by_ip-Succeeds ip) delete_found-Succeeds)

  remove_routes-Succeeds : (addrs : List IpNet) → Succeeds (remove_routes k addrs)
  unfolding remove_routes
  remove_routes-Succeeds [] = done-Succeeds tt
  remove_routes-Succeeds (a ∷ rest) =
      if-Succeeds (is_link_local_unicast a.ip) _ _ (remove_routes-Succeeds rest) (
        and_then-Succeeds _ _ (del_flat_network_route_from_host-Succeeds a.ip)
          (λ d. remove_routes-Succeeds rest))

  module _ (entered : (h : History) → k.entered h ≡ none)
      (link_named : (h : History) (name : Bytes)
        → (k.link_named h pod name ≡ err link_not_found)
          ⊎ ((l : Link) × (k.link_named h pod name ≡ ok l)))
      (addrs : (h : History) (name : Bytes) (family : Family)
        → (list : List IpNet) × (k.addrs h pod name family ≡ ok list))
      (link_deleted : (h : History) (name : Bytes) → k.link_deleted h pod name ≡ none) where
    in_pod-Succeeds : {A : Type 0} (m : M (Result A)) → Succeeds m → Succeeds (in_pod k m)
    unfolding in_pod Succeeds
    in_pod-Succeeds m p h = rw (entered h) (p (Kernel.enter ∷ h))

    opened-Succeeds : ((h : History) → k.netns_opened h ≡ none) → Succeeds (opened k)
    unfolding opened Succeeds
    opened-Succeeds p h = (tt, rw (p h) refl)

    ipam_delete-Succeeds :
        (args : CmdArgs)
        → ((h : History) → k.ipam_deleted h args.stdin_data ≡ none)
        → Succeeds (ipam_delete k args)
    unfolding ipam_delete Succeeds
    ipam_delete-Succeeds args p h = (tt, rw (p h) refl)

    found_link-Succeeds : (l : Link) → Succeeds (remove_found k (ok l))
    unfolding remove_found Succeeds and_then Kernel.list_addrs Kernel.delete_link
    found_link-Succeeds l h =
        let (list, e) = addrs h l.name family_all in
        rw e (rw (link_deleted (Kernel.addr_list pod l.name family_all ∷ h) l.name) (list, refl))

    remove_iface-Succeeds : (name : Bytes) → Succeeds (remove_iface k name)
    unfolding remove_iface Succeeds Kernel.find_link
    remove_iface-Succeeds name h = elim (link_named h name) [
      | inl e ↦ rw e ([], refl)
      | inr (l, e) ↦ rw e (found_link-Succeeds l (Kernel.link_by_name pod name ∷ h))
    ]

    detach-Succeeds :
        (args : CmdArgs) → ((h : History) → k.netns_opened h ≡ none) → Succeeds (detach k args)
    unfolding detach
    detach-Succeeds args p = if-Succeeds (is_empty args.netns) _ _ (done-Succeeds tt) (
        and_then-Succeeds _ _ (opened-Succeeds p) (λ d.
          and_then-Succeeds _ _ (in_pod-Succeeds _ (remove_iface-Succeeds args.if_name))
            remove_routes-Succeeds))

    del-Succeeds :
        (c : Codec) (args : CmdArgs) (n : NetConf)
        → c.set_up ≡ none
        → c.load_conf args.stdin_data ≡ ok n
        → ((h : History) → k.netns_opened h ≡ none)
        → ((h : History) → k.ipam_deleted h args.stdin_data ≡ none)
        → Succeeds (del k c args)
    unfolding del
    del-Succeeds c args n e1 e2 p q = and_then-Succeeds _ _ (rw e1 (done-Succeeds tt)) (λ d1.
        and_then-Succeeds _ _ (rw e2 (done-Succeeds n)) (λ d2.
          and_then-Succeeds _ _ (ipam_delete-Succeeds args q) (λ d3. detach-Succeeds args p)))

    -- Del is set up and its configuration loads; the IPAM plugin releases; the namespace opens and can be entered, and
    -- the link in it is found or answered as not found, its addresses are listed, and its deletion does not fail;
    -- RouteGet on the host answers for every address without an error; and a deletion of a route on the host goes
    -- well or is answered "no such process". Then Del succeeds, so also when the link or the route is gone already.
    pub del_again :
        (c : Codec) (args : CmdArgs) (n : NetConf)
        → c.set_up ≡ none
        → c.load_conf args.stdin_data ≡ ok n
        → ((h : History) → k.netns_opened h ≡ none)
        → ((h : History) → k.ipam_deleted h args.stdin_data ≡ none)
        → (h : History) → (del k c args h).0 ≡ ok tt
    unfolding Succeeds
    del_again c args n e1 e2 p q h = let (u, e) = del-Succeeds c args n e1 e2 p q h in e
