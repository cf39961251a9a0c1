-- ===== src/Service/Settled.antt =====
-- What the controllers of services write is what they look for.
use rancher_flat_network.Prelude.{
  ◌≡◌, refl, Bool, true, false, List, [], ◌∷◌, ◌++◌, none, some, arith, ◌∙◌, is_empty, length, take,
  drop, length-append, ◌-◌, leb,
}
use rancher_flat_network.Net.{Bytes, eq_bytes, compare_bytes}
use rancher_flat_network.Slices.Order.{eq_bytes_refl}
use rancher_flat_network.Types.{get_key, ok}
use rancher_flat_network.Maps.Laws.{IsMap, same_map_refl}
use rancher_flat_network.Maps.Labels.{get_key-set_key, get_key-delete_key}
use rancher_flat_network.Objects.{Service, ServicePort, IntOrString, int_value, str_value}
use rancher_flat_network.Cluster.{Cluster, Pod, History, returned, get_service, enqueue_service}
use rancher_flat_network.FlatNetworkSubnet.Used.{is_deleting}
use rancher_flat_network.Pod.NewIp.{same_owner}
use rancher_flat_network.Pod.Settled.{same_list_refl, same_owner_refl}
use rancher_flat_network.Service.Kinds.{
  flat_network_service_name_suffix, has_suffix, trim_suffix, is_headless, is_ingress_service,
  is_flat_network_service,
}
use rancher_flat_network.Service.Expected.{
  IntStr, same_target, same_port, new_flat_network_service, flat_network_service_updated,
}
use rancher_flat_network.Service.Handlers.{
  is_workload_disabled_flat_network, pods_list, disables, any_pod, adopt_service,
  handle_flat_network_service, sync_service, should_delete_flat_network_service, service_cache_get,
  ensure_flat_network_service,
}
use rancher_flat_network.Service.Ingress.{
  rancher_flat_network_cni, is_marked, mark, handle_ingress_service,
}

drop-append {ℓ} : {A : Type ℓ} (xs ys : List A) → drop (length xs) (xs ++ ys) ≡ ys
drop-append [] ys = refl
drop-append (x ∷ xs) ys = drop-append xs ys

take-append {ℓ} : {A : Type ℓ} (xs ys : List A) → take (length xs) (xs ++ ys) ≡ xs
take-append [] ys = refl
take-append (x ∷ xs) ys = rw (take-append xs ys) refl

append_sub : (s p : Bytes) → length (s ++ p) - length p ≡ length s
append_sub s p = let l = length-append s p in omega arith

has_suffix-append : (p s : Bytes) → has_suffix p (s ++ p) ≡ true
unfolding has_suffix
has_suffix-append p s =
    let longer : leb (length p) (length (s ++ p)) ≡ true =
      let l = length-append s p in ground arith in
    rw longer (rw (append_sub s p) (rw (drop-append s p) (eq_bytes_refl p)))

trim_suffix-append : (p s : Bytes) → trim_suffix p (s ++ p) ≡ s
unfolding trim_suffix
trim_suffix-append p s = rw (has_suffix-append p s) (rw (append_sub s p) (take-append s p))

never_empty : (s p : Bytes) → is_empty p ≡ false → is_empty (s ++ p) ≡ false
never_empty [] p h = h
never_empty (x ∷ s) p h = refl

same_target_refl : (t : IntOrString) → same_target t t ≡ true
unfolding same_target
same_target_refl (int_value a) = ground arith
same_target_refl (str_value a) = eq_bytes_refl a

same_port_refl : (p : ServicePort) → same_port p p ≡ true
unfolding same_port
same_port_refl p =
    ground (arith, eq_bytes_refl p.name, eq_bytes_refl p.protocol, same_target_refl p.target_port)

-- What isWorkloadDisabledFlatNetwork has seen where it answers no.
enabled_facts :
    (c : Cluster) (svc : Service) (pods : List Pod) (h h1 : History)
    → c.pods_at h svc.namespace svc.spec.selector ≡ ok pods
    → is_workload_disabled_flat_network c svc h ≡ (returned (ok false), h1)
    → (is_empty svc.spec.selector ≡ false) × (any_pod disables pods ≡ false)
unfolding is_workload_disabled_flat_network pods_list
enabled_facts c svc pods h h1 read r = ground (arith, read, r)

module _ (i : IntStr) (annot : Bytes) where
  new-is_flat_network_service :
      (svc : Service) → is_flat_network_service annot (new_flat_network_service i annot svc) ≡ true
  unfolding is_flat_network_service new_flat_network_service is_headless get_key compare_bytes
  new-is_flat_network_service svc =
      let suffix = has_suffix-append flat_network_service_name_suffix svc.name in
      let here = eq_bytes_refl annot in rw suffix (rw here refl)

  new-named : (svc : Service) → is_empty (new_flat_network_service i annot svc).name ≡ false
  unfolding new_flat_network_service
  new-named svc = never_empty svc.name flat_network_service_name_suffix refl

  new-alive :
      (svc : Service)
      → is_deleting (new_flat_network_service i annot svc).deletion_timestamp ≡ false
  unfolding new_flat_network_service
  new-alive svc = refl

  -- The service that newFlatNetworkService makes, unless isIngressService holds of it, is one that
  -- syncService hands to handleFlatNetworkService: no further service is made for it.
  pub new_flat_network_service-sync_service :
      (c : Cluster) (svc : Service) (h : History)
      → is_ingress_service (new_flat_network_service i annot svc) ≡ false
      → sync_service c i annot (new_flat_network_service i annot svc) h
        ≡ handle_flat_network_service c (new_flat_network_service i annot svc) h
  unfolding sync_service
  new_flat_network_service-sync_service c svc h e =
      let kind = new-is_flat_network_service svc in
      let named = new-named svc in
      let alive = new-alive svc in rw named (rw alive (rw e (rw kind refl)))

  new-original :
      (svc : Service)
      → trim_suffix flat_network_service_name_suffix (new_flat_network_service i annot svc).name
        ≡ svc.name
  unfolding new_flat_network_service
  new-original svc = trim_suffix-append flat_network_service_name_suffix svc.name

  -- handleFlatNetworkService asks about a service that newFlatNetworkService made from one with a
  -- selector, while the original is in the cache: the answer is whether one of the pods disables the
  -- service, and the one call is the read of the original, by its own name.
  pub new_flat_network_service-should_delete :
      (c : Cluster) (svc original : Service) (pods : List Pod) (h : History)
      → is_empty svc.spec.selector ≡ false
      → c.service_at h svc.namespace svc.name ≡ ok original
      → should_delete_flat_network_service c (new_flat_network_service i annot svc) pods h
        ≡ (returned (ok (any_pod disables pods)), get_service svc.namespace svc.name ∷ h)
  unfolding should_delete_flat_network_service service_cache_get new_flat_network_service
  new_flat_network_service-should_delete c svc original pods h some_selector read =
      let back = trim_suffix-append flat_network_service_name_suffix svc.name in
      rw some_selector (rw back (rw read refl))

  -- The service that the code is about to make or keep is not deleted: when isWorkloadDisabledFlatNetwork
  -- answers no for a service, then later, with the same pods and the original still in the cache,
  -- shouldDeleteFlatNetworkService answers no for the service made from it.
  pub is_workload_disabled-should_delete :
      (c : Cluster) (svc original : Service) (pods : List Pod) (h h1 later : History)
      → c.pods_at h svc.namespace svc.spec.selector ≡ ok pods
      → is_workload_disabled_flat_network c svc h ≡ (returned (ok false), h1)
      → c.service_at later svc.namespace svc.name ≡ ok original
      → should_delete_flat_network_service c (new_flat_network_service i annot svc) pods later
        ≡ (returned (ok false), get_service svc.namespace svc.name ∷ later)
  is_workload_disabled-should_delete c svc original pods h h1 later read r there =
      let facts = enabled_facts c svc pods h h1 read r in
      let e = facts.1 in
      new_flat_network_service-should_delete c svc original pods later facts.0 there ∙ (rw e refl)

adopted_updated :
    (expected old : Service)
    → old.name ≡ expected.name
    → old.namespace ≡ expected.namespace
    → IsMap expected.annotations
    → IsMap expected.spec.selector
    → flat_network_service_updated (adopt_service expected old) expected ≡ true
unfolding flat_network_service_updated adopt_service
adopted_updated expected old n m a l =
    let owners = same_list_refl same_owner same_owner_refl expected.owner_references in
    let notes = same_map_refl eq_bytes eq_bytes_refl expected.annotations a in
    let ports = same_list_refl same_port same_port_refl expected.spec.ports in
    let selector = same_map_refl eq_bytes eq_bytes_refl expected.spec.selector l in
    let ips = same_list_refl eq_bytes eq_bytes_refl expected.spec.cluster_ips in
    ground (
      arith,
      eq_bytes_refl expected.name,
      eq_bytes_refl expected.namespace,
      eq_bytes_refl expected.spec.cluster_ip,
      eq_bytes_refl expected.spec.service_type,
    )

mark-is_marked :
    (annot : Bytes) (svc : Service) (enabled : Bool)
    → is_marked annot enabled (mark annot enabled svc) ≡ true
unfolding is_marked mark
mark-is_marked annot svc true =
    let read = get_key-set_key annot rancher_flat_network_cni svc.annotations in
    rw read (eq_bytes_refl rancher_flat_network_cni)
mark-is_marked annot svc false = let read = get_key-delete_key annot svc.annotations in rw read refl

module _ (c : Cluster) where
  -- A service with the spec, the annotations and the owners of the expected one is up to date.
  pub ensure_flat_network_service-again :
      (svc expected old : Service) (h : History)
      → old.name ≡ expected.name
      → old.namespace ≡ expected.namespace
      → IsMap expected.annotations
      → IsMap expected.spec.selector
      → c.service_at h expected.namespace expected.name ≡ ok (adopt_service expected old)
      → ensure_flat_network_service c svc expected h ≡ (
        returned (some svc, none),
        enqueue_service svc.namespace svc.name ∷ get_service expected.namespace expected.name ∷ h,
      )
  unfolding ensure_flat_network_service service_cache_get
  ensure_flat_network_service-again svc expected old h n m a l read =
      let up = adopted_updated expected old n m a l in rw read (rw up refl)

  -- handleIngressService, run again with the same answer on the service that it wrote, calls nothing.
  -- The CNI's name and "" are not the same text, so either answer has its own mark.
  pub handle_ingress_service-again :
      (annot : Bytes) (svc : Service) (enabled : Bool) (h : History)
      → handle_ingress_service annot c (mark annot enabled svc) enabled h ≡ (returned none, h)
  unfolding handle_ingress_service
  handle_ingress_service-again annot svc enabled h =
      let done = mark-is_marked annot svc enabled in rw done refl
