-- ===== src/Pod/Settled.antt =====
-- When the controller of pods has nothing more to write.
use rancher_flat_network.Prelude.{
  ◌≡◌, refl, Bool, true, false, List, [], ◌∷◌, Option, none, some, arith,
}
use rancher_flat_network.Net.{eq_bytes, compare_bytes}
use rancher_flat_network.Slices.Order.{eq_bytes_refl}
use rancher_flat_network.Types.{
  FlatNetworkIp, FlatNetworkSubnet, IpSpec, OwnerReference, Labels, get_key, set_key, ok,
  subnet_namespace, annotation_subnet,
}
use rancher_flat_network.Maps.{merge}
use rancher_flat_network.Maps.Laws.{IsMap, same_map_refl}
use rancher_flat_network.Maps.Labels.{get_key-set_key, get_key-merge_other}
use rancher_flat_network.Cluster.{Cluster, Pod, History, returned, get_subnet}
use rancher_flat_network.FlatNetworkIp.Handlers.{subnet_cache_get}
use rancher_flat_network.Pod.NewIp.{
  same_option_bool, same_owner, same_list, same_spec, flat_network_ip_updated,
}
use rancher_flat_network.Pod.Handlers.{adopt, has_labels, pod_labels, update_pod_label}

same_option_bool_refl : (b : Option Bool) → same_option_bool b b ≡ true
unfolding same_option_bool
same_option_bool_refl none = refl
same_option_bool_refl (some true) = refl
same_option_bool_refl (some false) = refl

pub same_owner_refl : (o : OwnerReference) → same_owner o o ≡ true
unfolding same_owner
same_owner_refl o = ground (
  arith,
  eq_bytes_refl o.kind,
  eq_bytes_refl o.name,
  eq_bytes_refl o.uid,
  eq_bytes_refl o.api_version,
  same_option_bool_refl o.controller,
  same_option_bool_refl o.block_owner_deletion,
)

pub same_list_refl {ℓ} :
    {A : Type ℓ} (same : A → A → Bool)
    → ((a : A) → same a a ≡ true)
    → (xs : List A) → same_list same xs xs ≡ true
unfolding same_list
same_list_refl same r [] = refl
same_list_refl same r (x ∷ xs) =
    let first = r x in let rest = same_list_refl same r xs in rw first rest

same_spec_refl : (s : IpSpec) → same_spec s s ≡ true
unfolding same_spec
same_spec_refl s = ground (
  arith,
  eq_bytes_refl s.subnet,
  same_list_refl eq_bytes eq_bytes_refl s.addrs,
  same_list_refl eq_bytes eq_bytes_refl s.macs,
  eq_bytes_refl s.pod_id,
)

-- An IP of the same name and namespace as the expected one, once ensureFlatNetworkIP has written the
-- expected fields into it, is one that flatNetworkIPUpdated finds up to date. The labels and the
-- annotations of the expected IP have no key twice.
pub adopt-flat_network_ip_updated :
    (expected ip : FlatNetworkIp)
    → ip.name ≡ expected.name
    → ip.namespace ≡ expected.namespace
    → IsMap expected.labels
    → IsMap expected.annotations
    → flat_network_ip_updated (adopt expected ip) expected ≡ true
unfolding flat_network_ip_updated adopt
adopt-flat_network_ip_updated expected ip e f l a =
    let owners = same_list_refl same_owner same_owner_refl expected.owner_references in
    let labels = same_map_refl eq_bytes eq_bytes_refl expected.labels l in
    let notes = same_map_refl eq_bytes eq_bytes_refl expected.annotations a in
    let spec = same_spec_refl expected.spec in
    ground (arith, eq_bytes_refl expected.name, eq_bytes_refl expected.namespace)

merged-has_labels :
    (labels own : Labels) → IsMap labels → has_labels labels (merge labels own) ≡ true
unfolding has_labels merge
merged-has_labels [] own h = refl
merged-has_labels ((k, v) ∷ labels) own h =
    let kept = get_key-merge_other k labels (set_key k v own) h.0 in
    let written = get_key-set_key k v own in
    let rest = merged-has_labels labels (set_key k v own) h.1 in ground (arith, eq_bytes_refl v)

module _ (c : Cluster) where
  pod_labels-IsMap :
      (pod : Pod) (ip : FlatNetworkIp) (s : FlatNetworkSubnet) → IsMap (pod_labels c pod ip s)
  unfolding pod_labels compare_bytes
  pod_labels-IsMap pod ip s = (
    (refl, (refl, (refl, (refl, tt)))),
    ((refl, (refl, (refl, tt))), ((refl, (refl, tt)), ((refl, tt), (tt, tt)))),
  )

  -- A pod with the labels that updatePodLabel merges in, read with the same IP and the same subnet, makes
  -- updatePodLabel call nothing but the read of the subnet, and return no error.
  pub update_pod_label-again :
      (pod : Pod) (ip : FlatNetworkIp) (s : FlatNetworkSubnet) (h : History)
      → c.subnet_at h subnet_namespace (get_key annotation_subnet pod.annotations) ≡ ok s
      → update_pod_label c (record pod { labels = merge (pod_labels c pod ip s) pod.labels }) ip h
        ≡ (
          returned none,
          get_subnet subnet_namespace (get_key annotation_subnet pod.annotations) ∷ h,
        )
  unfolding update_pod_label subnet_cache_get pod_labels
  update_pod_label-again pod ip s h read =
      let there =
        merged-has_labels (pod_labels c pod ip s) pod.labels (pod_labels-IsMap pod ip s) in
      rw read (rw there refl)
