-- ===== src/Workload/Settled.antt =====
-- When the controller of workloads writes nothing.
use rancher_flat_network.Prelude.{
  ◌≡◌, refl, true, List, [], ◌∷◌, none, arith, Bool-cases, inl, inr, ◌⊎◌, sym, ◌∙◌, ap, subst,
}
use rancher_flat_network.Net.{Bytes, Ip, eq_bytes, compare_bytes}
use rancher_flat_network.Slices.Order.{eq_bytes_refl}
use rancher_flat_network.Types.{
  IpRange, FlatNetworkSubnet, get_key, set_key, Result, ok, annotation_ip, subnet_namespace,
  allocate_mode_auto,
}
use rancher_flat_network.Maps.Laws.{IsMap, set_key-IsMap, same_map_refl}
use rancher_flat_network.Objects.{WorkloadObject}
use rancher_flat_network.Cluster.{Cluster, M, History, returned, get_subnet}
use rancher_flat_network.Common.Annotation.{check_pod_annotation_ips}
use rancher_flat_network.FlatNetworkIp.Handlers.{subnet_cache_get}
use rancher_flat_network.FlatNetworkSubnet.Handlers.{same_ranges}
use rancher_flat_network.Workload.Handlers.{
  Reserved, reserve_ranges, reserve, same_reserved, with_addresses, write_reserved,
  sync_workload_reserved_ip, remove_workload_reserved_ip, get_template_annotations,
}

set_key_twice :
    (k : Bytes) (rs : List IpRange) (m : Reserved) → set_key k rs (set_key k rs m) ≡ set_key k rs m
unfolding set_key
set_key_twice k rs [] = let e = eq_bytes_refl k in rw e refl
set_key_twice k rs ((j, ss) ∷ m) = elim (Bool-cases (eq_bytes j k)) [
  | inl here ↦ let e = eq_bytes_refl k in rw here (rw e refl)
  | inr there ↦ rw there (rw there (ap (λ x. (j, ss) ∷ x) (set_key_twice k rs m)))
]

same_ranges_refl : (rs : List IpRange) → same_ranges rs rs ≡ true
unfolding same_ranges
same_ranges_refl [] = refl
same_ranges_refl (r ∷ rs) =
    let ih = same_ranges_refl rs in ground (arith, eq_bytes_refl r.from, eq_bytes_refl r.to)

no_ips : (a : Bytes) → (a ≡ []) ⊎ (a ≡ allocate_mode_auto) → check_pod_annotation_ips a ≡ ok []
unfolding check_pod_annotation_ips compare_bytes
no_ips a (inl e) = rw e refl
no_ips a (inr e) = rw e refl

module _ (c : Cluster) where
  -- Where the subnet that is read holds the reservation of a workload already, in a map that has no
  -- key twice, the function that is handed to RetryOnConflict makes no call but the read.
  pub write_reserved-again :
      (key subnet_name : Bytes) (ips : List Ip) (m : Reserved) (s : FlatNetworkSubnet) (h : History)
      → IsMap m
      → c.subnet_at h subnet_namespace subnet_name ≡ ok s
      → s.status.reserved_ip ≡ reserve key ips m
      → write_reserved c (reserve key ips) subnet_name h
        ≡ (returned (ok tt), get_subnet subnet_namespace subnet_name ∷ h)
  unfolding write_reserved subnet_cache_get reserve same_reserved
  write_reserved-again key subnet_name ips m s h one read stands =
      let rs = reserve_ranges ips [] in
      let twice : set_key key rs s.status.reserved_ip ≡ s.status.reserved_ip =
        ap (set_key key rs) stands ∙ set_key_twice key rs m ∙ sym stands in
      let single : IsMap s.status.reserved_ip =
        subst IsMap (sym stands) (set_key-IsMap key rs m one) in
      let same : same_reserved s.status.reserved_ip (set_key key rs s.status.reserved_ip) ≡ true =
        ap (same_reserved s.status.reserved_ip) twice
        ∙ same_map_refl same_ranges same_ranges_refl s.status.reserved_ip single in
      rw read (rw same refl)

  untouched_body :
      (w : WorkloadObject) (body : List Ip → M (Result (Unit {0}))) (h : History)
      → check_pod_annotation_ips (get_key annotation_ip (get_template_annotations w)) ≡ ok []
      → with_addresses c w body h ≡ (returned none, h)
  unfolding with_addresses
  untouched_body w body h e = rw (e, with_addresses) refl

  -- A workload whose template asks for no address, by an empty annotation or by `auto`, makes neither
  -- function of the reservations call anything: what was reserved under its key before stays.
  pub reserved-untouched :
      (w : WorkloadObject) (h : History)
      → (get_key annotation_ip (get_template_annotations w) ≡ [])
        ⊎ (get_key annotation_ip (get_template_annotations w) ≡ allocate_mode_auto)
      → (sync_workload_reserved_ip c w h ≡ (returned none, h))
        × (remove_workload_reserved_ip c w h ≡ (returned none, h))
  unfolding sync_workload_reserved_ip remove_workload_reserved_ip
  reserved-untouched w h asks =
      let none_asked = no_ips (get_key annotation_ip (get_template_annotations w)) asks in
      (untouched_body w _ h none_asked, untouched_body w _ h none_asked)
