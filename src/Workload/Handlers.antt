-- ===== src/Workload/Handlers.antt =====
-- The handler of workloads, logging left out. The five kinds are one record, so that DeepCopy and the
-- choice of a client by kind are the question whether the kind is known.
use rancher_flat_network.Prelude.{
  Bool, true, false, not, ◌&&◌, ◌||◌, List, [], ◌∷◌, Option, none, some, if◌then◌else◌, is_empty,
}
use rancher_flat_network.Net.{Bytes, Ip, eq_bytes}
use rancher_flat_network.Types.{
  IpRange, Labels, get_key, set_key, Error, Result, ok, err, annotation_ip, annotation_subnet,
  label_flat_network_ip_type, label_subnet, label_flat_mode, allocate_mode_auto,
  allocate_mode_specific,
}
use rancher_flat_network.Maps.{delete_key, same_map}
use rancher_flat_network.Objects.{WorkloadObject}
use rancher_flat_network.Cluster.{
  Cluster, M, ◌>>=◌, pure, perform, then_or_err, error_of, update_workload,
}
use rancher_flat_network.Ipcalc.{add_ip_to_range}
use rancher_flat_network.Common.Annotation.{
  Kind, cron_job, no_workload, check_pod_annotation_ips, get_workload_reserved_ip_key,
}
use rancher_flat_network.FlatNetworkIp.Handlers.{subnet_cache_get, subnet_update_status}
use rancher_flat_network.FlatNetworkSubnet.Used.{is_deleting}
use rancher_flat_network.FlatNetworkSubnet.Handlers.{same_ranges}

-- A Go map from keys of workloads to ranges.
abbrev pub Reserved : Type 0
Reserved = List (Bytes × List IpRange)

abbrev pub Handled : Type 0
Handled = WorkloadObject × Option Error

unfoldable pub get_template_annotations : WorkloadObject → Labels
get_template_annotations w = elim w.kind [
  | cron_job ↦ w.job_template_annotations
  | no_workload ↦ []
  | _ ↦ w.template_annotations
]

unfoldable pub get_ip_type : Bytes → Bytes
get_ip_type a =
    if eq_bytes a allocate_mode_auto
    then allocate_mode_auto
    else if is_empty a
    then []
    else allocate_mode_specific

-- The labels of getTemplateFlatNetworkLabel before it looks at the subnet.
unfoldable pub ip_labels : Labels → Labels
unfolding get_ip_type
ip_labels a =
    (label_flat_network_ip_type, get_ip_type (get_key annotation_ip a))
    ∷ (label_subnet, get_key annotation_subnet a)
    ∷ []

unfoldable pub is_enabled : Labels → Bool
unfolding get_ip_type
is_enabled a =
    not (is_empty (get_ip_type (get_key annotation_ip a)))
    && not (is_empty (get_key annotation_subnet a))

-- Whether some of the labels is to be set.
unfoldable pub needs_labels : Labels → Labels → Bool
needs_labels [] own = false
needs_labels ((k, v) ∷ labels) own = not (eq_bytes (get_key k own) v) || needs_labels labels own

-- The labels that differ are set.
unfoldable pub put_labels : Labels → Labels → Labels
put_labels [] own = own
put_labels ((k, v) ∷ labels) own =
    put_labels labels (if eq_bytes (get_key k own) v then own else set_key k v own)

unfoldable pub is_workload : Kind → Bool
is_workload no_workload = false
is_workload _ = true

-- The loop over the addresses of an annotation.
unfoldable pub reserve_ranges : List Ip → List IpRange → List IpRange
reserve_ranges [] ranges = ranges
reserve_ranges (ip ∷ ips) ranges = reserve_ranges ips (add_ip_to_range ip ranges)

unfoldable pub reserve : Bytes → List Ip → Reserved → Reserved
unfolding reserve_ranges
reserve key ips m = set_key key (reserve_ranges ips []) m

unfoldable pub same_reserved : Reserved → Reserved → Bool
unfolding same_map
same_reserved = same_map same_ranges

unfoldable pub key_of : WorkloadObject → Bytes
key_of w =
    get_workload_reserved_ip_key (record { kind = w.kind; namespace = w.namespace; name = w.name })

module _ (c : Cluster) where
  unfoldable pub get_template_flat_network_label : WorkloadObject → M (Result (Bool × Labels))
  unfolding is_enabled
  get_template_flat_network_label w =
      let a = get_template_annotations w in
      if not (is_enabled a) then pure (ok (false, ip_labels a)) else (do
        r ← subnet_cache_get c (get_key annotation_subnet a)
        then_or_err r
            (λ s. pure (ok (true, set_key label_flat_mode s.spec.flat_mode (ip_labels a)))))

  unfoldable pub update_workload_label : WorkloadObject → Labels → M (Result WorkloadObject)
  unfolding is_workload needs_labels
  update_workload_label w labels =
      if not (is_workload w.kind) || not (needs_labels labels w.labels)
      then pure (ok w)
      else let new : WorkloadObject = record w { labels = put_labels labels w.labels } in
        perform (update_workload new) (λ h. c.workload_updated h new)

  -- The status of the subnet takes up the reservations, unless they are the same.
  unfoldable pub write_reserved : (Reserved → Reserved) → Bytes → M (Result (Unit {0}))
  write_reserved edit subnet_name = do
    r ← subnet_cache_get c subnet_name
    then_or_err r (λ s.
        let m = edit s.status.reserved_ip in
        if same_reserved s.status.reserved_ip m then pure (ok tt) else (do
          q ← subnet_update_status c (record s { status = record (s.status) { reserved_ip = m } })
          then_or_err q (λ s'. pure (ok tt))))

  -- The read of the subnet alone, where the workload has no key.
  unfoldable pub read_subnet : Bytes → M (Result (Unit {0}))
  read_subnet subnet_name = do r ← subnet_cache_get c subnet_name; then_or_err r (λ s. pure (ok tt))

  -- The annotations of a workload that asks for addresses of a subnet, and what is done then.
  unfoldable pub with_addresses :
      WorkloadObject → (List Ip → M (Result (Unit {0}))) → M (Option Error)
  with_addresses w body =
      let a = get_template_annotations w in
      elim (check_pod_annotation_ips (get_key annotation_ip a)) [
        | err e ↦ pure (some e)
        | ok ips ↦
            if is_empty ips || is_empty (get_key annotation_subnet a)
            then pure none
            else (do r ← c.retry_on_conflict (Unit {0}) (body ips); pure (error_of r))
      ]

  unfoldable pub remove_workload_reserved_ip : WorkloadObject → M (Option Error)
  unfolding with_addresses key_of
  remove_workload_reserved_ip w =
      let subnet_name = get_key annotation_subnet (get_template_annotations w) in
      with_addresses w (λ ips.
        if is_empty (key_of w)
        then read_subnet subnet_name
        else write_reserved (delete_key (key_of w)) subnet_name)

  unfoldable pub sync_workload_reserved_ip : WorkloadObject → M (Option Error)
  unfolding with_addresses key_of
  sync_workload_reserved_ip w =
      let subnet_name = get_key annotation_subnet (get_template_annotations w) in
      with_addresses w (λ ips.
        if is_empty (key_of w)
        then read_subnet subnet_name
        else write_reserved (reserve (key_of w) ips) subnet_name)

  -- The labels are written, and then the reservation.
  unfoldable pub sync_enabled : WorkloadObject → Labels → M Handled
  sync_enabled w labels = do
    r ← update_workload_label w labels
    elim r [
      | err e ↦ pure (w, some e)
      | ok o ↦ do
        e ← sync_workload_reserved_ip w
        elim e [ some e' ↦ pure (w, some e') | none ↦ pure (o, none) ]
    ]

  unfoldable pub sync_workload : WorkloadObject → M Handled
  sync_workload w =
      if is_empty w.name
      then pure (w, none)
      else if is_deleting w.deletion_timestamp
      then (do e ← remove_workload_reserved_ip w; pure (w, e))
      else (do
        r ← get_template_flat_network_label w
        elim r [
          | err e ↦ pure (w, some e)
          | ok (enabled, labels) ↦ if enabled then sync_enabled w labels else pure (w, none)
        ])
