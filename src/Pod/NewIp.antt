-- ===== src/Pod/NewIp.antt =====
-- utils.go and workload.go of pkg/controller/pod: the FlatNetworkIP that a pod asks for, its owner and
-- its labels.
use rancher_flat_network.Prelude.{
  Bool, true, false, not, ◌&&◌, List, [], ◌∷◌, ◌++◌, Option, none, some, if◌then◌else◌, is_empty,
}
use rancher_flat_network.Net.{Bytes, Ip, eq_bytes}
use rancher_flat_network.Types.{
  FlatNetworkIp, FlatNetworkSubnet, IpSpec, OwnerReference, get_key, set_key, codes, init, other,
  Result, ok, err, annotation_ip, annotation_mac, annotation_subnet, annotations_ipv6to4,
  label_flat_network_ip_type, label_project_id, label_workload_selector, allocate_mode_auto,
  allocate_mode_specific,
}
use rancher_flat_network.Maps.{same_map}
use rancher_flat_network.Objects.{
  ObjectMeta, ObjectKind, of_daemon_set, of_deployment, of_replica_set, of_stateful_set, of_job,
  of_namespace,
}
use rancher_flat_network.Cluster.{Cluster, Pod, M, ◌>>=◌, pure, perform, then_or_err, get_object}
use rancher_flat_network.Common.Annotation.{
  check_pod_annotation_ips, check_pod_annotation_macs, lower,
}
use rancher_flat_network.FlatNetworkIp.Handlers.{subnet_cache_get}

-- The addresses that the annotation asks for.
unfoldable pub asked_addrs : Pod → Result (List Ip)
asked_addrs pod =
    if eq_bytes (get_key annotation_ip pod.annotations) allocate_mode_auto
    then ok []
    else check_pod_annotation_ips (get_key annotation_ip pod.annotations)

unfoldable pub ip_type : Pod → Bytes
ip_type pod =
    if eq_bytes (get_key annotation_ip pod.annotations) allocate_mode_auto
    then allocate_mode_auto
    else allocate_mode_specific

-- The literal of newFlatNetworkIP.
unfoldable pub ip_for : Pod → FlatNetworkSubnet → List Ip → List Bytes → FlatNetworkIp
unfolding ip_type
ip_for pod subnet addrs macs = record {
  name = pod.name;
  namespace = pod.namespace;
  labels = (codes "subnet", subnet.name) ∷ (label_flat_network_ip_type, ip_type pod) ∷ [];
  annotations =
      if is_empty (get_key annotations_ipv6to4 subnet.annotations)
      then []
      else (annotations_ipv6to4, codes "true") ∷ [];
  owner_references =
      record {
        kind = codes "Pod";
        name = pod.name;
        uid = pod.uid;
        api_version = codes "v1";
        controller = some true;
        block_owner_deletion = none;
      }
      ∷ [];
  deletion_timestamp = none;
  spec = record { subnet = subnet.name; addrs = addrs; macs = macs; pod_id = pod.uid };
  status = record {
    phase = init;
    failure_message = [];
    allocated_time_stamp = 0;
    addr = [];
    mac = [];
  };
}

unfoldable pub same_option_bool : Option Bool → Option Bool → Bool
same_option_bool none none = true
same_option_bool (some true) (some true) = true
same_option_bool (some false) (some false) = true
same_option_bool _ _ = false

unfoldable pub same_owner : OwnerReference → OwnerReference → Bool
unfolding same_option_bool
same_owner a b =
    eq_bytes a.kind b.kind
    && eq_bytes a.name b.name
    && eq_bytes a.uid b.uid
    && eq_bytes a.api_version b.api_version
    && same_option_bool a.controller b.controller
    && same_option_bool a.block_owner_deletion b.block_owner_deletion

unfoldable pub same_list {ℓ} : {A : Type ℓ} → (A → A → Bool) → List A → List A → Bool
same_list same [] [] = true
same_list same [] (y ∷ ys) = false
same_list same (x ∷ xs) [] = false
same_list same (x ∷ xs) (y ∷ ys) = same x y && same_list same xs ys

unfoldable pub same_spec : IpSpec → IpSpec → Bool
unfolding same_list
same_spec a b =
    eq_bytes a.subnet b.subnet
    && same_list eq_bytes a.addrs b.addrs
    && same_list eq_bytes a.macs b.macs
    && eq_bytes a.pod_id b.pod_id

-- flatNetworkIPUpdated of two resources
unfoldable pub flat_network_ip_updated : FlatNetworkIp → FlatNetworkIp → Bool
unfolding same_owner same_list same_map same_spec
flat_network_ip_updated a b =
    eq_bytes a.name b.name
    && eq_bytes a.namespace b.namespace
    && same_list same_owner a.owner_references b.owner_references
    && same_map eq_bytes a.labels b.labels
    && same_map eq_bytes a.annotations b.annotations
    && same_spec a.spec b.spec

-- What findOwnerWorkload finds.
pub record Owner : Type 0 where
  pub name : Bytes
  pub kind : Bytes
  pub uid : Bytes

unfoldable pub set_owner : Owner → FlatNetworkIp → FlatNetworkIp
set_owner o ip =
    if eq_bytes o.kind (codes "StatefulSet")
    then record ip {
      owner_references =
          record {
            kind = codes "StatefulSet";
            name = o.name;
            uid = o.uid;
            api_version = codes "v1";
            controller = some true;
            block_owner_deletion = none;
          }
          ∷ [];
    }
    else ip

-- The first CronJob among the owners of a Job, as the text of a selector.
unfoldable pub cron_job_text : Bytes → List OwnerReference → Option Bytes
cron_job_text ns [] = none
cron_job_text ns (o ∷ os) =
    if eq_bytes o.kind (codes "CronJob")
    then some (codes "cronjob-" ++ ns ++ b'-' ∷ o.name)
    else cron_job_text ns os

module _ (c : Cluster) where
  unfoldable pub object_get : ObjectKind → Bytes → Bytes → M (Result ObjectMeta)
  object_get k ns name = perform (get_object k ns name) (λ h. c.object_at h k ns name)

  unfoldable pub new_flat_network_ip : Pod → M (Result FlatNetworkIp)
  unfolding asked_addrs ip_for
  new_flat_network_ip pod = elim (asked_addrs pod) [
    | err e ↦ pure (err e)
    | ok addrs ↦ elim (check_pod_annotation_macs (get_key annotation_mac pod.annotations)) [
      | err e ↦ pure (err e)
      | ok macs ↦ do
        r ← subnet_cache_get c (get_key annotation_subnet pod.annotations)
        then_or_err r (λ s. pure (ok (ip_for pod s addrs macs)))
    ]
  ]

  unfoldable pub get_apps_v1_object : Bytes → Bytes → Bytes → M (Result ObjectMeta)
  unfolding object_get
  get_apps_v1_object kind ns name =
      if eq_bytes (lower kind) (codes "daemonset")
      then object_get of_daemon_set ns name
      else if eq_bytes (lower kind) (codes "deployment")
      then object_get of_deployment ns name
      else if eq_bytes (lower kind) (codes "replicaset")
      then object_get of_replica_set ns name
      else if eq_bytes (lower kind) (codes "statefulset")
      then object_get of_stateful_set ns name
      else pure (err other)

  -- The owner of a ReplicaSet. Its kind is reported as the name of the Deployment.
  unfoldable pub owner_of_replica_set : Bytes → List OwnerReference → M (Result Owner)
  unfolding get_apps_v1_object
  owner_of_replica_set ns [] = pure (err other)
  owner_of_replica_set ns (o ∷ os) =
      if not (eq_bytes o.kind (codes "Deployment")) then pure (err other) else (do
        r ← get_apps_v1_object (codes "Deployment") ns o.name
        then_or_err r (λ d. pure (ok (record { name = d.name; kind = o.name; uid = d.uid }))))

  -- The loop returns in its first round.
  unfoldable pub find_owner_workload : Pod → M (Result Owner)
  unfolding object_get get_apps_v1_object owner_of_replica_set
  find_owner_workload pod = elim pod.owner_references [
    | [] ↦ pure (err other)
    | owner ∷ owners ↦
        if eq_bytes owner.kind (codes "ReplicaSet")
        then (do
          r ← object_get of_replica_set pod.namespace owner.name
          then_or_err r (λ rs. owner_of_replica_set pod.namespace rs.owner_references))
        else (do
          r ← get_apps_v1_object owner.kind pod.namespace owner.name
          then_or_err r (λ o. pure (ok (record { name = o.name; kind = owner.kind; uid = o.uid }))))
  ]

  unfoldable pub set_if_stateful_set_owner_ref : FlatNetworkIp → Pod → M FlatNetworkIp
  unfolding set_owner find_owner_workload
  set_if_stateful_set_owner_ref ip pod = do
    r ← find_owner_workload pod
    elim r [ err e ↦ pure ip | ok o ↦ pure (set_owner o ip) ]

  -- The loop over the owners of the pod: the selector that it finds, if any.
  unfoldable pub selector_of_owners : Bytes → List OwnerReference → M (Option Bytes)
  unfolding object_get cron_job_text
  selector_of_owners ns [] = pure none
  selector_of_owners ns (o ∷ os) =
      let rest = selector_of_owners ns os in
      if not (eq_bytes o.kind (codes "Job")) then rest else (do
        r ← object_get of_job ns o.name
        elim r [
          | err e ↦ pure none
          | ok j ↦
              if is_empty j.owner_references
              then pure (some (codes "job-" ++ ns ++ b'-' ∷ j.name))
              else elim (cron_job_text ns j.owner_references) [
                | some t ↦ pure (some t)
                | none ↦ rest
              ]
        ])

  unfoldable pub set_workload_and_project_label : FlatNetworkIp → Pod → M FlatNetworkIp
  unfolding object_get selector_of_owners
  set_workload_and_project_label ip pod = do
    r ← object_get of_namespace [] pod.namespace
    elim r [
      | err e ↦ pure ip
      | ok ns ↦
          let selector = get_key label_workload_selector pod.labels in
          let labels =
            set_key label_workload_selector selector
              (set_key label_project_id (get_key label_project_id ns.labels) ip.labels) in
          if not (is_empty selector) then pure (record ip { labels = labels }) else (do
            found ← selector_of_owners pod.namespace pod.owner_references
            elim found [
              | none ↦ pure (record ip { labels = labels })
              | some t ↦ pure (record ip { labels = set_key label_workload_selector t labels })
            ])
    ]
