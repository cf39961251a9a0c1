-- ===== src/Webhook/Workload.antt =====
-- pkg/admission/webhook/workload.go. The decoded request is a record; the answers of the API server
-- are arguments. An admitted request is `ok tt`.
use rancher_flat_network.Prelude.{
  ℕ, suc, zero, ◌+◌, Bool, false, not, ◌&&◌, ◌||◌, List, [], ◌∷◌, ◌++◌, Option, if◌then◌else◌,
  is_empty, length, ◌==◌, take, drop,
}
use rancher_flat_network.Net.{Bytes, Ip, IpNet, eq_bytes, ip_equal}
use rancher_flat_network.Types.{
  annotation_ip, annotation_mac, annotation_subnet, label_flat_network_ip_type, label_subnet,
  label_workload_selector, IpRange, FlatNetworkIp, FlatNetworkSubnet, Labels, get_key,
  OwnerReference, Result, ok, err, ◌>>=◌, ◌>>◌, codes, duplicated, not_available, reserved, in_use,
  invalid_mac, diverges,
}
use rancher_flat_network.Slices.{sort, binary_search}
use rancher_flat_network.Ipcalc.{ip_in_ranges, ip_in_network, is_available_ip, remove_ip_from_range}
use rancher_flat_network.Ipcalc.Conflict.{parse_or_err}
use rancher_flat_network.Common.Annotation.{
  lower, Kind, cron_job, job, no_workload, get_workload_kind, check_pod_annotation_ips,
  check_pod_annotation_macs, get_workload_reserved_ip_key,
}
use rancher_flat_network.FlatNetworkSubnet.Used.{ip_text, is_deleting}

pub record WorkloadReview : Type 0 where
  pub kind : Kind
  pub name : Bytes
  pub namespace : Bytes
  pub deletion_timestamp : Option ℕ
  pub labels : Labels
  pub owner_references : List OwnerReference
  pub template_annotations : Labels

unfoldable pub pod_template_annotations : WorkloadReview → Bytes → Bytes
pod_template_annotations w key = elim w.kind [
  | no_workload ↦ []
  | _ ↦ get_key key w.template_annotations
]

unfoldable pub any_text : Bytes → List Bytes → Bool
any_text t [] = false
any_text t (x ∷ xs) = eq_bytes x t || any_text t xs

-- The loop of checkIPDuplicate over the texts seen so far.
unfoldable pub ips_distinct : List Bytes → List Ip → Result (Unit {0})
ips_distinct seen [] = ok tt
ips_distinct seen (v ∷ vs) =
    let rest = ips_distinct (ip_text v ∷ seen) vs in
    if any_text (ip_text v) seen then err duplicated else rest

unfoldable pub check_ip_duplicate : List Ip → Result (Unit {0})
check_ip_duplicate ips = ips_distinct [] ips

unfoldable pub macs_distinct : List Bytes → List Bytes → Result (Unit {0})
macs_distinct seen [] = ok tt
macs_distinct seen (m ∷ ms) =
    let rest = macs_distinct (m ∷ seen) ms in if any_text m seen then err duplicated else rest

unfoldable pub check_mac_duplicate : List Bytes → Result (Unit {0})
check_mac_duplicate macs = macs_distinct [] macs

-- The test of one address in checkIPsInSubnet.
unfoldable pub ip_in_subnet : Ip → IpNet → Ip → Result (Unit {0})
ip_in_subnet gateway network ip =
    if ip_equal ip gateway
    then err not_available
    else if not (ip_in_network ip network)
    then err not_available
    else if is_available_ip ip network
    then ok tt
    else err not_available

unfoldable pub ips_in_subnet : Ip → IpNet → List Ip → Result (Unit {0})
ips_in_subnet gateway network [] = ok tt
ips_in_subnet gateway network (ip ∷ ips) = do
  ip_in_subnet gateway network ip
  ips_in_subnet gateway network ips

unfoldable pub check_ips_in_subnet : List Ip → FlatNetworkSubnet → Result (Unit {0})
check_ips_in_subnet ips subnet =
    if is_empty ips
    then ok tt
    else parse_or_err subnet.spec.cidr >>= λ p. ips_in_subnet subnet.spec.gateway p.1 ips

unfoldable pub validate_annotation_ip : WorkloadReview → FlatNetworkSubnet → Result (Unit {0})
validate_annotation_ip w subnet = do
  ips ← check_pod_annotation_ips (pod_template_annotations w annotation_ip)
  check_ip_duplicate ips
  check_ips_in_subnet ips subnet

unfoldable pub validate_annotation_mac : WorkloadReview → Result (Unit {0})
validate_annotation_mac w = do
  ips ← check_pod_annotation_ips (pod_template_annotations w annotation_ip)
  macs ← check_pod_annotation_macs (pod_template_annotations w annotation_mac)
  if is_empty macs
      then ok tt
      else if not (is_empty ips) && not (length macs == length ips)
      then err invalid_mac
      else check_mac_duplicate macs

-- Whether another workload has reserved the address.
unfoldable pub reserved_by_other : Bytes → Ip → List (Bytes × List IpRange) → Bool
reserved_by_other key ip [] = false
reserved_by_other key ip ((k, ranges) ∷ m) =
    not (eq_bytes k key) && ip_in_ranges ip ranges || reserved_by_other key ip m

unfoldable pub none_reserved : Bytes → List (Bytes × List IpRange) → List Ip → Result (Unit {0})
none_reserved key m [] = ok tt
none_reserved key m (ip ∷ ips) =
    let rest = none_reserved key m ips in if reserved_by_other key ip m then err reserved else rest

-- A Job that a CronJob has made is not checked.
unfoldable pub is_owned_job : WorkloadReview → Bool
is_owned_job w = elim w.kind [ job ↦ not (is_empty w.owner_references) | _ ↦ false ]

unfoldable pub validate_ips_in_reserved : WorkloadReview → FlatNetworkSubnet → Result (Unit {0})
validate_ips_in_reserved w subnet = do
  ips ← check_pod_annotation_ips (pod_template_annotations w annotation_ip)
  if is_empty ips || is_owned_job w || is_empty subnet.status.reserved_ip
      then ok tt
      else none_reserved
          (get_workload_reserved_ip_key
            (record { kind = w.kind; namespace = w.namespace; name = w.name }))
          subnet.status.reserved_ip ips

-- The used ranges less the addresses of the workload's own pods.
unfoldable pub used_by_others : List FlatNetworkIp → List IpRange → List IpRange
used_by_others [] used = used
used_by_others (ip ∷ ips) used =
    used_by_others ips
      (if is_empty ip.status.addr then used else remove_ip_from_range ip.status.addr used)

unfoldable pub none_used : List IpRange → List Ip → Result (Unit {0})
none_used used [] = ok tt
none_used used (ip ∷ ips) =
    let rest = none_used used ips in if ip_in_ranges ip used then err in_use else rest

unfoldable pub validate_ips_in_used :
    WorkloadReview → FlatNetworkSubnet → List FlatNetworkIp → Result (Unit {0})
validate_ips_in_used w subnet flat_ips = do
  ips ← check_pod_annotation_ips (pod_template_annotations w annotation_ip)
  none_used (used_by_others flat_ips subnet.status.used_ip) ips

-- `append(usedMAC[:index], usedMAC[index+1:]...)` at the place that the search gives.
unfoldable pub remove_found : Bytes → List Bytes → List Bytes
remove_found m used =
    let (i, there) = binary_search used m in
    if there then take i used ++ drop (i + 1) used else used

unfoldable pub macs_by_others : List FlatNetworkIp → List Bytes → List Bytes
macs_by_others [] used = used
macs_by_others (ip ∷ ips) used =
    macs_by_others ips (if is_empty ip.status.mac then used else remove_found ip.status.mac used)

unfoldable pub no_mac_used : List Bytes → List Bytes → Result (Unit {0})
no_mac_used used [] = ok tt
no_mac_used used (m ∷ ms) =
    let rest = no_mac_used used ms in if (binary_search used m).1 then err in_use else rest

unfoldable pub validate_macs_in_used :
    WorkloadReview → FlatNetworkSubnet → List FlatNetworkIp → Result (Unit {0})
validate_macs_in_used w subnet flat_ips = do
  macs ← check_pod_annotation_macs (pod_template_annotations w annotation_mac)
  no_mac_used (macs_by_others flat_ips (sort subnet.status.used_mac)) macs

-- The label selector of the workload's FlatNetworkIPs.
unfoldable pub workload_selector : WorkloadReview → Bytes
unfolding lower
workload_selector w =
    let rest = lower (get_workload_kind w.kind) ++ b'-' ∷ w.namespace ++ b'-' ∷ w.name in
    elim w.kind [
      | no_workload ↦ []
      | cron_job ↦ label_workload_selector ++ b'=' ∷ rest
      | job ↦ label_workload_selector ++ b'=' ∷ rest
      | _ ↦ label_workload_selector ++ b'=' ∷ codes "apps." ++ rest
    ]

-- The loop over the pages of a list; a page comes with the token of the next one. The server decides
-- how many there are, so the loop takes fuel.
unfoldable pub list_pages {ℓ} :
    {A : Type ℓ} → ℕ → (Bytes → Result (List A × Bytes)) → Bytes → Result (List A)
list_pages zero page token = err diverges
list_pages (suc fuel) page token = do
  (items, next) ← page token
  if is_empty next then ok items else list_pages fuel page next >>= λ rest. ok (items ++ rest)

-- Whether an update changes the labels that the operator sets; `old` is the stored workload's labels.
unfoldable pub is_updating_workload_subnet_label : WorkloadReview → Result Labels → Bool
is_updating_workload_subnet_label w (err e) = false
is_updating_workload_subnet_label w (ok old) = elim w.kind [
  | no_workload ↦ false
  | _ ↦
      not (
        eq_bytes (get_key label_flat_network_ip_type old)
          (get_key label_flat_network_ip_type w.labels))
      || not (eq_bytes (get_key label_subnet old) (get_key label_subnet w.labels))
]

-- What is admitted without a look at the subnet.
unfoldable pub is_exempt : WorkloadReview → Result Labels → Bool
is_exempt w old =
    is_empty w.name
    || is_deleting w.deletion_timestamp
    || (is_empty (pod_template_annotations w (codes "k8s.v1.cni.cncf.io/networks"))
        && is_empty (pod_template_annotations w (codes "v1.multus-cni.io/default-network")))
    || is_empty (pod_template_annotations w annotation_subnet)
    || is_updating_workload_subnet_label w old

unfoldable pub validate_workload :
    WorkloadReview
    → Result Labels
    → Result FlatNetworkSubnet
    → Result (List FlatNetworkIp)
    → Result (Unit {0})
validate_workload w old subnet_answer ips_answer = if is_exempt w old then ok tt else (do
  subnet ← subnet_answer
  validate_annotation_ip w subnet
  validate_annotation_mac w
  validate_ips_in_reserved w subnet
  flat_ips ← ips_answer
  validate_ips_in_used w subnet flat_ips
  validate_macs_in_used w subnet flat_ips)
