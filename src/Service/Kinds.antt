-- ===== src/Service/Kinds.antt =====
-- The kinds of services: isIngressService of pkg/controller/service/utils.go, and IsMacvlanV1Service and
-- IsFlatNetworkService of pkg/utils/utils.go. The key of the annotation that Multus reads is a
-- constant of its client library, and a parameter here.
use rancher_flat_network.Prelude.{
  ◌-◌, Bool, false, not, ◌&&◌, ◌||◌, List, [], ◌∷◌, if◌then◌else◌, is_empty, length, leb, take,
  drop,
}
use rancher_flat_network.Net.{Bytes, eq_bytes}
use rancher_flat_network.Types.{codes, get_key, OwnerReference}
use rancher_flat_network.Objects.{Service}
use rancher_flat_network.Common.Annotation.{lower}

abbrev pub flat_network_service_name_suffix : Bytes
flat_network_service_name_suffix = codes "-flat-network"

abbrev pub net_attach_def_name : Bytes
net_attach_def_name = codes "rancher-flat-network"

abbrev pub v1_net_attach_def_name : Bytes
v1_net_attach_def_name = codes "static-macvlan-cni-attach"

abbrev pub cluster_ip_none : Bytes
cluster_ip_none = codes "None"

-- strings.HasPrefix, strings.HasSuffix and strings.TrimSuffix, the text last
unfoldable pub has_prefix : Bytes → Bytes → Bool
has_prefix p s = leb (length p) (length s) && eq_bytes (take (length p) s) p

unfoldable pub has_suffix : Bytes → Bytes → Bool
has_suffix p s = leb (length p) (length s) && eq_bytes (drop (length s - length p) s) p

unfoldable pub trim_suffix : Bytes → Bytes → Bytes
unfolding has_suffix
trim_suffix p s = if has_suffix p s then take (length s - length p) s else s

unfoldable pub owned_by_ingress : List OwnerReference → Bool
owned_by_ingress [] = false
owned_by_ingress (o ∷ os) = eq_bytes (lower o.kind) (codes "ingress") || owned_by_ingress os

unfoldable pub is_ingress_service : Service → Bool
unfolding has_prefix owned_by_ingress
is_ingress_service svc =
    not (is_empty svc.name)
    && has_prefix (codes "ingress-") svc.name
    && owned_by_ingress svc.owner_references

-- The first of ClusterIPs, or else ClusterIP, is "None".
unfoldable pub is_headless : List Bytes → Bytes → Bool
is_headless [] ip = eq_bytes ip cluster_ip_none
is_headless (first ∷ ips) ip = eq_bytes first cluster_ip_none

module _ (network_attachment_annot : Bytes) where
  unfoldable pub is_macvlan_v1_service : Service → Bool
  unfolding has_suffix is_headless
  is_macvlan_v1_service svc =
      has_suffix (codes "-macvlan") svc.name
      && eq_bytes svc.spec.service_type (codes "ClusterIP")
      && is_headless svc.spec.cluster_ips svc.spec.cluster_ip
      && eq_bytes (get_key network_attachment_annot svc.annotations) v1_net_attach_def_name

  unfoldable pub is_flat_network_service : Service → Bool
  unfolding has_suffix is_headless
  is_flat_network_service svc =
      has_suffix flat_network_service_name_suffix svc.name
      && eq_bytes svc.spec.service_type (codes "ClusterIP")
      && is_headless svc.spec.cluster_ips svc.spec.cluster_ip
      && eq_bytes (get_key network_attachment_annot svc.annotations) net_attach_def_name
