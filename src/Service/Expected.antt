-- ===== src/Service/Expected.antt =====
-- newFlatNetworkService and flatNetworkServiceUpdated of pkg/controller/service/utils.go. The
-- functions of intstr are parameters; an int32 stands as its 32 bits.
use rancher_flat_network.Prelude.{
  ◌+◌, ◌%◌, ◌==◌, ℤ, add_one, Bool, ◌&&◌, [], ◌∷◌, ◌++◌, none, if◌then◌else◌, map,
}
use rancher_flat_network.Net.{Bytes, eq_bytes}
use rancher_flat_network.Types.{codes}
use rancher_flat_network.Maps.{same_map}
use rancher_flat_network.Objects.{Service, ServicePort, IntOrString, int_value, str_value}
use rancher_flat_network.Pod.NewIp.{same_owner, same_list}
use rancher_flat_network.Service.Kinds.{
  flat_network_service_name_suffix, net_attach_def_name, cluster_ip_none,
}

-- k8s.io/apimachinery/pkg/util/intstr
pub record IntStr : Type 0 where
  -- (*IntOrString).IntValue
  pub to_int : IntOrString → ℤ
  -- FromInt
  pub from_int : ℤ → IntOrString

module _ (i : IntStr) (network_attachment_annot : Bytes) where
  unfoldable pub flat_port : Bytes → ServicePort → ServicePort
  flat_port cluster_ip p =
      if eq_bytes cluster_ip cluster_ip_none
      then record p {
        node_port = 0;
        port = (p.port + 1) % 4294967296;
        target_port = i.from_int (add_one (i.to_int p.target_port));
      }
      else record p { node_port = 0 }

  unfoldable pub new_flat_network_service : Service → Service
  unfolding flat_port
  new_flat_network_service svc = record {
    name = svc.name ++ flat_network_service_name_suffix;
    namespace = svc.namespace;
    uid = [];
    annotations = (network_attachment_annot, net_attach_def_name) ∷ [];
    owner_references =
        svc.owner_references
        ++ record {
          kind = codes "Service";
          name = svc.name;
          uid = svc.uid;
          api_version = codes "v1";
          controller = none;
          block_owner_deletion = none;
        }
          ∷ [];
    creation_timestamp = 0;
    deletion_timestamp = none;
    spec = record {
      ports = map (flat_port svc.spec.cluster_ip) svc.spec.ports;
      selector = svc.spec.selector;
      cluster_ip = cluster_ip_none;
      cluster_ips = cluster_ip_none ∷ [];
      service_type = codes "ClusterIP";
    };
  }

unfoldable pub same_target : IntOrString → IntOrString → Bool
same_target (int_value a) (int_value b) = a == b
same_target (str_value a) (str_value b) = eq_bytes a b
same_target _ _ = Bool.false

unfoldable pub same_port : ServicePort → ServicePort → Bool
unfolding same_target
same_port a b =
    eq_bytes a.name b.name
    && eq_bytes a.protocol b.protocol
    && a.port == b.port
    && same_target a.target_port b.target_port
    && a.node_port == b.node_port

unfoldable pub flat_network_service_updated : Service → Service → Bool
unfolding same_owner same_list same_map same_port
flat_network_service_updated a b =
    eq_bytes a.name b.name
    && eq_bytes a.namespace b.namespace
    && same_list same_owner a.owner_references b.owner_references
    && same_map eq_bytes a.annotations b.annotations
    && same_list same_port a.spec.ports b.spec.ports
    && same_map eq_bytes a.spec.selector b.spec.selector
    && eq_bytes a.spec.cluster_ip b.spec.cluster_ip
    && same_list eq_bytes a.spec.cluster_ips b.spec.cluster_ips
    && eq_bytes a.spec.service_type b.spec.service_type
