-- ===== src/Objects.antt =====
-- What the code reads and writes of the resources that are not the operator's own: workloads,
-- services and network attachments.
use rancher_flat_network.Prelude.{ℕ, Option, List}
use rancher_flat_network.Net.{Bytes}
use rancher_flat_network.Types.{Labels, OwnerReference}
use rancher_flat_network.Common.Annotation.{Kind}

-- A workload that the controllers watch. The annotations are those of Spec.Template, and for a
-- CronJob also those of Spec.JobTemplate itself.
pub record WorkloadObject : Type 0 where
  pub kind : Kind
  pub name : Bytes
  pub namespace : Bytes
  pub labels : Labels
  pub deletion_timestamp : Option ℕ
  pub template_annotations : Labels
  pub job_template_annotations : Labels

-- The metadata of an object that is only read.
pub record ObjectMeta : Type 0 where
  pub name : Bytes
  pub uid : Bytes
  pub labels : Labels
  pub owner_references : List OwnerReference

pub data ObjectKind : Type 0 where
  of_daemon_set of_deployment of_replica_set of_stateful_set of_job of_namespace : ObjectKind

-- intstr.IntOrString; an int32 stands as its 32 bits.
pub data IntOrString : Type 0 where
  int_value : ℕ → IntOrString
  str_value : Bytes → IntOrString

pub record ServicePort : Type 0 where
  pub name : Bytes
  pub protocol : Bytes
  pub port : ℕ
  pub target_port : IntOrString
  pub node_port : ℕ

pub record ServiceSpec : Type 0 where
  pub ports : List ServicePort
  pub selector : Labels
  pub cluster_ip : Bytes
  pub cluster_ips : List Bytes
  pub service_type : Bytes

pub record Service : Type 0 where
  pub name : Bytes
  pub namespace : Bytes
  pub uid : Bytes
  pub annotations : Labels
  pub owner_references : List OwnerReference
  pub creation_timestamp : ℕ
  pub deletion_timestamp : Option ℕ
  pub spec : ServiceSpec

-- What is written of a NetworkAttachmentDefinition of Multus.
pub record NetworkAttachmentDefinition : Type 0 where
  pub name : Bytes
  pub namespace : Bytes
  pub owner_references : List OwnerReference
  pub config : Bytes
