-- ===== src/Cluster.antt =====
-- The API server, the informer caches and the queues as the controllers meet them. None of that code
-- is in the repository, so the answers are parameters: a cluster answers a call by the history of
-- all calls before it, which lets caches be stale and updates conflict in every possible way. A
-- controller is a function on histories; an error that is used where Go finds `nil` panics.
use rancher_flat_network.Prelude.{ℕ, ◌≡◌, Option, none, some, List, ◌∷◌, ◌++◌, Bool, true, false}
use rancher_flat_network.Net.{Ip, Bytes, IpNet}
use rancher_flat_network.Types.{
  FlatNetworkIp, FlatNetworkSubnet, Labels, OwnerReference, Error, not_found, already_exists,
  Result, ok, err,
}
use rancher_flat_network.Objects.{
  WorkloadObject, ObjectMeta, ObjectKind, Service, NetworkAttachmentDefinition,
}

-- What the code reads of a corev1.Pod.
pub record Pod : Type 0 where
  pub name : Bytes
  pub namespace : Bytes
  pub uid : Bytes
  pub resource_version : Bytes
  pub node_name : Bytes
  pub labels : Labels
  pub annotations : Labels
  pub owner_references : List OwnerReference
  pub deletion_timestamp : Option ℕ

pub data Call : Type 0 where
  get_pod get_ip get_subnet delete_pod delete_ip : Bytes → Bytes → Call
  list_subnets list_ips : Bytes → Labels → Call
  update_subnet update_subnet_status : FlatNetworkSubnet → Call
  create_ip update_ip update_ip_status : FlatNetworkIp → Call
  update_pod : Pod → Call
  update_workload : WorkloadObject → Call
  get_object : ObjectKind → Bytes → Bytes → Call
  get_service delete_service : Bytes → Bytes → Call
  create_service update_service : Service → Call
  list_pods : Bytes → Labels → Call
  get_network_attachment : Bytes → Bytes → Call
  create_network_attachment update_network_attachment : NetworkAttachmentDefinition → Call
  enqueue_namespace : Bytes → Call
  event : Error → Call
  enqueue_ip enqueue_subnet enqueue_pod enqueue_service enqueue_ingress : Bytes → Bytes → Call
  lock unlock is_allocating : Bytes → Call
  now sleep : Call

-- The last call first.
abbrev pub History : Type 0
History = List Call

pub data Outcome {ℓ} (A : Type ℓ) : Type ℓ where
  returned : A → Outcome A
  panicked : Outcome A

abbrev pub M : Type 0 → Type 0
M A = History → Outcome A × History

module _ {A B : Type 0} where
  abbrev pub continue : Outcome A → (A → M B) → M B
  continue (returned a) f h = f a h
  continue panicked f h = (panicked, h)

  infixl 5 ◌>>=◌ ◌>>◌
  abbrev pub ◌>>=◌ : M A → (A → M B) → M B
  ◌>>=◌ m f h = let (r, h') = m h in continue r f h'

  abbrev pub ◌>>◌ : M A → M B → M B
  m >> k = m >>= λ _. k

abbrev pub pure : {A : Type 0} → A → M A
pure a h = (returned a, h)

pub record Cluster : Type 1 where
  pub pod_at : History → Bytes → Bytes → Result Pod
  pub ip_at : History → Bytes → Bytes → Result FlatNetworkIp
  pub subnet_at : History → Bytes → Bytes → Result FlatNetworkSubnet
  pub subnets_at : History → Bytes → Labels → Result (List FlatNetworkSubnet)
  pub ips_at : History → Bytes → Labels → Result (List FlatNetworkIp)
  pub subnet_updated : History → FlatNetworkSubnet → Result FlatNetworkSubnet
  pub subnet_status_updated : History → FlatNetworkSubnet → Result FlatNetworkSubnet
  pub ip_created : History → FlatNetworkIp → Result FlatNetworkIp
  pub ip_updated : History → FlatNetworkIp → Result FlatNetworkIp
  pub ip_status_updated : History → FlatNetworkIp → Result FlatNetworkIp
  pub pod_updated : History → Pod → Result Pod
  pub pods_at : History → Bytes → Labels → Result (List Pod)
  pub object_at : History → ObjectKind → Bytes → Bytes → Result ObjectMeta
  pub workload_updated : History → WorkloadObject → Result WorkloadObject
  pub service_at : History → Bytes → Bytes → Result Service
  pub service_created : History → Service → Result Service
  pub service_updated : History → Service → Result Service
  pub service_deleted : History → Bytes → Bytes → Option Error
  pub network_attachment_at : History → Bytes → Bytes → Result NetworkAttachmentDefinition
  pub network_attachment_created :
      History → NetworkAttachmentDefinition → Result NetworkAttachmentDefinition
  pub network_attachment_updated :
      History → NetworkAttachmentDefinition → Result NetworkAttachmentDefinition
  pub pod_deleted : History → Bytes → Bytes → Option Error
  pub ip_deleted : History → Bytes → Bytes → Option Error
  pub allocating_at : History → Bytes → Bool
  pub time_at : History → ℕ
  -- net.IP.String and net.IPNet.String
  pub ip_string : Ip → Bytes
  pub network_string : IpNet → Bytes
  -- retry.RetryOnConflict of client-go
  pub retry_on_conflict : (A : Type 0) → M (Result A) → M (Result A)

-- What the controllers rely on of RetryOnConflict: its result is that of its function, run once more
-- after the calls so far and those of the attempts that met a conflict.
pub record Retries (c : Cluster) : Type 1 where
  pub last_attempt :
      (A : Type 0) (f : M (Result A)) (h : History)
      → (earlier : List Call) × (c.retry_on_conflict A f h ≡ f (earlier ++ h))

-- A call is noted in the history, and answered.
abbrev pub perform : {A : Type 0} → Call → (History → A) → M A
perform call answer h = (returned (answer h), call ∷ h)

abbrev pub note : Call → M (Unit {0})
note call h = (returned tt, call ∷ h)

-- recorder.Event with err.Error(): a nil error panics.
abbrev pub event_error : Option Error → M (Unit {0})
event_error (some e) h = (returned tt, event e ∷ h)
event_error none h = (panicked, h)

-- A critical section with `defer unlock()`, which runs after a panic too.
abbrev pub with_lock : {A : Type 0} → Bytes → M A → M A
with_lock subnet m h = let (r, h') = m (lock subnet ∷ h) in (r, unlock subnet ∷ h')

-- `defer f()` for a call that is only noted.
abbrev pub deferred : {A : Type 0} → Call → M A → M A
deferred call m h = let (r, h') = m h in (r, call ∷ h')

-- `if err != nil { return err }`
module _ {A B : Type 0} where
  abbrev pub then_or_err : Result A → (A → M (Result B)) → M (Result B)
  then_or_err (ok a) f = f a
  then_or_err (err e) f = pure (err e)

abbrev pub error_of {ℓ} : {A : Type ℓ} → Result A → Option Error
error_of (ok a) = none
error_of (err e) = some e

abbrev pub is_not_found : Error → Bool
is_not_found not_found = true
is_not_found _ = false

abbrev pub is_already_exists : Error → Bool
is_already_exists already_exists = true
is_already_exists _ = false
