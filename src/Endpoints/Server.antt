-- ===== src/Endpoints/Server.antt =====
-- What the controllers of endpoints and endpoint slices call: the caches, the API server and the queues, which
-- answer by the history of calls, and the libraries.
use rancher_flat_network.Prelude.{ℕ, Bool, List, ◌∷◌, Option}
use rancher_flat_network.Net.{Bytes}
use rancher_flat_network.Types.{Labels, OwnerReference, Result, ok, err}
use rancher_flat_network.Objects.{Service}
use rancher_flat_network.Cluster.{Pod, Outcome, returned, panicked}
use rancher_flat_network.Endpoints.Resources.{EndpointSubset, Endpoint, SlicePort, Library}

-- corev1.Endpoints
pub record Endpoints : Type 0 where
  pub name : Bytes
  pub namespace : Bytes
  pub labels : Labels
  pub owner_references : List OwnerReference
  pub deletion_timestamp : Option ℕ
  pub subsets : List EndpointSubset

-- discoveryv1.EndpointSlice, with no labels for a nil map.
pub record EndpointSlice : Type 0 where
  pub name : Bytes
  pub namespace : Bytes
  pub labels : Option Labels
  pub deletion_timestamp : Option ℕ
  pub address_type : Bytes
  pub endpoints : List Endpoint
  pub ports : List SlicePort

pub data Call : Type 0 where
  get_service get_endpoints get_slice : Bytes → Bytes → Call
  list_pods list_slices : Bytes → Labels → Call
  update_endpoints : Endpoints → Call
  update_slice : EndpointSlice → Call
  enqueue_endpoints_after enqueue_slice_after enqueue_slice : Bytes → Bytes → Call

-- The last call first.
abbrev pub History : Type 0
History = List Call

abbrev pub M : Type 0 → Type 0
M A = History → Outcome A × History

module _ {A B : Type 0} where
  abbrev pub continue : Outcome A → (A → M B) → M B
  continue (returned a) f h = f a h
  continue panicked f h = (panicked, h)

  infixl 5 ◌>>=◌ ◌>>◌
  unfoldable pub ◌>>=◌ : M A → (A → M B) → M B
  ◌>>=◌ m f h = let (r, h') = m h in continue r f h'

  abbrev pub ◌>>◌ : M A → M B → M B
  m >> k = m >>= λ _. k

  -- `if err != nil { return err }`
  unfoldable pub then_or_err : Result A → (A → M (Result B)) → M (Result B)
  then_or_err (ok a) f h = f a h
  then_or_err (err e) f h = (returned (err e), h)

abbrev pub pure : {A : Type 0} → A → M A
pure a h = (returned a, h)

abbrev pub perform : {A : Type 0} → Call → (History → A) → M A
perform call answer h = (returned (answer h), call ∷ h)

abbrev pub note : Call → M (Result (Unit {0}))
note call h = (returned (ok tt), call ∷ h)

pub record Server : Type 1 where
  pub library : Library
  -- Whether the server knows discovery.k8s.io/v1
  pub support_discovery_v1 : Bool
  pub service_at : History → Bytes → Bytes → Result Service
  pub pods_at : History → Bytes → Labels → Result (List Pod)
  pub endpoints_at : History → Bytes → Bytes → Result Endpoints
  pub endpoints_updated : History → Endpoints → Result Endpoints
  pub slice_at : History → Bytes → Bytes → Result EndpointSlice
  pub slices_at : History → Bytes → Labels → Result (List EndpointSlice)
  pub slice_updated : History → EndpointSlice → Result EndpointSlice
  -- retry.RetryOnConflict of client-go
  pub retry_on_conflict : (A : Type 0) → M (Result A) → M (Result A)
  -- sort.Slice by a `less` that does not panic
  pub sort_slice : (A : Type 0) → (A → A → Bool) → List A → List A
  -- Semantic.DeepDerivative of k8s.io
  pub subsets_derive : List EndpointSubset → List EndpointSubset → Bool
  pub endpoints_derive : List Endpoint → List Endpoint → Bool
  pub ports_derive : List SlicePort → List SlicePort → Bool
