-- ===== src/Endpoints/Kept.antt =====
-- Proofs about pkg/controller/endpointslice: which slices are written.
use rancher_flat_network.Prelude.{
  ◌≡◌, refl, sym, Bool, true, false, List, [], ◌∷◌, Option, none, some, All, if◌then◌else◌,
  Bool-cases, inl, inr,
}
use rancher_flat_network.Net.{Bytes, eq_bytes}
use rancher_flat_network.Types.{Labels, Result, ok, err}
use rancher_flat_network.Objects.{Service}
use rancher_flat_network.Cluster.{Outcome, returned, panicked}
use rancher_flat_network.Slices.Order.{eq_of_eq_bytes}
use rancher_flat_network.Endpoints.Resources.{
  Endpoint, SlicePort, EndpointResource, AddressType, get_endpoint_slice_address_type,
}
use rancher_flat_network.Endpoints.Server
use rancher_flat_network.Endpoints.Server.{
  EndpointSlice, Call, History, M, ◌>>=◌, pure, then_or_err, Server, continue,
}
use rancher_flat_network.Endpoints.Sync.{with_resource, is_not_updated, label_service_name}
use rancher_flat_network.Endpoints.SyncSlice.{
  address_type_text, target_name, sort_by, managed, write_typed, write_slice, sort_and_write,
  slice_attempt, update_slices, sync_discovery_v1_endpoint_slice, get_available_endpoint_slices,
  sync_slice_of, sync_labelled, sync_endpoint_slice,
}

-- What is true of a slice that is written: its type is that of its addresses.
unfoldable pub IsTyped : EndpointSlice → Type 0
unfolding address_type_text
IsTyped s =
    (t : AddressType) × (get_endpoint_slice_address_type
        (record { subsets = []; endpoints = s.endpoints; endpoint_ports = s.ports })
      ≡ ok t)
    × (s.address_type ≡ address_type_text t)

unfoldable pub IsSound : Call → Type 0
unfolding IsTyped
IsSound (Server.update_slice s) = IsTyped s
IsSound _ = Unit

unfoldable Keeps {ℓ} : {A : Type ℓ} → (History → A × History) → Type 0
unfolding IsSound
Keeps m = (h : History) → All IsSound h → All IsSound (m h).1

>>=-Keeps :
    {A B : Type 0} (m : M A) (f : A → M B) → Keeps m → ((a : A) → Keeps (f a)) → Keeps (m >>= f)
unfolding Keeps ◌>>=◌
>>=-Keeps m f p q h s = at (m h).0
  where
    at : (o : Outcome _) → All IsSound (continue o f (m h).1).1
    at (returned a) = q a (m h).1 (p h s)
    at panicked = p h s

then_or_err-Keeps :
    {A B : Type 0} (r : Result A) (f : A → M (Result B))
    → ((a : A) → Keeps (f a))
    → Keeps (then_or_err r f)
unfolding Keeps then_or_err
then_or_err-Keeps (ok a) f p h s = p a h s
then_or_err-Keeps (err e) f p h s = s

if-Keeps : {A : Type 0} (b : Bool) (m n : M A) → Keeps m → Keeps n → Keeps (if b then m else n)
unfolding Keeps
if-Keeps true m n p q = p
if-Keeps false m n p q = q

unchanged_either :
    {A : Type 0} (b : Bool) (x y : Outcome A) (h : History)
    → All IsSound h
    → let res : Outcome A × History = if b then (x, h) else (y, h) in All IsSound res.1
unchanged_either true x y h s = s
unchanged_either false x y h s = s

pure-Keeps : {A : Type 0} (a : A) → Keeps (pure a)
unfolding Keeps
pure-Keeps a h s = s

module _ (c : Server) where
  sort_by-Keeps : {A : Type 0} (name : A → Option Bytes) (xs : List A) → Keeps (sort_by c name xs)
  unfolding Keeps sort_by
  sort_by-Keeps name xs h s = unchanged_either _ _ _ h s

  write_typed-Keeps :
      (s : EndpointSlice) (labels : Labels) (endpoints : List Endpoint) (ports : List SlicePort)
      (r : Result AddressType)
      → r
        ≡ get_endpoint_slice_address_type
            (record { subsets = []; endpoints = endpoints; endpoint_ports = ports })
      → Keeps (write_typed c s labels endpoints ports r)
  unfolding Keeps write_typed IsTyped IsSound
  write_typed-Keeps s labels endpoints ports (err x) e h p = p
  write_typed-Keeps s labels endpoints ports (ok t) e h p =
      elim (Bool-cases (eq_bytes (address_type_text t) s.address_type)) [
        | inl same ↦ rw same ((t, sym e, sym (eq_of_eq_bytes _ _ same)), p)
        | inr differs ↦ rw differs p
      ]

  managed-Keeps : (labels : Option Labels) → Keeps (managed c labels)
  unfolding Keeps managed
  managed-Keeps none h s = s
  managed-Keeps (some l) h s = s

  sort_and_write-Keeps : (r : EndpointResource) (s : EndpointSlice) → Keeps (sort_and_write c r s)
  unfolding sort_and_write write_slice
  sort_and_write-Keeps r s = >>=-Keeps _ _ (sort_by-Keeps target_name s.endpoints) (λ old_endpoints.
      >>=-Keeps _ _ (sort_by-Keeps (λ p. p.name) s.ports) (λ old_ports.
        >>=-Keeps _ _ (sort_by-Keeps target_name r.endpoints) (λ endpoints.
          >>=-Keeps _ _ (sort_by-Keeps (λ p. p.name) r.endpoint_ports) (λ ports.
            if-Keeps _ _ _ (pure-Keeps (ok tt)) (
              >>=-Keeps _ _ (managed-Keeps s.labels)
                (λ labels. write_typed-Keeps s labels endpoints ports _ refl))))))

  perform-Keeps :
      {A : Type 0} (call : Call) (answer : History → A)
      → IsSound call
      → Keeps (Server.perform call answer)
  unfolding Keeps
  perform-Keeps call answer p h s = (p, s)

  slice_attempt-Keeps :
      (r : EndpointResource) (namespace name : Bytes) → Keeps (slice_attempt c r namespace name)
  unfolding slice_attempt IsSound
  slice_attempt-Keeps r namespace name =
      >>=-Keeps _ _ (perform-Keeps (Server.get_slice namespace name) _ tt)
        (λ g. then_or_err-Keeps _ _ (sort_and_write-Keeps r))

  module _
      (retried : (f : M (Result (Unit {0})))
        → Keeps f
        → Keeps (c.retry_on_conflict (Unit {0}) f)) where
    update_slices-Keeps :
        (r : EndpointResource) (ss : List EndpointSlice) → Keeps (update_slices c r ss)
    unfolding update_slices
    update_slices-Keeps r [] = pure-Keeps (ok tt)
    update_slices-Keeps r (s ∷ ss) =
        >>=-Keeps _ _ (retried _ (slice_attempt-Keeps r s.namespace s.name))
          (λ w. then_or_err-Keeps _ _ (λ done. update_slices-Keeps r ss))

    sync_discovery-Keeps :
        (svc : Service) (r : Option EndpointResource)
        → Keeps (sync_discovery_v1_endpoint_slice c svc r)
    unfolding sync_discovery_v1_endpoint_slice IsSound
    sync_discovery-Keeps svc none = pure-Keeps (ok tt)
    sync_discovery-Keeps svc (some r) =
        >>=-Keeps _ _
          (perform-Keeps (Server.list_slices svc.namespace ((label_service_name, svc.name) ∷ [])) _
            tt)
          (λ l.
            then_or_err-Keeps _ _
              (λ slices. update_slices-Keeps r (get_available_endpoint_slices slices)))

    with_resource-Keeps :
        (write : Option EndpointResource → M (Result (Unit {0}))) (again : M (Result (Unit {0})))
        (o : Outcome (Result (Option EndpointResource)))
        → ((r : Option EndpointResource) → Keeps (write r))
        → Keeps again
        → Keeps (with_resource c write again o)
    unfolding with_resource Keeps
    with_resource-Keeps write again panicked p q h s = s
    with_resource-Keeps write again (returned (ok r)) p q h s = p r h s
    with_resource-Keeps write again (returned (err e)) p q h s =
        elim (Bool-cases (is_not_updated e)) [ inl y ↦ rw y (q h s) | inr n ↦ rw n s ]

    sync_slice_of-Keeps : (s : EndpointSlice) (name : Bytes) → Keeps (sync_slice_of c s name)
    unfolding sync_slice_of IsSound
    sync_slice_of-Keeps s name =
        >>=-Keeps _ _ (perform-Keeps (Server.get_service s.namespace name) _ tt) (λ g.
          then_or_err-Keeps _ _ (λ svc.
            >>=-Keeps _ _ (perform-Keeps (Server.list_pods svc.namespace svc.spec.selector) _ tt)
              (λ p. then_or_err-Keeps _ _ (λ pods.
                with_resource-Keeps _ _ _ (sync_discovery-Keeps svc) (
                  perform-Keeps (Server.enqueue_slice_after s.namespace s.name) (λ h. ok tt) tt)))))

    sync_labelled-Keeps :
        (s : EndpointSlice) (labels : Option Labels) → Keeps (sync_labelled c s labels)
    unfolding sync_labelled
    sync_labelled-Keeps s none = pure-Keeps (ok tt)
    sync_labelled-Keeps s (some labels) =
        if-Keeps _ _ _ (pure-Keeps (ok tt)) (sync_slice_of-Keeps s _)

    sync-Keeps : (s : Option EndpointSlice) → Keeps (sync_endpoint_slice c s)
    unfolding sync_endpoint_slice
    sync-Keeps none = pure-Keeps (ok tt)
    sync-Keeps (some s) = if-Keeps _ _ _ (pure-Keeps (ok tt)) (sync_labelled-Keeps s s.labels)

-- Where RetryOnConflict makes no writes but those of its function, the handler of endpoint slices keeps it true
-- of all writes so far that a slice is written with the address type of its own addresses, as
-- GetEndpointSliceAddressType decides it.
pub sync_endpoint_slice-IsSound :
    (c : Server)
    → ((f : M (Result (Unit {0})))
        → ((h : History) → All IsSound h → All IsSound (f h).1)
        → (h : History) → All IsSound h
        → All IsSound (c.retry_on_conflict (Unit {0}) f h).1)
    → (s : Option EndpointSlice) (h : History) → All IsSound h
    → All IsSound (sync_endpoint_slice c s h).1
unfolding Keeps
sync_endpoint_slice-IsSound c retried = sync-Keeps c retried
