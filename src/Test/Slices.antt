-- ===== src/Test/Slices.antt =====
-- The handlers of endpoints and endpoint slices on a server that answers simply.
use rancher_flat_network.Prelude.{◌≡◌, refl, Bool, true, false, [], ◌∷◌, none, some, All}
use rancher_flat_network.Net.{compare_bytes}
use rancher_flat_network.Types.{get_key, codes, ok}
use rancher_flat_network.Endpoints.Server
use rancher_flat_network.Endpoints.Server.{Endpoints, EndpointSlice, Server, ◌>>=◌, then_or_err}
use rancher_flat_network.Endpoints.Sync.{label_service_name}
use rancher_flat_network.Endpoints.SyncSlice.{sync_endpoint_slice}
use rancher_flat_network.Endpoints.Kept.{IsSound, sync_endpoint_slice-IsSound}
use rancher_flat_network.Test.Controllers.{pod}
use rancher_flat_network.Test.Endpoints.{library, attached}

abbrev slice : EndpointSlice
slice = record {
  name = codes "web-1";
  namespace = codes "default";
  labels = some ((label_service_name, codes "web") ∷ []);
  deletion_timestamp = none;
  address_type = codes "IPv4";
  endpoints = [];
  ports = [];
}

abbrev endpoints : Endpoints
endpoints = record {
  name = codes "web";
  namespace = codes "default";
  labels = [];
  owner_references = [];
  deletion_timestamp = none;
  subsets = [];
}

-- Nothing is written yet, and every write goes well.
abbrev server : Server
server = record {
  library = library;
  support_discovery_v1 = true;
  service_at = λ h ns n. ok attached;
  pods_at = λ h ns l. ok (
      record pod { annotations = (codes "k8s.v1.cni.cncf.io/network-status", codes "up") ∷ [] }
      ∷ []);
  endpoints_at = λ h ns n. ok endpoints;
  endpoints_updated = λ h e. ok e;
  slice_at = λ h ns n. ok slice;
  slices_at = λ h ns l. ok (slice ∷ []);
  slice_updated = λ h s. ok s;
  retry_on_conflict = λ A f. f;
  sort_slice = λ A less xs. xs;
  subsets_derive = λ a b. false;
  endpoints_derive = λ a b. false;
  ports_derive = λ a b. false;
}

-- Whether the last call writes a slice.
abbrev is_write : Server.History → Bool
is_write (Server.update_slice s ∷ h) = true
is_write _ = false

slice_written : is_write (sync_endpoint_slice server (some slice) []).1 ≡ true
unfolding sync_endpoint_slice ◌>>=◌ then_or_err compare_bytes get_key
slice_written = refl

sync_endpoint_slice-IsSound_example : All IsSound (sync_endpoint_slice server (some slice) []).1
sync_endpoint_slice-IsSound_example =
    sync_endpoint_slice-IsSound server (λ f p. p) (some slice) [] tt
