-- ===== src/Service/Ingress.antt =====
-- ingress.go of pkg/controller/ingress, logging left out. A rule is the list of the services of its paths,
-- "" where a path has none, and it is empty where it has no HTTP paths.
use rancher_flat_network.Prelude.{
  ℕ, Bool, ◌||◌, List, [], ◌∷◌, ◌++◌, Option, none, some, if◌then◌else◌, is_empty,
}
use rancher_flat_network.Net.{Bytes, eq_bytes}
use rancher_flat_network.Types.{Labels, get_key, set_key, codes, Error, ok, err, annotation_ingress}
use rancher_flat_network.Maps.{delete_key}
use rancher_flat_network.Objects.{Service}
use rancher_flat_network.Cluster.{
  Cluster, M, ◌>>=◌, ◌>>◌, pure, note, is_not_found, error_of, enqueue_ingress,
}
use rancher_flat_network.FlatNetworkSubnet.Used.{is_deleting}
use rancher_flat_network.Service.Kinds.{is_macvlan_v1_service, is_flat_network_service}
use rancher_flat_network.Service.Handlers.{service_cache_get, service_update}

pub record IngressObject : Type 0 where
  pub name : Bytes
  pub namespace : Bytes
  pub annotations : Option Labels
  pub deletion_timestamp : Option ℕ
  pub rules : List (List Bytes)

unfoldable pub concat {ℓ} : {A : Type ℓ} → List (List A) → List A
concat [] = []
concat (xs ∷ xss) = xs ++ concat xss

abbrev pub rancher_flat_network_cni : Bytes
rancher_flat_network_cni = codes "rancher-flat-network-cni"

module _ (network_attachment_annot : Bytes) where
  unfoldable pub is_marked : Bool → Service → Bool
  is_marked enabled svc =
      if enabled
      then eq_bytes (get_key network_attachment_annot svc.annotations) rancher_flat_network_cni
      else is_empty (get_key network_attachment_annot svc.annotations)

  -- The service that is written.
  unfoldable pub mark : Bool → Service → Service
  mark enabled svc = record svc {
    annotations =
        if enabled
        then set_key network_attachment_annot rancher_flat_network_cni svc.annotations
        else delete_key network_attachment_annot svc.annotations;
  }

  module _ (c : Cluster) where
    unfoldable pub handle_ingress_service : Service → Bool → M (Option Error)
    unfolding is_marked mark
    handle_ingress_service svc enabled =
        if is_marked enabled svc
        then pure none
        else (do r ← service_update c (mark enabled svc); pure (error_of r))

    -- The rounds of both loops: none where they ran to their end, else the error that is returned.
    unfoldable pub sync_paths : IngressObject → Labels → List Bytes → M (Option Error)
    unfolding handle_ingress_service
    sync_paths ingress annotations [] = pure none
    sync_paths ingress annotations (name ∷ names) =
        let rest = sync_paths ingress annotations names in
        if is_empty name then rest else (do
          r ← service_cache_get c ingress.namespace name
          elim r [
            | err e ↦
                if is_not_found e
                then (do note (enqueue_ingress ingress.namespace ingress.name); pure none)
                else pure (some e)
            | ok svc ↦
                if is_flat_network_service network_attachment_annot svc
                  || is_macvlan_v1_service network_attachment_annot svc
                then rest
                else (do
                  e ←
                      handle_ingress_service svc
                        (eq_bytes (get_key annotation_ingress annotations) (codes "true"))
                  elim e [ none ↦ rest | some e' ↦ pure none ])
          ])

    unfoldable pub sync_ingress : IngressObject → M (IngressObject × Option Error)
    unfolding sync_paths concat
    sync_ingress ingress =
        if is_empty ingress.name || is_deleting ingress.deletion_timestamp || is_empty ingress.rules
        then pure (ingress, none)
        else elim ingress.annotations [
          | none ↦ pure (ingress, none)
          | some annotations ↦ do
            e ← sync_paths ingress annotations (concat ingress.rules)
            pure (ingress, e)
        ]
