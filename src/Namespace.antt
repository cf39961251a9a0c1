-- ===== src/Namespace.antt =====
-- pkg/controller/namespace: the network attachment that each namespace gets, logging left out. The
-- environment is a parameter.
use rancher_flat_network.Prelude.{
  ℕ, ◌≡◌, refl, Bool, true, false, not, ◌&&◌, ◌||◌, List, [], ◌∷◌, ◌++◌, Option, none, some,
  if◌then◌else◌, is_empty,
}
use rancher_flat_network.Net.{Bytes, eq_bytes}
use rancher_flat_network.Slices.Order.{eq_bytes_refl}
use rancher_flat_network.Types.{codes, Error, Result, ok, err}
use rancher_flat_network.Objects.{NetworkAttachmentDefinition}
use rancher_flat_network.Cluster.{
  Cluster, M, ◌>>=◌, ◌>>◌, pure, perform, note, is_not_found, get_network_attachment,
  create_network_attachment, update_network_attachment, enqueue_namespace, History, returned,
}
use rancher_flat_network.FlatNetworkSubnet.Used.{is_deleting}

pub record NamespaceObject : Type 0 where
  pub name : Bytes
  pub uid : Bytes
  pub deletion_timestamp : Option ℕ

abbrev pub net_attach_def_name : Bytes
net_attach_def_name = codes "rancher-flat-network"

-- os.Getenv
abbrev pub Environment : Type 0
Environment = Bytes → Bytes

any_of : Bytes → List Bytes → Bool
any_of t [] = false
any_of t (x ∷ xs) = eq_bytes t x || any_of t xs

-- strconv.ParseBool, where a text that it does not know is false
unfoldable pub parse_bool : Bytes → Bool
unfolding any_of
parse_bool t =
    any_of t (codes "1" ∷ codes "t" ∷ codes "T" ∷ codes "TRUE" ∷ codes "true" ∷ codes "True" ∷ [])

module _ (getenv : Environment) where
  unfoldable pub get_arp_policy : Bytes
  get_arp_policy =
      let policy = getenv (codes "FLAT_NETWORK_CNI_ARP_POLICY") in
      if not (eq_bytes policy (codes "arp_notify")) && not (eq_bytes policy (codes "arping"))
      then codes "arp_notify"
      else policy

  unfoldable pub get_proxy_arp : Bytes
  unfolding parse_bool
  get_proxy_arp =
      if parse_bool (getenv (codes "FLAT_NETWORK_CNI_PROXY_ARP"))
      then codes "true"
      else codes "false"

  unfoldable pub get_cluster_cidr : Bytes
  get_cluster_cidr =
      let cidr = getenv (codes "FLAT_NETWORK_CLUSTER_CIDR") in
      if is_empty cidr then codes "10.42.0.0/16" else cidr

  unfoldable pub get_service_cidr : Bytes
  get_service_cidr =
      let cidr = getenv (codes "FLAT_NETWORK_SERVICE_CIDR") in
      if is_empty cidr then codes "10.43.0.0/16" else cidr

  unfoldable pub get_net_attach_def_config : Bytes
  unfolding get_arp_policy get_proxy_arp get_cluster_cidr get_service_cidr
  get_net_attach_def_config =
      codes "{\n    \"cniVersion\": \"1.0.0\",\n    \"type\": \"rancher-flat-network-cni\",\n"
      ++ codes "    \"dns\": {},\n    \"ipam\": {\n        \"type\": \"static-ipam\"\n    },\n"
      ++ codes "    \"flatNetwork\": {\n        \"mtu\": 1500,\n        \"clusterCIDR\": \""
      ++ get_cluster_cidr
      ++ codes "\",\n        \"serviceCIDR\": \""
      ++ get_service_cidr
      ++ codes "\",\n        \"arpPolicy\": \""
      ++ get_arp_policy
      ++ codes "\",\n        \"proxyARP\": "
      ++ get_proxy_arp
      ++ codes "\n    }\n}"

  unfoldable pub new_network_attachment_definition :
      Bytes → NamespaceObject → NetworkAttachmentDefinition
  unfolding get_net_attach_def_config
  new_network_attachment_definition name ns = record {
    name = name;
    namespace = ns.name;
    owner_references =
        record {
          kind = codes "Namespace";
          name = ns.name;
          uid = ns.uid;
          api_version = codes "v1";
          controller = some true;
          block_owner_deletion = none;
        }
        ∷ [];
    config = get_net_attach_def_config;
  }

  module _ (c : Cluster) where
    -- The write, and then the request to look again.
    unfoldable pub written :
        NamespaceObject → Result NetworkAttachmentDefinition → M (NamespaceObject × Option Error)
    written ns (err e) = pure (ns, some e)
    written ns (ok d) = do note (enqueue_namespace ns.name); pure (ns, none)

    unfoldable pub ensure_network_attachment :
        NamespaceObject → NetworkAttachmentDefinition → M (NamespaceObject × Option Error)
    unfolding written
    ensure_network_attachment ns expected = do
      r ←
          perform (get_network_attachment ns.name net_attach_def_name)
            (λ h. c.network_attachment_at h ns.name net_attach_def_name)
      elim r [
        | err e ↦
            if is_not_found e
            then (do
              q ←
                  perform (create_network_attachment expected)
                    (λ h. c.network_attachment_created h expected)
              written ns q)
            else pure (ns, some e)
        | ok d ↦
            if eq_bytes expected.config d.config
            then (do note (enqueue_namespace ns.name); pure (ns, none))
            else (do
              let new : NetworkAttachmentDefinition = record d {
                config = expected.config;
                owner_references = expected.owner_references;
              }
              q ← perform (update_network_attachment new) (λ h. c.network_attachment_updated h new)
              written ns q)
      ]

    unfoldable pub sync_namespace : NamespaceObject → M (NamespaceObject × Option Error)
    unfolding ensure_network_attachment new_network_attachment_definition
    sync_namespace ns =
        if is_empty ns.name || is_deleting ns.deletion_timestamp
        then pure (ns, none)
        else ensure_network_attachment ns (new_network_attachment_definition net_attach_def_name ns)

    -- With an attachment of the expected configuration in place, a namespace that has a name and is
    -- not being deleted costs one read and the request to look again.
    pub sync_namespace-again :
        (ns : NamespaceObject) (d : NetworkAttachmentDefinition) (h : History)
        → is_empty ns.name ≡ false
        → is_deleting ns.deletion_timestamp ≡ false
        → c.network_attachment_at h ns.name net_attach_def_name ≡ ok d
        → d.config ≡ get_net_attach_def_config
        → sync_namespace ns h ≡ (
          returned (ns, none),
          enqueue_namespace ns.name ∷ get_network_attachment ns.name net_attach_def_name ∷ h,
        )
    unfolding sync_namespace ensure_network_attachment new_network_attachment_definition
    sync_namespace-again ns d h named alive read same =
        let equal = eq_bytes_refl get_net_attach_def_config in
        rw named (rw alive (rw read (rw same (rw equal refl))))
