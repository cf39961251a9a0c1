-- ===== src/Types.antt =====
-- pkg/apis/flatnetwork.pandaria.io/v1/types.go: the custom resources, and the errors of the code
-- that handles them. A string is the list of its bytes; a time is a number of seconds; a Go map is
-- an association list, whose reads give "" on a missing key.
use rancher_flat_network.Prelude.{ℕ, ℤ, Option, List, [], ◌∷◌, if◌then◌else◌, Bool}
use rancher_flat_network.Net.{Bytes, Ip, eq_bytes}
use Prim.Native.Char.{code}
use Prim.Native.String.{String}

-- The bytes of an ASCII text.
abbrev pub codes : String → Bytes
codes String.[] = []
codes (String.◌∷◌ c s) = code c ∷ codes s

abbrev pub subnet_namespace : Bytes
subnet_namespace = codes "cattle-flat-network"

abbrev pub annotation_ip : Bytes
annotation_ip = codes "flatnetwork.pandaria.io/ip"

abbrev pub annotation_subnet : Bytes
annotation_subnet = codes "flatnetwork.pandaria.io/subnet"

abbrev pub annotation_mac : Bytes
annotation_mac = codes "flatnetwork.pandaria.io/mac"

abbrev pub annotation_ingress : Bytes
annotation_ingress = codes "flatnetwork.pandaria.io/ingress"

abbrev pub annotation_flat_network_service : Bytes
annotation_flat_network_service = codes "flatnetwork.pandaria.io/flatNetworkService"

abbrev pub annotations_ipv6to4 : Bytes
annotations_ipv6to4 = codes "flatnetwork.pandaria.io/ipv6to4"

abbrev pub label_selected_ip : Bytes
label_selected_ip = codes "flatnetwork.pandaria.io/selectedIP"

abbrev pub label_subnet : Bytes
label_subnet = codes "flatnetwork.pandaria.io/subnet"

abbrev pub label_flat_mode : Bytes
label_flat_mode = codes "flatnetwork.pandaria.io/flatMode"

abbrev pub label_flat_network_ip_type : Bytes
label_flat_network_ip_type = codes "flatnetwork.pandaria.io/flatNetworkIPType"

abbrev pub label_selected_mac : Bytes
label_selected_mac = codes "flatnetwork.pandaria.io/selectedMac"

abbrev pub label_workload_selector : Bytes
label_workload_selector = codes "workload.user.cattle.io/workloadselector"

abbrev pub label_project_id : Bytes
label_project_id = codes "field.cattle.io/projectId"

abbrev pub allocate_mode_auto : Bytes
allocate_mode_auto = codes "auto"

abbrev pub allocate_mode_specific : Bytes
allocate_mode_specific = codes "specific"

abbrev pub Labels : Type 0
Labels = List (Bytes × Bytes)

-- `m[k]`
unfoldable pub get_key : Bytes → Labels → Bytes
get_key k [] = []
get_key k ((j, v) ∷ m) = if eq_bytes j k then v else get_key k m

-- `m[k] = v`
unfoldable pub set_key {ℓ} : {A : Type ℓ} → Bytes → A → List (Bytes × A) → List (Bytes × A)
set_key k v [] = (k, v) ∷ []
set_key k v ((j, w) ∷ m) = if eq_bytes j k then (k, v) ∷ m else (j, w) ∷ set_key k v m

-- What `errors.Is`, `IsNotFound`, `IsConflict` and `IsAlreadyExists` tell apart; `fmt.Errorf` with
-- `%w` keeps the kind.
pub data Error : Type 0 where
  no_available_ip no_available_mac network_conflict ip_ranges_conflict : Error
  not_found conflict already_exists : Error
  invalid_ip invalid_mac invalid_cidr invalid_range invalid_route invalid_gateway : Error
  invalid_mode invalid_flat_mode duplicated not_available reserved in_use : Error
  invalid_namespace pod_remove_timeout diverges pod_network_status_not_updated link_not_found
        no_such_process ip_not_allocated other :
      Error

-- What a Go function returns as a value and an error: the value if the error is nil.
pub data Result {ℓ} (A : Type ℓ) : Type ℓ where
  ok : A → Result A
  err : Error → Result A

-- `if err != nil { return err }` in front of the rest of a function.
module _ {ℓ κ} {A : Type ℓ} {B : Type κ} where
  infixl 5 ◌>>=◌
  abbrev pub ◌>>=◌ : Result A → (A → Result B) → Result B
  err failure >>= rest = err failure
  ok value >>= rest = rest value

module _ {ℓ} {B : Type ℓ} where
  infixl 5 ◌>>◌
  abbrev pub ◌>>◌ : Result (Unit {0}) → Result B → Result B
  check >> rest = check >>= λ nothing. rest

pub record IpRange : Type 0 where
  pub from : Ip
  pub to : Ip

pub record Route : Type 0 where
  pub dev : Bytes
  pub dst : Bytes
  pub src : Ip
  pub via : Ip
  pub priority : ℤ

pub record RouteSettings : Type 0 where
  pub add_cluster_cidr : Bool
  pub add_service_cidr : Bool
  pub add_node_cidr : Bool
  pub add_pod_ip_to_host : Bool
  pub flat_network_default_gateway : Bool

pub record SubnetSpec : Type 0 where
  pub flat_mode : Bytes
  pub master : Bytes
  pub vlan : ℤ
  pub cidr : Bytes
  pub mode : Bytes
  pub ipvlan_flag : Bytes
  pub gateway : Ip
  pub ranges : List IpRange
  pub routes : List Route
  pub route_settings : RouteSettings

pub data Phase : Type 0 where
  init pending active failed : Phase
  unknown : Bytes → Phase

pub record SubnetStatus : Type 0 where
  pub phase : Phase
  pub failure_message : Bytes
  pub gateway : Ip
  pub reserved_ip : List (Bytes × List IpRange)
  pub used_ip : List IpRange
  pub used_ip_count : ℤ
  pub used_mac : List Bytes

pub record FlatNetworkSubnet : Type 0 where
  pub name : Bytes
  pub namespace : Bytes
  pub labels : Labels
  pub annotations : Labels
  pub deletion_timestamp : Option ℕ
  pub spec : SubnetSpec
  pub status : SubnetStatus

pub record OwnerReference : Type 0 where
  pub kind : Bytes
  pub name : Bytes
  pub uid : Bytes
  pub api_version : Bytes
  pub controller : Option Bool
  pub block_owner_deletion : Option Bool

pub record IpSpec : Type 0 where
  pub subnet : Bytes
  pub addrs : List Ip
  pub macs : List Bytes
  pub pod_id : Bytes

pub record IpStatus : Type 0 where
  pub phase : Phase
  pub failure_message : Bytes
  pub allocated_time_stamp : ℕ
  pub addr : Ip
  pub mac : Bytes

pub record FlatNetworkIp : Type 0 where
  pub name : Bytes
  pub namespace : Bytes
  pub labels : Labels
  pub annotations : Labels
  pub owner_references : List OwnerReference
  pub deletion_timestamp : Option ℕ
  pub spec : IpSpec
  pub status : IpStatus
