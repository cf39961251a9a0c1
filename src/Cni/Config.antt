-- ===== src/Cni/Config.antt =====
-- mergeIPAMConfig and get6to4CIDR of pkg/cni/commands/common.go, and the configuration of pkg/cni/types. JSON
-- is a parameter.
use rancher_flat_network.Prelude.{
  ℕ, ◌+◌, ◌-◌, ◌/◌, ◌%◌, ◌==◌, Bool, true, not, ◌&&◌, ◌||◌, List, [], ◌∷◌, ◌++◌, Option, none, some,
  if◌then◌else◌, is_empty, ltb, ℤ, pos,
}
use rancher_flat_network.Net.{Bytes, Ip, IpNet, eq_bytes, to4}
use rancher_flat_network.Net.Parse.{parse_cidr}
use rancher_flat_network.Types.{
  Route, FlatNetworkIp, FlatNetworkSubnet, get_key, annotations_ipv6to4, Result, ok, err,
  invalid_cidr, codes, ◌>>=◌,
}
use rancher_flat_network.Common.Annotation.{hex_text}
use rancher_flat_network.FlatNetworkSubnet.Handlers.{int_text}
use rancher_flat_network.Cni.Addresses.{pod_iface_eth0}

pub record Address : Type 0 where
  pub address : Bytes
  pub gateway : Ip

-- A route of the CNI's own types.
pub record IpamRoute : Type 0 where
  pub dst : IpNet
  pub gw : Ip

pub record IpamConfig : Type 0 where
  pub ipam_type : Bytes
  pub addresses : List Address
  pub routes : List IpamRoute

pub record FlatNetworkConfig : Type 0 where
  pub mtu : ℤ
  pub cluster_cidr : Bytes
  pub service_cidr : Bytes
  pub arp_policy : Bytes
  pub proxy_arp : Bool

-- Of NetConf, what the commands read.
pub record NetConf : Type 0 where
  pub cni_version : Bytes
  pub raw_prev_result : Option Bytes
  pub ipam : IpamConfig
  pub flat_network_config : FlatNetworkConfig

-- The ones that a byte of a mask begins with, if it is ones and then zeros.
unfoldable pub byte_ones : ℕ → Option ℕ
byte_ones x =
    if x == 0
    then some 0
    else if x == 128
    then some 1
    else if x == 192
    then some 2
    else if x == 224
    then some 3
    else if x == 240
    then some 4
    else if x == 248
    then some 5
    else if x == 252
    then some 6
    else if x == 254
    then some 7
    else if x == 255
    then some 8
    else none

unfoldable pub all_zero : Bytes → Bool
all_zero [] = true
all_zero (x ∷ xs) = x == 0 && all_zero xs

unfoldable pub mask_ones : Bytes → Option ℕ
unfolding byte_ones all_zero
mask_ones [] = some 0
mask_ones (x ∷ xs) =
    let rest = mask_ones xs in
    if x == 255
    then elim rest [ none ↦ none | some n ↦ some (8 + n) ]
    else if all_zero xs
    then byte_ones x
    else none

-- IPMask.Size, the first result: 0 for a mask that is not ones and then zeros.
unfoldable pub mask_size : Bytes → ℕ
unfolding mask_ones
mask_size m = elim (mask_ones m) [ none ↦ 0 | some n ↦ n ]

-- fmt.Sprintf("%02x", v) for a byte
unfoldable pub hex2 : ℕ → Bytes
unfolding hex_text
hex2 x = hex_text (x / 16) ∷ hex_text (x % 16) ∷ []

unfoldable pub six_to_four : Bytes → ℕ → Bytes
unfolding hex2
six_to_four (a ∷ b ∷ c ∷ d ∷ []) size =
    codes "2002:"
    ++ hex2 a
    ++ hex2 b
    ++ b':' ∷ (hex2 c ++ hex2 d)
    ++ codes ":0:0:0:0:0/"
    ++ int_text (pos (48 - (32 - size)))
six_to_four ip size = []

unfoldable pub get_6to4_cidr : Ip → ℕ → Bytes
unfolding to4 six_to_four
get_6to4_cidr ip size =
    if is_empty (to4 ip) || size == 0 || ltb 32 size then [] else six_to_four (to4 ip) size

-- The loop over the routes of the subnet.
unfoldable pub ipam_routes : List Route → Result (List IpamRoute)
ipam_routes [] = ok []
ipam_routes (r ∷ rs) =
    let rest = ipam_routes rs in
    if not (is_empty r.dev) && eq_bytes r.dev pod_iface_eth0
    then rest
    else elim (parse_cidr r.dst) [
      | none ↦ err invalid_cidr
      | some (ip, network) ↦ do more ← rest; ok (record { dst = network; gw = r.via } ∷ more)
    ]

module _ (ip_string : Ip → Bytes) where
  unfoldable pub ipam_addresses : FlatNetworkIp → FlatNetworkSubnet → IpNet → List Address
  unfolding mask_size get_6to4_cidr
  ipam_addresses ip subnet network =
      let size = mask_size network.net_mask in
      let first : Address = record {
        address = ip_string ip.status.addr ++ b'/' ∷ int_text (pos size);
        gateway = subnet.spec.gateway;
      } in
      let sixtofour = get_6to4_cidr ip.status.addr size in
      if is_empty (get_key annotations_ipv6to4 ip.annotations) || is_empty sixtofour
      then first ∷ []
      else first ∷ record { address = sixtofour; gateway = [] } ∷ []

  -- mergeIPAMConfig before its result is written as JSON
  unfoldable pub merge_ipam_config :
      Bytes → NetConf → FlatNetworkIp → FlatNetworkSubnet → Result NetConf
  unfolding ipam_addresses ipam_routes
  merge_ipam_config if_name conf ip subnet = elim (parse_cidr subnet.spec.cidr) [
    | none ↦ err invalid_cidr
    | some (_, network) ↦
        let addresses = ipam_addresses ip subnet network in
        if is_empty subnet.spec.routes || eq_bytes if_name pod_iface_eth0
        then ok (record conf { ipam = record (conf.ipam) { addresses = addresses } })
        else (do
          routes ← ipam_routes subnet.spec.routes
          ok (record conf { ipam = record (conf.ipam) { addresses = addresses; routes = routes } }))
  ]
