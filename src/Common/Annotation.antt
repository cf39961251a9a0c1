-- ===== src/Common/Annotation.antt =====
-- The checks of pod annotations in pkg/common/common.go, and the keys of reserved addresses. The
-- library calls are Go's: strings.Split at one byte, strings.TrimSpace on ASCII, net.ParseMAC.
use rancher_flat_network.Prelude.{
  ℕ, ◌+◌, ◌-◌, ◌*◌, ◌/◌, ◌%◌, Bool, false, not, ◌&&◌, ◌||◌, List, [], ◌∷◌, ◌++◌, Option, none, some,
  if◌then◌else◌, is_empty, ltb, leb, ◌==◌, length,
}
use mathlib.Core.List.{reverse}
use rancher_flat_network.Net.{Bytes, Ip, eq_bytes}
use rancher_flat_network.Net.Parse.{parse_ip, hex_digit}
use rancher_flat_network.Types.{
  allocate_mode_auto, Result, ok, err, codes, invalid_ip, invalid_mac, ◌>>=◌,
}

is_space : ℕ → Bool
is_space c = c == 32 || (leb 9 c && leb c 13)

trim_left : Bytes → Bytes
unfolding is_space
trim_left [] = []
trim_left (c ∷ s) = let rest = trim_left s in if is_space c then rest else c ∷ s

-- strings.TrimSpace
unfoldable pub trim_space : Bytes → Bytes
unfolding trim_left
trim_space s = reverse (trim_left (reverse (trim_left s)))

-- strings.Split: the parts between the separators, one more than there are separators.
cons_head : ℕ → List Bytes → List Bytes
cons_head c [] = (c ∷ []) ∷ []
cons_head c (p ∷ ps) = (c ∷ p) ∷ ps

unfoldable pub split : ℕ → Bytes → List Bytes
unfolding cons_head
split sep [] = [] ∷ []
split sep (c ∷ s) = let rest = split sep s in if c == sep then [] ∷ rest else cons_head c rest

-- strings.ToLower on ASCII
unfoldable pub lower : Bytes → Bytes
lower [] = []
lower (c ∷ s) = (if leb b'A' c && leb c b'Z' then c + 32 else c) ∷ lower s

unfoldable pub parse_ips : List Bytes → Result (List Ip)
parse_ips [] = ok []
parse_ips (v ∷ vs) =
    let rest = parse_ips vs in
    let ip = parse_ip v in if is_empty ip then err invalid_ip else (do ips ← rest; ok (ip ∷ ips))

unfoldable pub check_pod_annotation_ips : Bytes → Result (List Ip)
unfolding split trim_space parse_ips
check_pod_annotation_ips s =
    if is_empty s || eq_bytes s allocate_mode_auto
    then ok []
    else if not (is_empty (parse_ip s))
    then ok (parse_ip s ∷ [])
    else parse_ips (split b'-' (trim_space s))

-- Two hexadecimal digits and a colon, for `n` bytes more; the last byte has no colon behind it.
hex_byte : ℕ → ℕ → Option ℕ
unfolding hex_digit
hex_byte a b = elim (hex_digit a) [
  | none ↦ none
  | some x ↦ elim (hex_digit b) [ none ↦ none | some y ↦ some (x * 16 + y) ]
]

-- The text after the separator `sep`, byte by byte: xx:xx:… or xx-xx-…
colon_bytes : ℕ → Bytes → Option Bytes
unfolding hex_byte
colon_bytes sep (a ∷ b ∷ []) = elim (hex_byte a b) [ none ↦ none | some x ↦ some (x ∷ []) ]
colon_bytes sep (a ∷ b ∷ c ∷ s) =
    let rest = colon_bytes sep s in
    if c == sep
    then elim (hex_byte a b) [
      | none ↦ none
      | some x ↦ elim rest [ none ↦ none | some xs ↦ some (x ∷ xs) ]
    ]
    else none
colon_bytes sep s = none

-- Two bytes at a time: xxxx.xxxx.…
dot_bytes : Bytes → Option Bytes
unfolding hex_byte
dot_bytes (a ∷ b ∷ c ∷ d ∷ []) = elim (hex_byte a b) [
  | none ↦ none
  | some x ↦ elim (hex_byte c d) [ none ↦ none | some y ↦ some (x ∷ y ∷ []) ]
]
dot_bytes (a ∷ b ∷ c ∷ d ∷ e ∷ s) =
    let rest = dot_bytes s in
    if e == b'.'
    then elim (hex_byte a b) [
      | none ↦ none
      | some x ↦ elim (hex_byte c d) [
        | none ↦ none
        | some y ↦ elim rest [ none ↦ none | some xs ↦ some (x ∷ y ∷ xs) ]
      ]
    ]
    else none
dot_bytes s = none

is_mac_length : ℕ → Bool
is_mac_length n = n == 6 || n == 8 || n == 20

mac_of_length : Option Bytes → Option Bytes
unfolding is_mac_length
mac_of_length none = none
mac_of_length (some m) = if is_mac_length (length m) then some m else none

third_is : ℕ → Bytes → Bool
third_is k (a ∷ b ∷ c ∷ s) = c == k
third_is k s = false

-- net.ParseMAC: the separator is the third byte of the text, or the dot at the fifth.
unfoldable pub parse_mac : Bytes → Option Bytes
unfolding third_is colon_bytes dot_bytes mac_of_length
parse_mac s =
    if ltb (length s) 14
    then none
    else if third_is b':' s
    then mac_of_length (colon_bytes b':' s)
    else if third_is b'-' s
    then mac_of_length (colon_bytes b'-' s)
    else mac_of_length (dot_bytes s)

unfoldable pub hex_text : ℕ → ℕ
hex_text d = if ltb d 10 then d + b'0' else d - 10 + b'a'

-- HardwareAddr.String
unfoldable pub mac_string : Bytes → Bytes
unfolding hex_text
mac_string [] = []
mac_string (x ∷ []) = hex_text (x / 16) ∷ hex_text (x % 16) ∷ []
mac_string (x ∷ y ∷ s) = hex_text (x / 16) ∷ hex_text (x % 16) ∷ b':' ∷ mac_string (y ∷ s)

unfoldable pub parse_macs : List Bytes → Result (List Bytes)
parse_macs [] = ok []
parse_macs (v ∷ vs) =
    let rest = parse_macs vs in
    elim (parse_mac v) [ none ↦ err invalid_mac | some m ↦ do ms ← rest; ok (mac_string m ∷ ms) ]

unfoldable pub check_pod_annotation_macs : Bytes → Result (List Bytes)
unfolding split trim_space parse_macs
check_pod_annotation_macs s =
    if is_empty s || eq_bytes s allocate_mode_auto
    then ok []
    else parse_macs (split b'-' (trim_space s))

-- The kinds of objects that own pods, and anything else.
pub data Kind : Type 0 where
  deployment daemon_set stateful_set cron_job job no_workload : Kind

unfoldable pub get_workload_kind : Kind → Bytes
get_workload_kind deployment = codes "Deployment"
get_workload_kind daemon_set = codes "DaemonSet"
get_workload_kind stateful_set = codes "StatefulSet"
get_workload_kind cron_job = codes "CronJob"
get_workload_kind job = codes "Job"
get_workload_kind no_workload = []

pub record Workload : Type 0 where
  pub kind : Kind
  pub namespace : Bytes
  pub name : Bytes

unfoldable pub get_workload_reserved_ip_key : Workload → Bytes
unfolding get_workload_kind
get_workload_reserved_ip_key w =
    if is_empty (get_workload_kind w.kind)
    then []
    else get_workload_kind w.kind ++ b'/' ∷ w.namespace ++ b'/' ∷ w.name
