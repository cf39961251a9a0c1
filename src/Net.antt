-- ===== src/Net.antt =====
-- The parts of Go's `bytes` and `net` packages that the program computes with, on byte lists. A
-- `nil` slice and an empty one are both `[]`.
pub mod Value
pub mod Parse
use rancher_flat_network.Prelude.{
  ℕ, suc, zero, ◌+◌, ◌%◌, ◌*◌, ◌<◌, ◌≡◌, Bool, true, false, ◌&&◌, ◌||◌, List, [], ◌∷◌, ◌++◌,
  compare, Ordering, if◌then◌else◌, ◌==◌, ltb, length, take, drop, is_empty, All,
}
use Prim.Native.Nat.{bit_and}

abbrev pub Bytes : Type 0
Bytes = List ℕ

abbrev pub IsBytes : Bytes → Type 0
IsBytes = All (λ x. x < 256)

-- bytes.Compare
unfoldable pub compare_bytes : Bytes → Bytes → Ordering
compare_bytes [] [] = Ordering.eq
compare_bytes [] (y ∷ ys) = Ordering.lt
compare_bytes (x ∷ xs) [] = Ordering.gt
compare_bytes (x ∷ xs) (y ∷ ys) = elim (compare x y) [
  | Ordering.lt ↦ Ordering.lt
  | Ordering.eq ↦ compare_bytes xs ys
  | Ordering.gt ↦ Ordering.gt
]

abbrev pub le_bytes : Bytes → Bytes → Bool
le_bytes a b = elim (compare_bytes a b) [ Ordering.gt ↦ false | _ ↦ true ]

abbrev pub lt_bytes : Bytes → Bytes → Bool
lt_bytes a b = elim (compare_bytes a b) [ Ordering.lt ↦ true | _ ↦ false ]

-- bytes.Equal, and `==` on strings
abbrev pub eq_bytes : Bytes → Bytes → Bool
eq_bytes a b = elim (compare_bytes a b) [ Ordering.eq ↦ true | _ ↦ false ]

abbrev pub Ip : Type 0
Ip = Bytes

abbrev pub v4_in_v6_prefix : Bytes
v4_in_v6_prefix = 0 ∷ 0 ∷ 0 ∷ 0 ∷ 0 ∷ 0 ∷ 0 ∷ 0 ∷ 0 ∷ 0 ∷ 255 ∷ 255 ∷ []

-- IP.To4
unfoldable pub to4 : Ip → Ip
to4 ip =
    if length ip == 4
    then ip
    else if length ip == 16 && eq_bytes (take 12 ip) v4_in_v6_prefix
    then drop 12 ip
    else []

-- IP.To16
unfoldable pub to16 : Ip → Ip
to16 ip = if length ip == 4 then v4_in_v6_prefix ++ ip else if length ip == 16 then ip else []

-- IP.Equal
unfoldable pub ip_equal : Ip → Ip → Bool
ip_equal ip x =
    if length ip == length x
    then eq_bytes ip x
    else if length ip == 4 && length x == 16
    then eq_bytes (take 12 x) v4_in_v6_prefix && eq_bytes ip (drop 12 x)
    else if length ip == 16 && length x == 4
    then eq_bytes (take 12 ip) v4_in_v6_prefix && eq_bytes (drop 12 ip) x
    else false

-- Byte by byte, as long as both last.
unfoldable pub and_bytes : Bytes → Bytes → Bytes
and_bytes (x ∷ xs) (m ∷ ms) = bit_and x m ∷ and_bytes xs ms
and_bytes _ _ = []

all_ff : Bytes → Bool
all_ff [] = true
all_ff (x ∷ xs) = x == 255 && all_ff xs

and_mask : Ip → Bytes → Ip
and_mask ip m = if length ip == length m then and_bytes ip m else []

-- IP.Mask
unfoldable pub mask : Ip → Bytes → Ip
unfolding all_ff and_mask
mask ip m =
    and_mask
      (if length m == 4 && length ip == 16 && eq_bytes (take 12 ip) v4_in_v6_prefix
        then drop 12 ip
        else ip)
      (if length m == 16 && length ip == 4 && all_ff (take 12 m) then drop 12 m else m)

pub record IpNet : Type 0 where
  pub ip : Ip
  pub net_mask : Bytes

-- networkNumberAndMask
unfoldable pub network_number_and_mask : IpNet → Ip × Bytes
unfolding to4
network_number_and_mask n =
    let ip = if is_empty (to4 n.ip) then n.ip else to4 n.ip in
    if is_empty (to4 n.ip) && (if length n.ip == 16 then false else true)
    then ([], [])
    else if length n.net_mask == 4
    then (if length ip == 4 then (ip, n.net_mask) else ([], []))
    else if length n.net_mask == 16
    then (ip, if length ip == 4 then drop 12 n.net_mask else n.net_mask)
    else ([], [])

-- IPNet.Contains
unfoldable pub net_contains : IpNet → Ip → Bool
unfolding network_number_and_mask to4 and_bytes
net_contains n ip =
    let (nn, m) = network_number_and_mask n in
    let x = if is_empty (to4 ip) then ip else to4 ip in
    length x == length nn && eq_bytes (and_bytes nn m) (and_bytes x m)
