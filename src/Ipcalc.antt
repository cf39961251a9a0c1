-- ===== src/Ipcalc.antt =====
-- pkg/ipcalc/ipcalc.go: addresses, ranges of addresses and the search for a free one.
pub mod Increase
pub mod Canonical
pub mod Add
pub mod Remove
pub mod Laws
pub mod Refinement
pub mod Search
pub mod Conflict
pub mod Disjoint
use rancher_flat_network.Prelude.{
  ℕ, suc, zero, ◌+◌, ◌-◌, ◌%◌, ◌≡◌, Bool, true, false, not, ◌&&◌, ◌||◌, List, [], ◌∷◌, ◌++◌, map,
  Ordering, Option, none, some, if◌then◌else◌, ◌==◌, is_empty,
}
use Prim.Native.Nat.{bit_xor}
use rancher_flat_network.Net.{
  Bytes, Ip, compare_bytes, le_bytes, eq_bytes, to4, to16, ip_equal, mask, IpNet, net_contains,
}
use rancher_flat_network.Types.{
  IpRange, Result, ok, err, network_conflict, ip_ranges_conflict, invalid_range, ◌>>=◌, ◌>>◌,
}

-- The loop of IPIncrease, from the last byte: whether it runs on past the front, and the address.
unfoldable pub increase_loop : Ip → Bool × Ip
increase_loop [] = (true, [])
increase_loop (x ∷ xs) =
    let (running, ys) = increase_loop xs in
    if running then ((x + 1) % 256 == 0, (x + 1) % 256 ∷ ys) else (false, x ∷ ys)

unfoldable pub ip_increase : Ip → Ip
unfolding increase_loop
ip_increase ip = (increase_loop ip).1

unfoldable pub decrease_loop : Ip → Bool × Ip
decrease_loop [] = (true, [])
decrease_loop (x ∷ xs) =
    let (running, ys) = decrease_loop xs in
    if running then ((x + 255) % 256 == 255, (x + 255) % 256 ∷ ys) else (false, x ∷ ys)

unfoldable pub ip_decrease : Ip → Ip
unfolding decrease_loop
ip_decrease ip = (decrease_loop ip).1

-- The test of one range, where its ends are not nil.
unfoldable pub in_range : Ip → IpRange → Bool
in_range a r =
    not (is_empty r.from || is_empty r.to) && le_bytes (to16 r.from) a && le_bytes a (to16 r.to)

unfoldable pub in_any_range : Ip → List IpRange → Bool
in_any_range a [] = false
in_any_range a (r ∷ rs) = in_range a r || in_any_range a rs

unfoldable pub ip_in_ranges : Ip → List IpRange → Bool
unfolding in_any_range
ip_in_ranges ip ranges = not (is_empty (to16 ip)) && in_any_range (to16 ip) ranges

-- slices.SortFunc by the first address: an insertion sort, as the library does on short slices.
unfoldable pub insert_range : IpRange → List IpRange → List IpRange
insert_range r [] = r ∷ []
insert_range r (s ∷ rs) = if le_bytes r.from s.from then r ∷ s ∷ rs else s ∷ insert_range r rs

unfoldable pub sort_ranges : List IpRange → List IpRange
unfolding insert_range
sort_ranges [] = []
sort_ranges (r ∷ rs) = insert_range r (sort_ranges rs)

-- The range that ends right below `s2` takes it in, and joins the next range if that begins right
-- behind.
unfoldable pub connect : Ip → IpRange → List IpRange → List IpRange
connect s2 r [] = record r { to = s2 } ∷ []
connect s2 r (next ∷ rs) =
    if ip_equal s2 (ip_decrease next.from)
    then record next { from = r.from } ∷ rs
    else record r { to = s2 } ∷ next ∷ rs

-- The loop of AddIPToRange: the ranges with a range extended, or nothing if `ip` borders on none.
unfoldable pub extend_range : Ip → List IpRange → Option (List IpRange)
unfolding connect
extend_range ip [] = none
extend_range ip (r ∷ rs) =
    let rest = extend_range ip rs in
    if ip_equal ip (ip_decrease r.from)
    then some (record r { from = ip_decrease r.from } ∷ rs)
    else if ip_equal ip (ip_increase r.to)
    then some (connect (ip_increase r.to) r rs)
    else elim rest [ none ↦ none | some out ↦ some (r ∷ out) ]

unfoldable pub add_ip_to_range : Ip → List IpRange → List IpRange
add_ip_to_range ip ranges =
    if is_empty ip
    then ranges
    else if ip_in_ranges ip ranges
    then ranges
    else elim (extend_range ip ranges) [
      | some out ↦ out
      | none ↦ sort_ranges (ranges ++ record { from = ip; to = ip } ∷ [])
    ]

-- The switch of RemoveIPFromRange.
unfoldable pub cut_range : Ip → IpRange → List IpRange
cut_range ip r =
    let start = to16 r.from in
    let end = to16 r.to in
    elim (compare_bytes start ip) [
      | Ordering.lt ↦ elim (compare_bytes end ip) [
        | Ordering.gt ↦
            record { from = start; to = ip_decrease ip }
            ∷ record { from = ip_increase ip; to = end }
            ∷ []
        | Ordering.eq ↦ record { from = start; to = ip_decrease ip } ∷ []
        | Ordering.lt ↦ record { from = start; to = end } ∷ []
      ]
      | Ordering.eq ↦ elim (compare_bytes end ip) [
        | Ordering.gt ↦ record { from = ip_increase ip; to = end } ∷ []
        | Ordering.eq ↦ []
        | Ordering.lt ↦ record { from = start; to = end } ∷ []
      ]
      | Ordering.gt ↦ record { from = start; to = end } ∷ []
    ]

unfoldable pub cut_ranges : Ip → List IpRange → List IpRange
cut_ranges ip [] = []
cut_ranges ip (r ∷ rs) = cut_range ip r ++ cut_ranges ip rs

unfoldable pub remove_ip_from_range : Ip → List IpRange → List IpRange
remove_ip_from_range ip ranges =
    if is_empty (to16 ip)
    then ranges
    else if ip_in_ranges (to16 ip) ranges
    then sort_ranges (cut_ranges (to16 ip) ranges)
    else ranges

unfoldable pub mask_xor : Bytes → Bytes
mask_xor = map (λ m. bit_xor m 255)

-- `a[i] += mask[i]`, as long as both last.
unfoldable pub add_mask : Bytes → Bytes → Bytes
add_mask [] m = []
add_mask (x ∷ xs) [] = x ∷ xs
add_mask (x ∷ xs) (m ∷ ms) = (x + m) % 256 ∷ add_mask xs ms

-- The guard with which IsBroadCast, IsNetwork, IPInNetwork and IsAvailableIP begin.
unfoldable pub is_given : Ip → IpNet → Bool
is_given ip network = not (is_empty ip || is_empty network.ip || is_empty network.net_mask)

unfoldable pub is_broadcast : Ip → IpNet → Bool
unfolding mask_xor add_mask is_given
is_broadcast ip network =
    is_given ip network
    && (if not (is_empty (to4 network.ip))
        then ip_equal ip (add_mask (to4 network.ip) (mask_xor network.net_mask))
        else not (is_empty (to16 network.ip))
          && ip_equal ip (add_mask (to16 network.ip) (mask_xor network.net_mask)))

unfoldable pub is_network : Ip → IpNet → Bool
unfolding is_given
is_network ip network = is_given ip network && ip_equal ip network.ip

unfoldable pub ip_in_network : Ip → IpNet → Bool
unfolding is_given
ip_in_network ip network = is_given ip network && ip_equal (mask ip network.net_mask) network.ip

unfoldable pub is_available_ip : Ip → IpNet → Bool
unfolding is_broadcast is_network ip_in_network
is_available_ip ip network =
    is_given ip network
    && ip_in_network ip network
    && not (is_broadcast ip network || is_network ip network)
