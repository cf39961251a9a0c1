-- ===== src/FlatNetworkSubnet/Collected.antt =====
-- What onSubnetUpdate collects as the used addresses of a subnet.
use rancher_flat_network.Prelude.{
  ℕ, ◌≡◌, refl, Bool, true, false, not, ◌&&◌, ◌||◌, List, [], ◌∷◌, arith, All, ℤ, pos, add_one,
  is_empty, Bool-cases, inl, inr, ◌==◌, if◌then◌else◌, ◌⊎◌,
}
use rancher_flat_network.Net.{Ip}
use rancher_flat_network.Net.Value.{value}
use rancher_flat_network.Types.{IpRange, FlatNetworkIp}
use rancher_flat_network.Ipcalc.{add_ip_to_range}
use rancher_flat_network.Ipcalc.Canonical.{contains, IsCanonical}
use rancher_flat_network.Ipcalc.Add.{add_ip_to_range-Extends}
use rancher_flat_network.Ipcalc.Laws.{IsAddress}
use rancher_flat_network.FlatNetworkSubnet.Used.{is_deleting, collect_used, used_of}

-- The IP has an address and is not being deleted.
abbrev pub holds : FlatNetworkIp → Bool
holds ip = not (is_deleting ip.deletion_timestamp || is_empty ip.status.addr)

-- Some IP holds the address of this number.
abbrev pub held : ℕ → List FlatNetworkIp → Bool
held n [] = false
held n (ip ∷ ips) = holds ip && (n == value ip.status.addr) || held n ips

abbrev pub HasAddress : FlatNetworkIp → Type 0
HasAddress ip = (is_empty ip.status.addr ≡ true) ⊎ IsAddress ip.status.addr

-- How many IPs hold an address, counted from a number on.
abbrev pub count_held : ℤ → List FlatNetworkIp → ℤ
count_held z [] = z
count_held z (ip ∷ ips) = if holds ip then count_held (add_one z) ips else count_held z ips

collect_used-held :
    (z : ℤ) (used : List IpRange) (ips : List FlatNetworkIp)
    → All HasAddress ips
    → IsCanonical 1 used
    → IsCanonical 1 (collect_used z used ips).1
      × ((n : ℕ) → contains n (collect_used z used ips).1 ≡ (held n ips || contains n used))
      × ((collect_used z used ips).0 ≡ count_held z ips)
unfolding collect_used
collect_used-held z used [] a c = (c, (λ n. refl), refl)
collect_used-held z used (ip ∷ ips) a c = elim (Bool-cases (holds ip)) [
  | inr free ↦
      let e : collect_used z used (ip ∷ ips) ≡ collect_used z used ips = ground arith in
      let ih = collect_used-held z used ips a.1 c in
      rw e (ih.0, (λ n. ground (arith, ih.1 n)), ground (arith, ih.2))
  | inl holding ↦ elim a.0 [
    | inl empty ↦ absurd (ground arith)
    | inr h ↦
        let e : collect_used z used (ip ∷ ips)
            ≡ collect_used (add_one z) (add_ip_to_range ip.status.addr used) ips =
          ground arith in
        let x = add_ip_to_range-Extends ip.status.addr h.0 1 used c (omega arith) h.1 in
        let ih = collect_used-held (add_one z) (add_ip_to_range ip.status.addr used) ips a.1 x.0 in
        rw e (ih.0, (λ n. ground (arith, ih.1 n, x.1 n)), ground (arith, ih.2))
  ]
]

-- For IPs whose addresses are missing or addresses above `::`, and a gateway that is such an address:
-- the used ranges are canonical (ascending, apart, none bordering on the next), they hold exactly the
-- gateway and the addresses of the IPs that are not being deleted, and the count is the number of
-- those IPs and one.
pub used_of-held :
    (gateway : Ip) (ips : List FlatNetworkIp)
    → IsAddress gateway
    → All HasAddress ips
    → IsCanonical 1 (used_of gateway ips).1
      × ((n : ℕ) → contains n (used_of gateway ips).1 ≡ (n == value gateway || held n ips))
      × ((used_of gateway ips).0 ≡ add_one (count_held (pos 0) ips))
unfolding used_of contains
used_of-held gateway ips g a =
    let r = collect_used-held (pos 0) [] ips a tt in
    let used = (collect_used (pos 0) [] ips).1 in
    let e : used_of gateway ips
        ≡ (add_one (collect_used (pos 0) [] ips).0, add_ip_to_range gateway used) =
      ground arith in
    let x = add_ip_to_range-Extends gateway g.0 1 used r.0 (omega arith) g.1 in
    let none_at : (n : ℕ) → contains n [] ≡ false = λ n. refl in
    rw e (x.0, (λ n. ground (arith, x.1 n, r.1 n, none_at n)), ground (arith, r.2))
