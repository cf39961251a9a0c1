-- ===== src/FlatNetworkIp/Choice.antt =====
-- What allocateIP and allocateMAC choose.
use rancher_flat_network.Prelude.{
  ◌≡◌, refl, Bool, true, false, not, ◌&&◌, ◌||◌, List, [], ◌∷◌, arith, ◌⊎◌, inl, inr, is_empty,
  Bool-cases, All, sub_one, add_one, ℤ, pos, negsuc, suc, zero,
}
use rancher_flat_network.Net.{Ip, to16}
use rancher_flat_network.Net.Value.{value}
use rancher_flat_network.Types.{FlatNetworkSubnet, Result, ok, err, no_available_ip, invalid_ip}
use rancher_flat_network.Ipcalc.{ip_in_ranges, add_ip_to_range}
use rancher_flat_network.Ipcalc.Canonical.{
  contains, IsCanonical, ip_in_ranges-contains, IsCanonical-All,
}
use rancher_flat_network.Ipcalc.Add.{add_ip_to_range-Extends}
use rancher_flat_network.Ipcalc.Laws.{IsAddress, remove-add}
use rancher_flat_network.FlatNetworkIp.Allocate.{
  choose_addr, reserve_ip, reserve_mac, release_ip, take_addresses, fall_back,
}

-- An address that the subnet may give: in its ranges, if it has any, and not used.
abbrev pub may_give : FlatNetworkSubnet → Ip → Bool
may_give subnet a =
    (is_empty subnet.spec.ranges || ip_in_ranges a subnet.spec.ranges)
    && not (ip_in_ranges a subnet.status.used_ip)

-- Some specified address that may be given, as 16 bytes, is `a`.
abbrev pub Offers : FlatNetworkSubnet → List Ip → Ip → Type 0
Offers subnet [] a = ⊥
Offers subnet (v ∷ vs) a = ((to16 v ≡ a) × (may_give subnet a ≡ true)) ⊎ Offers subnet vs a

-- Every specified address is one, and none may be given.
abbrev pub OffersNothing : FlatNetworkSubnet → List Ip → Type 0
OffersNothing subnet = All (λ v. (is_empty (to16 v) ≡ false) × (may_give subnet (to16 v) ≡ false))

-- Some specified address is none.
abbrev pub HasInvalid : List Ip → Type 0
HasInvalid [] = ⊥
HasInvalid (v ∷ vs) = (is_empty (to16 v) ≡ true) ⊎ HasInvalid vs

abbrev pub Choice : FlatNetworkSubnet → List Ip → Result Ip → Type 0
Choice subnet addrs r =
    ((a : Ip) × (r ≡ ok a) × Offers subnet addrs a)
    ⊎ ((r ≡ err no_available_ip) × OffersNothing subnet addrs)
    ⊎ ((r ≡ err invalid_ip) × HasInvalid addrs)

-- The choice of allocateIP among specified addresses comes to one of three: one of them that may be
-- given (in the subnet's ranges, if it has any, and not used); the error that none is available, and
-- then all are addresses and none may be given; or the error that one is invalid, and then one is.
pub choose_addr-Choice :
    (subnet : FlatNetworkSubnet) (addrs : List Ip) → Choice subnet addrs (choose_addr subnet addrs)
unfolding choose_addr
choose_addr-Choice subnet [] = inr (inl (refl, tt))
choose_addr-Choice subnet (v ∷ vs) = elim (Bool-cases (is_empty (to16 v))) [
  | inl invalid ↦ inr (inr (rw (invalid) refl, inl invalid))
  | inr valid ↦ elim (Bool-cases (may_give subnet (to16 v))) [
    | inl given ↦ inl (to16 v, ground arith, inl (refl, given))
    | inr refused ↦
        let next : choose_addr subnet (v ∷ vs) ≡ choose_addr subnet vs = ground arith in
        elim (choose_addr-Choice subnet vs) [
          | inl (a, e, o) ↦ inl (a, rw next e, inr o)
          | inr (inl (e, o)) ↦ inr (inl (rw next e, ((valid, refused), o)))
          | inr (inr (e, o)) ↦ inr (inr (rw next e, inr o))
        ]
  ]
]

sub-add_one : (n : ℤ) → sub_one (add_one n) ≡ n
sub-add_one (pos n) = refl
sub-add_one (negsuc zero) = refl
sub-add_one (negsuc (suc n)) = refl

-- The fallback of onIPCreate undoes its first update, where no MAC address was taken, the address has
-- 16 bytes, is not `::` and was free, and the used ranges are canonical: the subnet is as it was.
pub fall_back-take_addresses :
    (addr : Ip) (s : FlatNetworkSubnet)
    → IsAddress addr
    → IsCanonical 1 s.status.used_ip
    → contains (value addr) s.status.used_ip ≡ false
    → fall_back addr [] (take_addresses addr [] s) ≡ s
unfolding fall_back take_addresses reserve_ip reserve_mac release_ip
fall_back-take_addresses addr s h c free =
    let before = ip_in_ranges-contains addr s.status.used_ip h.0 (IsCanonical-All 1 _ c) in
    let x = add_ip_to_range-Extends addr h.0 1 s.status.used_ip c (omega arith) h.1 in
    let after =
      ip_in_ranges-contains addr (add_ip_to_range addr s.status.used_ip) h.0
        (IsCanonical-All 1 _ x.0) in
    let undone = remove-add addr h s.status.used_ip c free in
    let count = sub-add_one s.status.used_ip_count in ground (arith, x.1 (value addr))
