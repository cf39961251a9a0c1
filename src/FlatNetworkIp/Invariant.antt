-- ===== src/FlatNetworkIp/Invariant.antt =====
-- The invariant of a subnet's status that the handlers of FlatNetworkIPs keep.
use rancher_flat_network.Prelude.{
  ℕ, ◌≡◌, refl, not, ◌&&◌, ◌||◌, List, [], ◌∷◌, arith, is_empty, Bool-cases, inl, inr, ◌==◌, sym,
  subst,
}
use rancher_flat_network.Net.{Bytes, Ip, eq_bytes}
use rancher_flat_network.Net.Value.{value}
use rancher_flat_network.Types.{FlatNetworkSubnet, SubnetStatus}
use rancher_flat_network.Ipcalc.{ip_in_ranges}
use rancher_flat_network.Ipcalc.Canonical.{
  contains, IsCanonical, ip_in_ranges-contains, IsCanonical-All,
}
use rancher_flat_network.Ipcalc.Add.{add_ip_to_range-Extends}
use rancher_flat_network.Ipcalc.Remove.{remove_ip_from_range-Deletes}
use rancher_flat_network.Ipcalc.Laws.{IsAddress}
use rancher_flat_network.Slices.Sorted.{IsAscending, IsBelow, sort-IsAscending}
use rancher_flat_network.FlatNetworkIp.Allocate.{
  delete_mac, reserve_ip, reserve_mac, release_ip, take_addresses, fall_back, give_back,
}

-- The used addresses are canonical, and the used MAC addresses ascend.
abbrev pub IsTidy : SubnetStatus → Type 0
IsTidy t = IsCanonical 1 t.used_ip × IsAscending t.used_mac

delete_mac-IsBelow : (a m : Bytes) (xs : List Bytes) → IsBelow a xs → IsBelow a (delete_mac m xs)
unfolding delete_mac
delete_mac-IsBelow a m [] p = tt
delete_mac-IsBelow a m (x ∷ xs) p = elim (Bool-cases (eq_bytes x m)) [
  | inl e ↦ rw e (delete_mac-IsBelow a m xs p.1)
  | inr e ↦ rw e (p.0, delete_mac-IsBelow a m xs p.1)
]

delete_mac-IsAscending :
    (m : Bytes) (xs : List Bytes) → IsAscending xs → IsAscending (delete_mac m xs)
unfolding delete_mac
delete_mac-IsAscending m [] c = tt
delete_mac-IsAscending m (x ∷ xs) c = elim (Bool-cases (eq_bytes x m)) [
  | inl e ↦ rw e (delete_mac-IsAscending m xs c.1)
  | inr e ↦ rw e (delete_mac-IsBelow x m xs c.0, delete_mac-IsAscending m xs c.1)
]

module _ (addr : Ip) (mac : Bytes) (h : IsAddress addr) where
  reserve_ip-Taken :
      (t : SubnetStatus)
      → IsCanonical 1 t.used_ip
      → IsCanonical 1 (reserve_ip addr t).used_ip
        × ((n : ℕ)
            → contains n (reserve_ip addr t).used_ip ≡ (n == value addr || contains n t.used_ip))
        × ((reserve_ip addr t).used_mac ≡ t.used_mac)
  unfolding reserve_ip
  reserve_ip-Taken t c =
      let b = ip_in_ranges-contains addr t.used_ip h.0 (IsCanonical-All 1 _ c) in
      let x = add_ip_to_range-Extends addr h.0 1 t.used_ip c (omega arith) h.1 in
      elim (Bool-cases (ip_in_ranges addr t.used_ip)) [
        | inl e ↦ rw e (c, (λ n. ground (arith, x.1 n)), refl)
        | inr e ↦ rw e (x.0, (λ n. ground (arith, x.1 n)), refl)
      ]

  release_ip-Freed :
      (t : SubnetStatus)
      → IsCanonical 1 t.used_ip
      → IsCanonical 1 (release_ip addr t).used_ip
        × ((n : ℕ)
            → contains n (release_ip addr t).used_ip
              ≡ (not (n == value addr) && contains n t.used_ip))
        × ((release_ip addr t).used_mac ≡ t.used_mac)
  unfolding release_ip
  release_ip-Freed t c =
      let b = ip_in_ranges-contains addr t.used_ip h.0 (IsCanonical-All 1 _ c) in
      let x = remove_ip_from_range-Deletes addr h.0 1 t.used_ip c in
      elim (Bool-cases (ip_in_ranges addr t.used_ip)) [
        | inl e ↦ rw e (x.0, (λ n. ground (arith, x.1 n)), refl)
        | inr e ↦ rw e (c, (λ n. ground (arith, x.1 n)), refl)
      ]

  taken :
      (s : FlatNetworkSubnet)
      → IsTidy s.status
      → IsTidy (take_addresses addr mac s).status
        × ((n : ℕ)
            → contains n (take_addresses addr mac s).status.used_ip
              ≡ (n == value addr || contains n s.status.used_ip))
  unfolding take_addresses reserve_mac
  taken s (c, a) =
      let x = reserve_ip-Taken s.status c in
      elim (Bool-cases (is_empty mac)) [
        | inl e ↦ rw e ((x.0, subst IsAscending (sym x.2) a), x.1)
        | inr e ↦ rw e ((x.0, sort-IsAscending _), x.1)
      ]

  fallen :
      (s : FlatNetworkSubnet)
      → IsTidy s.status
      → IsTidy (fall_back addr mac s).status
        × ((n : ℕ)
            → contains n (fall_back addr mac s).status.used_ip
              ≡ (not (n == value addr) && contains n s.status.used_ip))
  unfolding fall_back
  fallen s (c, a) =
      let x = release_ip-Freed s.status c in
      let b = subst IsAscending (sym x.2) a in
      elim (Bool-cases (is_empty mac || is_empty (release_ip addr s.status).used_mac)) [
        | inl e ↦ rw e ((x.0, b), x.1)
        | inr e ↦ rw e ((x.0, delete_mac-IsAscending mac _ b), x.1)
      ]

  given_back :
      (s : FlatNetworkSubnet)
      → IsTidy s.status
      → IsTidy (give_back addr mac s).status
        × ((n : ℕ)
            → contains n (give_back addr mac s).status.used_ip
              ≡ (not (n == value addr) && contains n s.status.used_ip))
  unfolding give_back
  given_back s (c, a) =
      let x = release_ip-Freed s.status c in
      elim (Bool-cases (is_empty mac)) [
        | inl e ↦ rw e ((x.0, subst IsAscending (sym x.2) a), x.1)
        | inr e ↦ rw e ((x.0, sort-IsAscending _), x.1)
      ]

  -- The three edits that handlers make keep the status tidy: used ranges canonical (ascending, apart,
  -- none bordering on the next) and used MAC addresses ascending. The first one adds exactly the
  -- address to the used ones; the fallback and the removal take exactly it out. The address has 16
  -- bytes and is not `::`.
  pub edits-IsTidy :
      (s : FlatNetworkSubnet)
      → IsTidy s.status
      → (IsTidy (take_addresses addr mac s).status
          × ((n : ℕ)
              → contains n (take_addresses addr mac s).status.used_ip
                ≡ (n == value addr || contains n s.status.used_ip)))
        × (IsTidy (fall_back addr mac s).status
            × ((n : ℕ)
                → contains n (fall_back addr mac s).status.used_ip
                  ≡ (not (n == value addr) && contains n s.status.used_ip)))
        × (IsTidy (give_back addr mac s).status
            × ((n : ℕ)
                → contains n (give_back addr mac s).status.used_ip
                  ≡ (not (n == value addr) && contains n s.status.used_ip)))
  edits-IsTidy s t = (taken s t, fallen s t, given_back s t)
