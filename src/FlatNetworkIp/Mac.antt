-- ===== src/FlatNetworkIp/Mac.antt =====
-- What allocateMAC chooses among the specified MAC addresses.
use rancher_flat_network.Prelude.{
  ◌≡◌, refl, true, List, [], ◌∷◌, arith, ◌⊎◌, inl, inr, Bool-cases, All,
}
use rancher_flat_network.Net.{Bytes}
use rancher_flat_network.Types.{ok, err, no_available_mac}
use rancher_flat_network.Slices.{binary_search}
use rancher_flat_network.Slices.Binary.{IsSorted, IsAmong, binary_search-IsAmong}
use rancher_flat_network.FlatNetworkIp.Allocate.{choose_mac}

-- `m` is the first string of the list that is not used.
abbrev pub FirstUnused : List Bytes → List Bytes → Bytes → Type 0
FirstUnused used [] m = ⊥
FirstUnused used (x ∷ xs) m =
    ((x ≡ m) × (¬ IsAmong m used)) ⊎ (IsAmong x used × FirstUnused used xs m)

-- Where the used MAC addresses stand in ascending order: the choice is the first specified MAC
-- address that is not used, or the error that there is none where all are used.
pub choose_mac-FirstUnused :
    (used macs : List Bytes)
    → IsSorted used
    → ((m : Bytes) × (choose_mac used macs ≡ ok m) × FirstUnused used macs m)
      ⊎ ((choose_mac used macs ≡ err no_available_mac) × All (λ m. IsAmong m used) macs)
unfolding choose_mac
choose_mac-FirstUnused used [] s = inr (refl, tt)
choose_mac-FirstUnused used (x ∷ xs) s = elim (Bool-cases (binary_search used x).1) [
  | inr free ↦ inl (
    x,
    ground arith,
    inl (
      refl,
      λ a. let found : (binary_search used x).1 ≡ true = (binary_search-IsAmong used x s).1 a in cc,
    ),
  )
  | inl found ↦
      let e : choose_mac used (x ∷ xs) ≡ choose_mac used xs = ground arith in
      let a = (binary_search-IsAmong used x s).0 found in
      elim (choose_mac-FirstUnused used xs s) [
        | inl (m, r, f) ↦ inl (m, rw e r, inr (a, f))
        | inr (r, f) ↦ inr (rw e r, (a, f))
      ]
]
