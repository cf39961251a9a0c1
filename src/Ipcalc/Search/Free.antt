-- ===== src/Ipcalc/Search/Free.antt =====
-- GetAvailableIP over the ranges that a subnet defines: a free address of some range, or an error
-- that means that there is none.
use rancher_flat_network.Prelude.{
  ◌≡◌, refl, true, false, List, [], ◌∷◌, arith, All, ◌⊎◌, inl, inr, Bool-cases, some, ◌≢◌,
}
use rancher_flat_network.Net.{Bytes, Ip, IpNet}
use rancher_flat_network.Net.Value.{value, IsIp16}
use rancher_flat_network.Net.Parse.{parse_cidr}
use rancher_flat_network.Types.{IpRange, Result, ok, err, no_available_ip}
use rancher_flat_network.Ipcalc.{is_available_ip}
use rancher_flat_network.Ipcalc.Canonical.{contains, ip_in_ranges-contains}
use rancher_flat_network.Ipcalc.Search.{
  Search, found, exhausted, running, is_free, search_one, search_ranges, outcome, search_available,
  get_available_ip,
}
use rancher_flat_network.Ipcalc.Search.Range.{
  FirstFree, IsOrdered, IsOrdered-All, IsBounded, search_one-FirstFree,
}

-- No address of the ranges is free.
abbrev pub IsFull : IpNet → List IpRange → List IpRange → Type 0
IsFull network used rs =
    (x : Ip) → IsIp16 x → contains (value x) rs ≡ true → is_free network used x ≡ false

-- What a search of ranges may return.
abbrev pub FreeIn : IpNet → List IpRange → List IpRange → Search → Type 0
FreeIn network used rs (found ip) =
    IsIp16 ip × (contains (value ip) rs ≡ true) × (is_free network used ip ≡ true)
FreeIn network used rs exhausted = IsFull network used rs
FreeIn network used rs running = ⊥

module _ (network : IpNet) (used : List IpRange) where
  FreeIn-head :
      (r : IpRange) (rs : List IpRange) (s t : Search)
      → FirstFree network used (value r.from) (value r.to) s
      → FreeIn network used rs t
      → FreeIn network used
          (r ∷ rs)
          (elim s [ found ip ↦ found ip | exhausted ↦ t | running ↦ running ])
  unfolding contains
  FreeIn-head r rs (found ip) t f g = (f.0, ground arith, f.3)
  FreeIn-head r rs exhausted (found ip) f g = (g.0, ground arith, g.2)
  FreeIn-head r rs exhausted exhausted f g = λ x hx e. elim (Bool-cases (contains (value x) rs)) [
    | inl later ↦ g x hx later
    | inr here ↦ f x hx (ground arith) (ground arith)
  ]
  FreeIn-head r rs exhausted running f g = g
  FreeIn-head r rs running t f g = f

module _ (network : IpNet) (used : List IpRange) (hu : IsOrdered used) where
  search_ranges-FreeIn :
      (rs : List IpRange)
      → All IsBounded rs
      → FreeIn network used rs (search_ranges network used rs)
  unfolding search_ranges contains
  search_ranges-FreeIn [] h = λ x hx e. cc
  search_ranges-FreeIn (r ∷ rs) h =
      FreeIn-head network used r rs (search_one network used r) (search_ranges network used rs)
        (search_one-FirstFree network used hu r h.0) (search_ranges-FreeIn rs h.1)

-- A result of the search: an address of 16 bytes in the ranges, usable in the network and not used;
-- or the error, where no address of the ranges is such.
abbrev pub Answers : IpNet → List IpRange → List IpRange → Result Ip → Type 0
Answers network used rs r =
    ((ip : Ip) × (r ≡ ok ip)
      × IsIp16 ip
      × (contains (value ip) rs ≡ true)
      × (is_available_ip ip network ≡ true)
      × (contains (value ip) used ≡ false))
    ⊎ ((r ≡ err no_available_ip)
        × ((x : Ip)
            → IsIp16 x
            → contains (value x) rs ≡ true
            → is_available_ip x network ≡ true
            → contains (value x) used ≡ true))

outcome-Answers :
    (network : IpNet) (used rs : List IpRange) (s : Search)
    → IsOrdered used
    → FreeIn network used rs s
    → Answers network used rs (outcome s)
unfolding outcome is_free
outcome-Answers network used rs (found ip) hu f =
    let test = ip_in_ranges-contains ip used f.0 (IsOrdered-All used hu) in
    inl (ip, refl, f.0, f.1, ground arith, ground arith)
outcome-Answers network used rs exhausted hu f = inr (
  refl,
  λ x hx e a.
      let test = ip_in_ranges-contains x used hx (IsOrdered-All used hu) in
      let not_free = f x hx e in ground arith,
)
outcome-Answers network used rs running hu f = absurd f

-- The CIDR parses, and ranges are defined: their ends have 16 bytes, and none ends at the last address
-- of all. The used ranges have ends of 16 bytes, each in order. Then GetAvailableIP ends, with an
-- address of 16 bytes in the ranges that is available in the network and not used, or with the error
-- where every address of the ranges that is available in the network is used.
pub get_available_ip-Answers :
    (cidr : Bytes) (ip : Ip) (network : IpNet) (ranges used : List IpRange)
    → parse_cidr cidr ≡ some (ip, network)
    → ranges ≢ []
    → All IsBounded ranges
    → IsOrdered used
    → Answers network used ranges (get_available_ip cidr ranges used)
unfolding get_available_ip search_available
get_available_ip-Answers cidr ip network [] used e ne hr hu = absurd (ne refl)
get_available_ip-Answers cidr ip network (r ∷ rs) used e ne hr hu =
    rw (e, get_available_ip)
      (outcome-Answers network used (r ∷ rs) (search_ranges network used (r ∷ rs)) hu
        (search_ranges-FreeIn network used hu (r ∷ rs) hr))
