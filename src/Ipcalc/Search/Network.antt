-- ===== src/Ipcalc/Search/Network.antt =====
-- The search of a whole network, where a subnet defines no ranges: it ends once some address behind its
-- start is outside the network.
use rancher_flat_network.Prelude.{
  ℕ, suc, zero, ◌+◌, ◌≤◌, ◌<◌, ◌≡◌, refl, true, false, List, [], ◌∷◌, arith, inl, inr, ◌⊎◌, ◌∙◌,
  sym, length, ◌==◌, some, ap, is_empty, Bool-cases,
}
use rancher_flat_network.Net.{Bytes, Ip, IpNet, net_contains, to16, to4, mask, compare_bytes}
use rancher_flat_network.Net.Parse.{parse_cidr}
use rancher_flat_network.Net.Value.{
  value, IsIp16, address_count, to16_of_IsIp16, value_injective, value-lt-count, Order-cases,
}
use rancher_flat_network.Types.{IpRange, Result, ok, err, no_available_ip}
use rancher_flat_network.Ipcalc.{ip_increase}
use rancher_flat_network.Ipcalc.Increase.{value-ip_increase, ip_increase-IsIp16}
use rancher_flat_network.Ipcalc.Search.{
  Search, found, exhausted, running, is_free, skip_used, search_network, outcome, search_available,
  get_available_ip,
}
use rancher_flat_network.Ipcalc.Search.Range.{NoneFree, NoneFree-step}

-- What the search from a number on may return, where an address numbered `b` is outside the network:
-- the first free address, or nothing, and then none is free before the network's end.
abbrev pub FirstInNetwork : IpNet → List IpRange → ℕ → ℕ → Search → Type 0
FirstInNetwork network used a b (found x) =
    IsIp16 x
    × (a ≤ value x)
    × (value x < b)
    × (net_contains network x ≡ true)
    × (is_free network used x ≡ true)
    × NoneFree network used a (value x)
FirstInNetwork network used a b exhausted =
    (w : Ip) × IsIp16 w
    × (a ≤ value w)
    × (net_contains network w ≡ false)
    × NoneFree network used a (value w)
FirstInNetwork network used a b running = ⊥

module _ (network : IpNet) (used : List IpRange) where
  FirstInNetwork-step :
      (ip : Ip) (b : ℕ) (s : Search)
      → IsIp16 ip
      → is_free network used ip ≡ false
      → FirstInNetwork network used (value ip + 1) b s
      → FirstInNetwork network used (value ip) b s
  FirstInNetwork-step ip b (found x) h e f =
      (f.0, omega arith, f.2, f.3, f.4, NoneFree-step network used ip (value x) h e f.5)
  FirstInNetwork-step ip b exhausted h e f =
      (f.0, f.1, omega (arith, f.2), f.3, NoneFree-step network used ip (value f.0) h e f.4)
  FirstInNetwork-step ip b running h e f = f

  -- From an address of 16 bytes, with one of 16 bytes at or behind it that is outside the network, and
  -- with a round for each number up to that one and one more, the search of a network ends: with its
  -- first free address, or with nothing where it has met an address outside the network and none
  -- before that is free.
  pub search_network-FirstInNetwork :
      (fuel : ℕ) (ip z : Ip)
      → IsIp16 ip
      → IsIp16 z
      → net_contains network z ≡ false
      → value ip ≤ value z
      → value z < value ip + fuel
      → FirstInNetwork network used (value ip) (value z) (search_network fuel network used ip)
  unfolding search_network
  search_network-FirstInNetwork zero ip z hi hz out le enough = absurd (omega arith)
  search_network-FirstInNetwork (suc fuel) ip z hi hz out le enough =
      let same = to16_of_IsIp16 ip hi in
      let given : is_empty ip ≡ false = ground arith in
      elim (Bool-cases (net_contains network ip)) [
        | inr left ↦
            rw (left, search_network) (ip, hi, omega arith, left, λ x hx p q. absurd (omega arith))
        | inl within ↦
            let below : value ip < value z = elim (Order-cases (value ip) (value z)) [
              | inl lt ↦ lt
              | inr (inl here) ↦
                  let e : ip ≡ z = value_injective ip z hi.0 hz.0 (hi.1 ∙ sym hz.1) here in
                  let f : net_contains network z ≡ true = rw e at within in absurd cc
              | inr (inr above) ↦ absurd (omega arith)
            ] in
            let top = value-lt-count z hz in
            let up : value (ip_increase ip) ≡ value ip + 1 =
              omega (arith, value-ip_increase ip hi) in
            elim (Bool-cases (is_free network used ip)) [
              | inl free ↦
                  rw (within, same, given, free, search_network)
                    (hi, omega arith, below, within, free, λ x hx p q. absurd (omega arith))
              | inr taken ↦
                  rw (within, same, given, taken, search_network)
                    (FirstInNetwork-step ip (value z) _ hi taken (
                      rw up at (
                        search_network-FirstInNetwork fuel (ip_increase ip) z
                          (ip_increase-IsIp16 ip hi) hz out (omega arith) (omega arith))))
            ]
      ]

-- An address of 4 bytes, and the same one in 16.
to4-to16 : (a b c d : ℕ) → to4 (to16 (a ∷ b ∷ c ∷ d ∷ [])) ≡ a ∷ b ∷ c ∷ d ∷ []
unfolding to4 to16 compare_bytes
to4-to16 a b c d = refl

net_contains-to16 :
    (network : IpNet) (a b c d : ℕ)
    → net_contains network (to16 (a ∷ b ∷ c ∷ d ∷ [])) ≡ net_contains network (a ∷ b ∷ c ∷ d ∷ [])
unfolding net_contains to4
net_contains-to16 network a b c d = let same = to4-to16 a b c d in rw same refl

-- The loop reads its variable as 16 bytes.
search_network-to16_of_4 :
    (fuel : ℕ) (network : IpNet) (used : List IpRange) (a b c d : ℕ)
    → search_network fuel network used (a ∷ b ∷ c ∷ d ∷ [])
      ≡ search_network fuel network used (to16 (a ∷ b ∷ c ∷ d ∷ []))
unfolding search_network to16
search_network-to16_of_4 zero network used a b c d = refl
search_network-to16_of_4 (suc fuel) network used a b c d =
    let same = net_contains-to16 network a b c d in rw same refl

Four-cases : (s : Ip) → ((a b c d : ℕ) × (s ≡ a ∷ b ∷ c ∷ d ∷ [])) ⊎ ((length s == 4) ≡ false)
Four-cases [] = inr refl
Four-cases (a ∷ []) = inr refl
Four-cases (a ∷ b ∷ []) = inr refl
Four-cases (a ∷ b ∷ c ∷ []) = inr refl
Four-cases (a ∷ b ∷ c ∷ d ∷ []) = inl (a, b, c, d, refl)
Four-cases (a ∷ b ∷ c ∷ d ∷ e ∷ s) = inr (ground arith)

long : (s : Ip) → (length s == 4) ≡ false → IsIp16 (to16 s) → s ≡ to16 s
unfolding to16
long s other h = ground (arith, other, h)

search_network-to16 :
    (fuel : ℕ) (network : IpNet) (used : List IpRange) (s : Ip)
    → IsIp16 (to16 s)
    → search_network fuel network used s ≡ search_network fuel network used (to16 s)
search_network-to16 fuel network used s h = elim (Four-cases s) [
  | inl (a, b, c, d, e) ↦ rw e (search_network-to16_of_4 fuel network used a b c d)
  | inr other ↦ ap (search_network fuel network used) (long s other h)
]

-- What GetAvailableIP may return for a network without ranges, of which the first address that is tried
-- is numbered `a`.
abbrev pub AnswersInNetwork : IpNet → List IpRange → ℕ → Result Ip → Type 0
AnswersInNetwork network used a r =
    ((x : Ip) × (r ≡ ok x)
      × IsIp16 x
      × (a ≤ value x)
      × (net_contains network x ≡ true)
      × (is_free network used x ≡ true)
      × NoneFree network used a (value x))
    ⊎ ((r ≡ err no_available_ip)
        × ((w : Ip) × IsIp16 w
            × (a ≤ value w)
            × (net_contains network w ≡ false)
            × NoneFree network used a (value w)))

outcome-AnswersInNetwork :
    (network : IpNet) (used : List IpRange) (a b : ℕ) (s : Search)
    → FirstInNetwork network used a b s
    → AnswersInNetwork network used a (outcome s)
unfolding outcome
outcome-AnswersInNetwork network used a b (found x) f = inl (x, refl, f.0, f.1, f.3, f.4, f.5)
outcome-AnswersInNetwork network used a b exhausted f = inr (refl, f)
outcome-AnswersInNetwork network used a b running f = absurd f

-- The address that GetAvailableIP tries first where no ranges are defined.
unfoldable pub first_tried : Ip × IpNet → List IpRange → Ip
first_tried (ip, network) used = to16 (skip_used (ip_increase (mask ip network.net_mask)) used)

-- The CIDR parses, no ranges are defined, the first address that is tried has 16 bytes in its long
-- form, and some address of 16 bytes at or behind it is outside the network. Then GetAvailableIP ends:
-- with an address of the network, at or behind the first one, that is available in it and not used, and
-- none between the two is; or with the error, where an address at or behind the first one is outside
-- the network, and none between the two is available and not used.
pub get_available_ip-AnswersInNetwork :
    (cidr : Bytes) (ip : Ip) (network : IpNet) (used : List IpRange) (z : Ip)
    → parse_cidr cidr ≡ some (ip, network)
    → IsIp16 (first_tried (ip, network) used)
    → IsIp16 z
    → net_contains network z ≡ false
    → value (first_tried (ip, network) used) ≤ value z
    → AnswersInNetwork network used
        (value (first_tried (ip, network) used))
        (get_available_ip cidr [] used)
unfolding get_available_ip search_available first_tried
get_available_ip-AnswersInNetwork cidr ip network used z e h hz out le =
    let start : Ip = skip_used (ip_increase (mask ip network.net_mask)) used in
    let enough = value-lt-count z hz in
    let ends =
      search_network-FirstInNetwork network used (address_count + 2) (to16 start) z h hz out le
        (omega arith) in
    rw (e, get_available_ip)
      (outcome-AnswersInNetwork network used (value (to16 start)) (value z) _
        (rw (search_network-to16 (address_count + 2) network used start h) ends))
