-- ===== src/Workload/Reserved.antt =====
-- The reservations of workloads: what they hold, whom they keep out, and when they are written.
use rancher_flat_network.Prelude.{
  ℕ, ◌≡◌, refl, Bool, true, false, ◌||◌, List, [], ◌∷◌, arith, All, ◌==◌, Bool-cases, inl, inr, ◌∙◌,
}
use rancher_flat_network.Net.{Bytes, Ip, eq_bytes}
use rancher_flat_network.Net.Value.{value}
use rancher_flat_network.Slices.Order.{eq_bytes_refl}
use rancher_flat_network.Types.{IpRange, set_key}
use rancher_flat_network.Ipcalc.{ip_in_ranges, add_ip_to_range}
use rancher_flat_network.Ipcalc.Canonical.{
  contains, IsCanonical, ip_in_ranges-contains, IsCanonical-All,
}
use rancher_flat_network.Ipcalc.Add.{add_ip_to_range-Extends}
use rancher_flat_network.Ipcalc.Laws.{IsAddress}
use rancher_flat_network.Webhook.Workload.{reserved_by_other}
use rancher_flat_network.Workload.Handlers.{Reserved, reserve_ranges, reserve}

-- The number is that of one of the addresses.
abbrev pub among : ℕ → List Ip → Bool
among n [] = false
among n (ip ∷ ips) = n == value ip || among n ips

pub reserve_ranges-among :
    (ips : List Ip) (rs : List IpRange)
    → All IsAddress ips
    → IsCanonical 1 rs
    → IsCanonical 1 (reserve_ranges ips rs)
      × ((n : ℕ) → contains n (reserve_ranges ips rs) ≡ (among n ips || contains n rs))
unfolding reserve_ranges
reserve_ranges-among [] rs h c = (c, λ n. refl)
reserve_ranges-among (ip ∷ ips) rs h c =
    let f = add_ip_to_range-Extends ip h.0.0 1 rs c (omega arith) h.0.1 in
    let ih = reserve_ranges-among ips (add_ip_to_range ip rs) h.1 f.0 in
    (ih.0, λ n. ground (arith, ih.1 n, f.1 n))

-- Another key leads to ranges with the address.
reserved_at :
    (key other : Bytes) (ip : Ip) (rs : List IpRange) (m : Reserved)
    → eq_bytes key other ≡ false
    → ip_in_ranges ip rs ≡ true
    → reserved_by_other other ip (set_key key rs m) ≡ true
unfolding reserved_by_other set_key
reserved_at key other ip rs [] e f = ground (arith, e, f)
reserved_at key other ip rs ((k, ss) ∷ m) e f = elim (Bool-cases (eq_bytes k key)) [
  | inl here ↦ rw here (ground (arith, e, f))
  | inr there ↦ rw there (let ih = reserved_at key other ip rs m e f in ground arith)
]

-- The own reservation does not count.
own_not_counted :
    (key : Bytes) (ip : Ip) (rs : List IpRange) (m : Reserved)
    → reserved_by_other key ip (set_key key rs m) ≡ reserved_by_other key ip m
unfolding reserved_by_other set_key
own_not_counted key ip rs [] = let e = eq_bytes_refl key in ground (arith, e)
own_not_counted key ip rs ((k, ss) ∷ m) = elim (Bool-cases (eq_bytes k key)) [
  | inl here ↦ let e = eq_bytes_refl key in rw here (ground (arith, e))
  | inr there ↦ rw there (let ih = own_not_counted key ip rs m in ground arith)
]

-- Every address of the list is refused to the workload of the key.
abbrev pub AllRefused : Bytes → Reserved → List Ip → Type 0
AllRefused other m = All (λ ip. reserved_by_other other ip m ≡ true)

refused_each :
    (key other : Bytes) (rs : List IpRange) (m : Reserved) (ips : List Ip)
    → eq_bytes key other ≡ false
    → IsCanonical 1 rs
    → All IsAddress ips
    → ((n : ℕ) → among n ips ≡ true → contains n rs ≡ true)
    → AllRefused other (set_key key rs m) ips
refused_each key other rs m [] e c h f = tt
refused_each key other rs m (ip ∷ ips) e c h f =
    let b = ip_in_ranges-contains ip rs h.0.0 (IsCanonical-All 1 _ c) in
    let here : contains (value ip) rs ≡ true = f (value ip) (ground arith) in
    (
      reserved_at key other ip rs m e (b ∙ here),
      refused_each key other rs m ips e c h.1 (λ n a. f n (ground arith)),
    )

-- Once the workload controller has reserved addresses, of 16 bytes and other than `::`, under the key
-- of a workload, the webhook finds each of them reserved when a workload of another key asks for it;
-- and what it finds for the workload itself is as it was before.
pub reserve-AllRefused :
    (key other : Bytes) (ips : List Ip) (m : Reserved)
    → eq_bytes key other ≡ false
    → All IsAddress ips
    → AllRefused other (reserve key ips m) ips
      × ((ip : Ip) → reserved_by_other key ip (reserve key ips m) ≡ reserved_by_other key ip m)
unfolding reserve
reserve-AllRefused key other ips m e h =
    let r = reserve_ranges-among ips [] h tt in
    (
      refused_each key other (reserve_ranges ips []) m ips e r.0 h (λ n a. ground (arith, r.1 n)),
      λ ip. own_not_counted key ip (reserve_ranges ips []) m,
    )
