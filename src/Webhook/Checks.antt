-- ===== src/Webhook/Checks.antt =====
-- What the checks of a workload's addresses let pass.
use rancher_flat_network.Prelude.{
  ℕ, ◌≡◌, refl, Bool, true, false, not, ◌&&◌, ◌||◌, List, [], ◌∷◌, arith, All, is_empty, Bool-cases,
  inl, inr, ◌==◌, ◌⊎◌, ◌↔◌,
}
use rancher_flat_network.Net.{Bytes, Ip, eq_bytes}
use rancher_flat_network.Net.Value.{value, IsIp16}
use rancher_flat_network.Types.{IpRange, FlatNetworkIp, ok}
use rancher_flat_network.Ipcalc.{remove_ip_from_range}
use rancher_flat_network.Ipcalc.Canonical.{
  contains, IsCanonical, ip_in_ranges-contains, IsCanonical-All,
}
use rancher_flat_network.Ipcalc.Remove.{remove_ip_from_range-Deletes}
use rancher_flat_network.Slices.Order.{eq_bytes_sym}
use rancher_flat_network.FlatNetworkSubnet.Used.{ip_text}
use rancher_flat_network.Webhook.Workload.{
  used_by_others, none_used, any_text, ips_distinct, check_ip_duplicate,
}

-- Some IP of the workload has the address of this number.
abbrev pub owned : ℕ → List FlatNetworkIp → Bool
owned n [] = false
owned n (ip ∷ ips) = not (is_empty ip.status.addr) && (n == value ip.status.addr) || owned n ips

abbrev pub HasIp16 : FlatNetworkIp → Type 0
HasIp16 ip = (is_empty ip.status.addr ≡ true) ⊎ IsIp16 ip.status.addr

used_by_others-contains :
    (ips : List FlatNetworkIp) (used : List IpRange)
    → All HasIp16 ips
    → IsCanonical 1 used
    → IsCanonical 1 (used_by_others ips used)
      × ((n : ℕ) → contains n (used_by_others ips used) ≡ (contains n used && not (owned n ips)))
unfolding used_by_others
used_by_others-contains [] used a c = (c, λ n. ground arith)
used_by_others-contains (ip ∷ ips) used a c = elim (Bool-cases (is_empty ip.status.addr)) [
  | inl missing ↦
      let e : used_by_others (ip ∷ ips) used ≡ used_by_others ips used = ground arith in
      let ih = used_by_others-contains ips used a.1 c in rw e (ih.0, λ n. ground (arith, ih.1 n))
  | inr given ↦ elim a.0 [
    | inl missing ↦ absurd (ground arith)
    | inr h ↦
        let e : used_by_others (ip ∷ ips) used
            ≡ used_by_others ips (remove_ip_from_range ip.status.addr used) =
          ground arith in
        let x = remove_ip_from_range-Deletes ip.status.addr h 1 used c in
        let ih = used_by_others-contains ips (remove_ip_from_range ip.status.addr used) a.1 x.0 in
        rw e (ih.0, λ n. ground (arith, ih.1 n, x.1 n))
  ]
]

-- Every address is free of the other pods' addresses.
abbrev pub AllFree : List FlatNetworkIp → List IpRange → List Ip → Type 0
AllFree flat_ips used =
    All (λ ip. (contains (value ip) used && not (owned (value ip) flat_ips)) ≡ false)

-- The check of the used addresses passes just where each address that the workload asks for is
-- unused or the address of one of the workload's own IPs. The used ranges are canonical, the
-- addresses that are asked for have 16 bytes, and the own IPs have such an address or none.
pub none_used-AllFree :
    (flat_ips : List FlatNetworkIp) (used : List IpRange) (ips : List Ip)
    → All HasIp16 flat_ips
    → IsCanonical 1 used
    → All IsIp16 ips
    → (none_used (used_by_others flat_ips used) ips ≡ ok tt) ↔ AllFree flat_ips used ips
unfolding none_used
none_used-AllFree flat_ips used [] a c h = ((λ e. tt), λ e. refl)
none_used-AllFree flat_ips used (ip ∷ ips) a c h =
    let others = used_by_others-contains flat_ips used a c in
    let ih = none_used-AllFree flat_ips used ips a c h.1 in
    let b =
      ip_in_ranges-contains ip (used_by_others flat_ips used) h.0 (IsCanonical-All 1 _ others.0) in
    (
      (λ e. (ground (arith, others.1 (value ip)), ih.0 (ground arith))),
      λ e. ground (arith, others.1 (value ip), ih.1 e.1, e.0),
    )

-- The text is that of none of the addresses.
abbrev pub IsNew : Bytes → List Ip → Type 0
IsNew t = All (λ v. eq_bytes (ip_text v) t ≡ false)

-- No two addresses of the list have the same text.
abbrev pub AllDistinct : List Ip → Type 0
AllDistinct [] = Unit {0}
AllDistinct (v ∷ vs) = IsNew (ip_text v) vs × AllDistinct vs

abbrev IsUnseen : List Bytes → List Ip → Type 0
IsUnseen seen = All (λ v. any_text (ip_text v) seen ≡ false)

IsUnseen-more :
    (t : Bytes) (seen : List Bytes) (vs : List Ip)
    → IsUnseen (t ∷ seen) vs ↔ (IsNew t vs × IsUnseen seen vs)
unfolding any_text
IsUnseen-more t seen [] = ((λ e. (tt, tt)), λ e. tt)
IsUnseen-more t seen (v ∷ vs) =
    let ih = IsUnseen-more t seen vs in
    let flip = eq_bytes_sym (ip_text v) t in
    (
      (λ e. ((ground arith, (ih.0 e.1).0), (ground arith, (ih.0 e.1).1))),
      λ e. (ground arith, ih.1 (e.0.1, e.1.1)),
    )

ips_distinct_iff :
    (seen : List Bytes) (vs : List Ip)
    → (ips_distinct seen vs ≡ ok tt) ↔ (IsUnseen seen vs × AllDistinct vs)
unfolding ips_distinct
ips_distinct_iff seen [] = ((λ e. (tt, tt)), λ e. refl)
ips_distinct_iff seen (v ∷ vs) =
    let ih = ips_distinct_iff (ip_text v ∷ seen) vs in
    let more = IsUnseen-more (ip_text v) seen vs in
    (
      (λ e.
          let next = ih.0 (ground arith) in
          let apart = more.0 next.0 in ((ground arith, apart.1), (apart.0, next.1))),
      λ e. ground (arith, e.0.0, ih.1 (more.1 (e.1.0, e.0.1), e.1.1)),
    )

-- The check for duplicates among the addresses that a workload asks for passes just where no two of
-- them have the same text.
pub check_ip_duplicate_iff : (ips : List Ip) → (check_ip_duplicate ips ≡ ok tt) ↔ AllDistinct ips
unfolding check_ip_duplicate any_text
check_ip_duplicate_iff ips =
    let r = ips_distinct_iff [] ips in ((λ e. (r.0 e).1), λ e. r.1 (none_seen ips, e))
  where
    none_seen : (vs : List Ip) → IsUnseen [] vs
    none_seen [] = tt
    none_seen (v ∷ vs) = (refl, none_seen vs)
