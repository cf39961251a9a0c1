-- ===== src/Cni/DefaultRoute.antt =====
-- Which routes UpdatePodDefaultGateway of pkg/cni/route/route.go replaces.
use rancher_flat_network.Prelude.{
  ◌≡◌, refl, true, false, [], ◌∷◌, Option, none, some, ◌⊎◌, inl, inr, Bool-cases, arith, length,
  ◌==◌, sym, is_empty, ◌∙◌, ◌||◌, ◌↔◌,
}
use rancher_flat_network.Net.{Ip, IpNet, ip_equal, eq_bytes, to4, to16, compare_bytes}
use rancher_flat_network.Net.Parse.{parse_ip}
use rancher_flat_network.Slices.Order.{eq_of_eq_bytes}
use rancher_flat_network.Types.{codes}
use rancher_flat_network.Cni.Kernel.{
  Family, family_all, family_v4, family_v6, family_other, KernelRoute,
}
use rancher_flat_network.Cni.Route.{is_default_route, same_address_family, is_replaced}

abbrev pub zero_v4 : Ip
zero_v4 = 0 ∷ 0 ∷ 0 ∷ 0 ∷ []

abbrev pub zero_mapped : Ip
zero_mapped = 0 ∷ 0 ∷ 0 ∷ 0 ∷ 0 ∷ 0 ∷ 0 ∷ 0 ∷ 0 ∷ 0 ∷ 255 ∷ 255 ∷ 0 ∷ 0 ∷ 0 ∷ 0 ∷ []

abbrev pub zero_v6 : Ip
zero_v6 = 0 ∷ 0 ∷ 0 ∷ 0 ∷ 0 ∷ 0 ∷ 0 ∷ 0 ∷ 0 ∷ 0 ∷ 0 ∷ 0 ∷ 0 ∷ 0 ∷ 0 ∷ 0 ∷ []

-- The route has no destination, or one at the address 0.0.0.0, in 4 or 16 bytes, or `::`.
abbrev pub IsDefault : KernelRoute → Type 0
IsDefault r =
    (r.dst ≡ none)
    ⊎ ((n : IpNet) × (r.dst ≡ some n)
        × ((n.ip ≡ zero_v4) ⊎ (n.ip ≡ zero_mapped) ⊎ (n.ip ≡ zero_v6)))

-- An IPv4 route for an address with a form of 4 bytes, an IPv6 one for an address without, or a
-- route of all families.
abbrev pub IsOfFamily : Ip → KernelRoute → Type 0
IsOfFamily ip r =
    ((r.family ≡ family_v4) × (is_empty (to4 ip) ≡ false))
    ⊎ ((r.family ≡ family_v6) × (is_empty (to4 ip) ≡ true))
    ⊎ (r.family ≡ family_all)

abbrev pub IsWanted : Ip → KernelRoute → Type 0
IsWanted ip r = IsDefault r × IsOfFamily ip r

equals_mapped : (a : Ip) → ip_equal a zero_mapped ≡ true → (a ≡ zero_v4) ⊎ (a ≡ zero_mapped)
unfolding ip_equal compare_bytes
equals_mapped a e = elim (Bool-cases (length a == 16)) [
  | inl long ↦
      let f : ip_equal a zero_mapped ≡ eq_bytes a zero_mapped = rw long refl in
      inr (eq_of_eq_bytes a zero_mapped (sym f ∙ e))
  | inr other ↦ elim (Bool-cases (length a == 4)) [
    | inl four ↦
        let f : ip_equal a zero_mapped ≡ eq_bytes a zero_v4 = rw other (rw four refl) in
        inl (eq_of_eq_bytes a zero_v4 (sym f ∙ e))
    | inr neither ↦ let f : ip_equal a zero_mapped ≡ false = rw other (rw neither refl) in absurd cc
  ]
]

equals_v6 : (a : Ip) → ip_equal a zero_v6 ≡ true → a ≡ zero_v6
unfolding ip_equal compare_bytes
equals_v6 a e = elim (Bool-cases (length a == 16)) [
  | inl long ↦
      let f : ip_equal a zero_v6 ≡ eq_bytes a zero_v6 = rw long refl in
      eq_of_eq_bytes a zero_v6 (sym f ∙ e)
  | inr other ↦ elim (Bool-cases (length a == 4)) [
    | inl four ↦ let f : ip_equal a zero_v6 ≡ false = rw other (rw four refl) in absurd cc
    | inr neither ↦ let f : ip_equal a zero_v6 ≡ false = rw other (rw neither refl) in absurd cc
  ]
]

mapped_is : parse_ip (codes "0.0.0.0") ≡ zero_mapped
unfolding parse_ip to16
mapped_is = refl

v6_is : parse_ip (codes "::") ≡ zero_v6
unfolding parse_ip to16
v6_is = refl

dst_of : (d : Option IpNet) → (d ≡ none) ⊎ ((n : IpNet) × (d ≡ some n))
dst_of none = inl refl
dst_of (some n) = inr (n, refl)

IsDefault-of : (r : KernelRoute) → is_default_route r ≡ true → IsDefault r
unfolding is_default_route
IsDefault-of r e = elim (dst_of r.dst) [
  | inl p ↦ inl p
  | inr (n, p) ↦
      let f : is_default_route r ≡ (ip_equal n.ip zero_mapped || ip_equal n.ip zero_v6) =
        rw p (rw mapped_is (rw v6_is refl)) in
      elim (Bool-cases (ip_equal n.ip zero_mapped)) [
        | inl m ↦ elim (equals_mapped n.ip m) [
          | inl q ↦ inr (n, p, inl q)
          | inr q ↦ inr (n, p, inr (inl q))
        ]
        | inr m ↦
            let v : ip_equal n.ip zero_v6 ≡ true = ground arith in
            inr (n, p, inr (inr (equals_v6 n.ip v)))
      ]
]

is_default_route-of : (r : KernelRoute) → IsDefault r → is_default_route r ≡ true
unfolding is_default_route ip_equal compare_bytes
is_default_route-of r (inl p) = rw p refl
is_default_route-of r (inr (n, p, q)) = rw p (rw mapped_is (rw v6_is (at n.ip q)))
  where
    at :
        (a : Ip)
        → (a ≡ zero_v4) ⊎ (a ≡ zero_mapped) ⊎ (a ≡ zero_v6)
        → (ip_equal a zero_mapped || ip_equal a zero_v6) ≡ true
    at a (inl q) = rw q refl
    at a (inr (inl q)) = rw q refl
    at a (inr (inr q)) = rw q refl

family_iff : (ip : Ip) (r : KernelRoute) → (same_address_family r ip ≡ true) ↔ IsOfFamily ip r
unfolding same_address_family
family_iff ip r = (of r.family refl, λ q. back q)
  where
    of : (f : Family) → r.family ≡ f → same_address_family r ip ≡ true → IsOfFamily ip r
    of family_v4 p e = inl (p, ground (arith, p, e))
    of family_v6 p e = inr (inl (p, ground (arith, p, e)))
    of family_all p e = inr (inr p)
    of (family_other n) p e = absurd (ground (arith, p, e))

    back : IsOfFamily ip r → same_address_family r ip ≡ true
    back (inl (p, q)) = rw p (rw q refl)
    back (inr (inl (p, q))) = rw p q
    back (inr (inr p)) = rw p refl

pub is_replaced-cases :
    (ip : Ip) (r : KernelRoute)
    → ((is_replaced ip r ≡ true) × IsWanted ip r) ⊎ ((is_replaced ip r ≡ false) × ¬ IsWanted ip r)
unfolding is_replaced
is_replaced-cases ip r =
    let family = family_iff ip r in
    elim (Bool-cases (is_default_route r)) [
      | inr d ↦ inr (rw d refl, λ w. let x = is_default_route-of r w.0 in cc)
      | inl d ↦ elim (Bool-cases (same_address_family r ip)) [
        | inl f ↦ inl (rw d f, (IsDefault-of r d, family.0 f))
        | inr f ↦ inr (rw d f, λ w. let x = family.1 w.1 in cc)
      ]
    ]
