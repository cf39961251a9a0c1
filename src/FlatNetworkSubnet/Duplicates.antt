-- ===== src/FlatNetworkSubnet/Duplicates.antt =====
-- When filterDuplicatedIP of pkg/controller/flatnetworksubnet finds nothing.
use rancher_flat_network.Prelude.{
  ◌≡◌, refl, Bool, true, false, not, ◌&&◌, ◌||◌, List, [], ◌∷◌, arith, is_empty, All, Bool-cases,
  inl, inr, ◌↔◌, sym, ◌∙◌,
}
use rancher_flat_network.Net.{Bytes, eq_bytes}
use rancher_flat_network.Types.{FlatNetworkIp}
use rancher_flat_network.FlatNetworkSubnet.Used.{
  has_address, ip_text, owner_of, duplicates_from, filter_duplicated_ip,
}

-- Both IPs have an address and are not being deleted, and the addresses have the same text.
abbrev pub clashes : FlatNetworkIp → FlatNetworkIp → Bool
clashes i j =
    has_address i && has_address j && eq_bytes (ip_text i.status.addr) (ip_text j.status.addr)

abbrev pub NoneClash : List FlatNetworkIp → Type 0
NoneClash [] = Unit {0}
NoneClash (i ∷ is) = All (λ j. clashes i j ≡ false) is × NoneClash is

abbrev unseen : List (Bytes × Bytes) → FlatNetworkIp → Bool
unseen seen j = not (has_address j) || is_empty (owner_of (ip_text j.status.addr) seen)

abbrev AllUnseen : List (Bytes × Bytes) → List FlatNetworkIp → Type 0
AllUnseen seen = All (λ j. unseen seen j ≡ true)

abbrev pub AllNamed : List FlatNetworkIp → Type 0
AllNamed = All (λ j. is_empty j.name ≡ false)

module _ (i : FlatNetworkIp) (present : has_address i ≡ true)
    (named : is_empty i.name ≡ false) where
  AllUnseen-more :
      (seen : List (Bytes × Bytes)) (is : List FlatNetworkIp)
      → AllUnseen ((ip_text i.status.addr, i.name) ∷ seen) is
        ↔ (All (λ j. clashes i j ≡ false) is × AllUnseen seen is)
  unfolding owner_of
  AllUnseen-more seen [] = ((λ e. (tt, tt)), λ e. tt)
  AllUnseen-more seen (j ∷ is) =
      let ih = AllUnseen-more seen is in
      (
        (λ e. ((ground arith, (ih.0 e.1).0), (ground arith, (ih.0 e.1).1))),
        λ e. (ground arith, ih.1 (e.0.1, e.1.1)),
      )

none_clash_absent :
    (i : FlatNetworkIp) (is : List FlatNetworkIp)
    → has_address i ≡ false
    → All (λ j. clashes i j ≡ false) is
none_clash_absent i [] e = tt
none_clash_absent i (j ∷ is) e = (ground arith, none_clash_absent i is e)

duplicates_from_iff :
    (seen : List (Bytes × Bytes)) (is : List FlatNetworkIp)
    → AllNamed is
    → (duplicates_from seen is ≡ []) ↔ (AllUnseen seen is × NoneClash is)
unfolding duplicates_from
duplicates_from_iff seen [] n = ((λ e. (tt, tt)), λ e. refl)
duplicates_from_iff seen (i ∷ is) n = elim (Bool-cases (has_address i)) [
  | inr absent ↦
      let ih = duplicates_from_iff seen is n.1 in
      let e : duplicates_from seen (i ∷ is) ≡ duplicates_from seen is = rw absent refl in
      (
        (λ f.
            let g = ih.0 (sym e ∙ f) in
            ((ground arith, g.0), (none_clash_absent i is absent, g.1))),
        λ f. e ∙ ih.1 (f.0.1, f.1.1),
      )
  | inl present ↦
      let ih = duplicates_from_iff ((ip_text i.status.addr, i.name) ∷ seen) is n.1 in
      let more = AllUnseen-more i present n.0 seen is in
      elim (Bool-cases (is_empty (owner_of (ip_text i.status.addr) seen))) [
        | inl free ↦
            let e : duplicates_from seen (i ∷ is)
                ≡ duplicates_from ((ip_text i.status.addr, i.name) ∷ seen) is =
              rw present (rw free refl) in
            (
              (λ f.
                  let g = ih.0 (sym e ∙ f) in
                  let m = more.0 g.0 in ((ground arith, m.1), (m.0, g.1))),
              λ f. e ∙ ih.1 (more.1 (f.1.0, f.0.1), f.1.1),
            )
        | inr taken ↦
            let e : duplicates_from seen (i ∷ is) ≡ i ∷ duplicates_from seen is =
              rw present (rw taken refl) in
            ((λ f. absurd cc), λ f. absurd (ground (arith, f.0.0)))
      ]
]

-- For IPs with names, filterDuplicatedIP finds no duplicate just where no two IPs that have an address
-- and are not being deleted have addresses of the same text.
pub filter_duplicated_ip_iff :
    (is : List FlatNetworkIp) → AllNamed is → (filter_duplicated_ip is ≡ []) ↔ NoneClash is
unfolding filter_duplicated_ip owner_of
filter_duplicated_ip_iff is n =
    let r = duplicates_from_iff [] is n in ((λ e. (r.0 e).1), λ e. r.1 (none_seen is, e))
  where
    none_seen : (js : List FlatNetworkIp) → AllUnseen [] js
    none_seen [] = tt
    none_seen (j ∷ js) = (ground arith, none_seen js)
