-- ===== src/FlatNetworkSubnet/SelfCheck.antt =====
-- What the self-check of a subnet does to the pods of duplicated addresses.
use rancher_flat_network.Prelude.{
  ◌≡◌, refl, true, List, [], ◌∷◌, All, Bool-cases, inl, inr, Option, none, some, ◌⊎◌, sym, subst,
}
use rancher_flat_network.Types.{FlatNetworkIp, Error}
use rancher_flat_network.Cluster.{
  Cluster, Call, History, Outcome, returned, delete_pod, is_not_found,
}
use rancher_flat_network.FlatNetworkIp.Recorded.{IsCalled}
use rancher_flat_network.FlatNetworkSubnet.Used.{has_address}
use rancher_flat_network.FlatNetworkSubnet.Handlers.{cleanup_duplicated_ips}
use rancher_flat_network.FlatNetworkIp.Handlers.{pod_delete}

-- The pod of every IP that has an address and is not being deleted has been deleted.
abbrev pub AllDeleted : History → List FlatNetworkIp → Type 0
AllDeleted h = All (λ ip. has_address ip ≡ true → IsCalled (delete_pod ip.namespace ip.name) h)

answered : (o : Option Error) → (o ≡ none) ⊎ ((x : Error) × (o ≡ some x))
answered none = inl refl
answered (some x) = inr (x, refl)

-- What a clean-up comes to that began with the history `h`.
abbrev pub Cleaned : History → List FlatNetworkIp → Outcome (Option Error) × History → Type 0
Cleaned h ips out =
    (out.0 ≡ returned none → AllDeleted out.1 ips)
    × ((call : Call) → IsCalled call h → IsCalled call out.1)

module _ (c : Cluster) where
  -- Clean-up of duplicates, run on a list of IPs: without an error it has deleted the pod of every IP
  -- of that list that has an address and is not being deleted, whether its address is a duplicate or
  -- not; and every call made before is still in the history.
  pub cleanup_duplicated_ips-Cleaned :
      (ips : List FlatNetworkIp) (h : History) → Cleaned h ips (cleanup_duplicated_ips c ips h)
  unfolding cleanup_duplicated_ips pod_delete
  cleanup_duplicated_ips-Cleaned [] h = ((λ e. tt), λ call p. p)
  cleanup_duplicated_ips-Cleaned (ip ∷ ips) h = elim (Bool-cases (has_address ip)) [
    | inr without ↦
        let ih = cleanup_duplicated_ips-Cleaned ips h in
        let e : cleanup_duplicated_ips c (ip ∷ ips) h ≡ cleanup_duplicated_ips c ips h =
          rw without refl in
        subst (Cleaned h (ip ∷ ips)) (sym e) ((λ f. ((λ p. absurd cc), ih.0 f)), ih.1)
    | inl with_one ↦
        let h1 = delete_pod ip.namespace ip.name ∷ h in
        let ih = cleanup_duplicated_ips-Cleaned ips h1 in
        let goes_on : Cleaned h (ip ∷ ips) (cleanup_duplicated_ips c ips h1) =
          ((λ f. ((λ p. ih.1 _ (inl refl)), ih.0 f)), λ call p. ih.1 call (inr p)) in
        elim (answered (c.pod_deleted h ip.namespace ip.name)) [
          | inl none_answered ↦
              let e : cleanup_duplicated_ips c (ip ∷ ips) h ≡ cleanup_duplicated_ips c ips h1 =
                rw with_one (rw none_answered refl) in
              subst (Cleaned h (ip ∷ ips)) (sym e) goes_on
          | inr (x, e) ↦ elim (Bool-cases (is_not_found x)) [
            | inl gone ↦
                let e : cleanup_duplicated_ips c (ip ∷ ips) h ≡ cleanup_duplicated_ips c ips h1 =
                  rw with_one (rw e (rw gone refl)) in
                subst (Cleaned h (ip ∷ ips)) (sym e) goes_on
            | inr fails ↦
                let e : cleanup_duplicated_ips c (ip ∷ ips) h ≡ (returned (some x), h1) =
                  rw with_one (rw e (rw fails refl)) in
                subst (Cleaned h (ip ∷ ips)) (sym e) ((λ f. absurd cc), λ call p. inr p)
          ]
        ]
  ]
