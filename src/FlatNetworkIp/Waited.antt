-- ===== src/FlatNetworkIp/Waited.antt =====
-- What handleIPRemove waits for.
use rancher_flat_network.Prelude.{
  ℕ, suc, zero, ◌<◌, ◌≡◌, refl, true, false, ◌∷◌, Option, none, some, ◌⊎◌, inl, inr, Bool-cases,
  arith, sym, subst,
}
use rancher_flat_network.Net.{eq_bytes}
use rancher_flat_network.Slices.Order.{eq_bytes_refl, eq_of_eq_bytes}
use rancher_flat_network.Types.{FlatNetworkIp, Error, pod_remove_timeout, Result, ok, err}
use rancher_flat_network.Cluster.{
  Cluster, Pod, History, Outcome, returned, get_pod, sleep, is_not_found,
}
use rancher_flat_network.FlatNetworkIp.Recorded.{given}
use rancher_flat_network.FlatNetworkIp.Handlers.{pod_cache_get}
use rancher_flat_network.FlatNetworkIp.Remove.{still_deleting, wait_pod_removed}

-- The pod has the UID that the IP was made for and is being deleted.
abbrev pub IsDeleting : FlatNetworkIp → Pod → Type 0
IsDeleting ip pod = ((t : ℕ) × (pod.deletion_timestamp ≡ some t)) × (pod.uid ≡ ip.spec.pod_id)

-- No pod of the IP's name; or one that is not being deleted, or that has another UID.
abbrev pub IsGone : FlatNetworkIp → Result Pod → Type 0
IsGone ip r =
    ((e : Error) × (r ≡ err e) × (is_not_found e ≡ true))
    ⊎ ((pod : Pod) × (r ≡ ok pod)
        × ((pod.deletion_timestamp ≡ none) ⊎ ¬ (pod.uid ≡ ip.spec.pod_id)))

timestamp_of : (t : Option ℕ) → (t ≡ none) ⊎ ((x : ℕ) × (t ≡ some x))
timestamp_of none = inl refl
timestamp_of (some x) = inr (x, refl)

module _ (c : Cluster) (ip : FlatNetworkIp) where
  -- The history behind a number of rounds, each of which reads the pod and sleeps.
  abbrev pub rounds : ℕ → History → History
  rounds zero h = h
  rounds (suc n) h = rounds n (sleep ∷ get_pod ip.namespace ip.name ∷ h)

  -- In each of these rounds the pod that is read is still being deleted.
  abbrev pub Waits : ℕ → History → Type 0
  Waits zero h = Unit
  Waits (suc n) h =
      ((pod : Pod) × (c.pod_at h ip.namespace ip.name ≡ ok pod) × IsDeleting ip pod)
      × Waits n (sleep ∷ get_pod ip.namespace ip.name ∷ h)

  -- One more read of the pod ends the loop.
  abbrev pub Ends : History → Outcome (Option Error) × History → Type 0
  Ends h out =
      ((out ≡ (returned none, get_pod ip.namespace ip.name ∷ h))
        × IsGone ip (c.pod_at h ip.namespace ip.name))
      ⊎ ((e : Error) × (out ≡ (returned (some e), get_pod ip.namespace ip.name ∷ h))
          × (c.pod_at h ip.namespace ip.name ≡ err e)
          × (is_not_found e ≡ false))

  abbrev pub Waited : ℕ → History → Outcome (Option Error) × History → Type 0
  Waited n h out =
      ((k : ℕ) × (k < n) × Waits k h × Ends (rounds k h) out)
      ⊎ ((out ≡ (returned (some pod_remove_timeout), rounds n h)) × Waits n h)

  Waited-step :
      (n : ℕ) (h : History) (out : Outcome (Option Error) × History) (pod : Pod)
      → c.pod_at h ip.namespace ip.name ≡ ok pod
      → IsDeleting ip pod
      → Waited n (sleep ∷ get_pod ip.namespace ip.name ∷ h) out
      → Waited (suc n) h out
  Waited-step n h out pod p d (inl (k, lt, w, e)) =
      inl (suc k, omega (arith, lt), ((pod, p, d), w), e)
  Waited-step n h out pod p d (inr (e, w)) = inr (e, ((pod, p, d), w))

  still_deleting-cases :
      (pod : Pod)
      → ((still_deleting c ip pod ≡ true) × IsDeleting ip pod)
        ⊎ ((still_deleting c ip pod ≡ false)
            × ((pod.deletion_timestamp ≡ none) ⊎ ¬ (pod.uid ≡ ip.spec.pod_id)))
  unfolding still_deleting
  still_deleting-cases pod = elim (timestamp_of pod.deletion_timestamp) [
    | inl e ↦ inr (rw e refl, inl e)
    | inr (t, e) ↦ elim (Bool-cases (eq_bytes pod.uid ip.spec.pod_id)) [
      | inl same ↦ inl (rw e same, ((t, e), eq_of_eq_bytes pod.uid ip.spec.pod_id same))
      | inr other ↦ inr (
        rw e other,
        inr (λ s. let r = eq_bytes_refl ip.spec.pod_id in ground (arith, r, s, other)),
      )
    ]
  ]

  -- The loop of at most `n` rounds ends in one of three ways, behind fewer than `n` rounds, or `n` in the last
  -- case, in all of which the cluster answered with a pod of the IP's UID that was being deleted. It ends without
  -- an error, where the next answer is that there is no pod of the name, or a pod that is not being deleted (of
  -- whichever UID) or has another UID. It ends with the error of that answer, where it is another one. Or the `n`
  -- rounds are over, and it ends with the timeout.
  pub wait_pod_removed-Waited : (n : ℕ) (h : History) → Waited n h (wait_pod_removed c n ip h)
  unfolding wait_pod_removed pod_cache_get
  wait_pod_removed-Waited zero h = inr (refl, tt)
  wait_pod_removed-Waited (suc n) h = elim (given (c.pod_at h ip.namespace ip.name)) [
    | inr (e, p) ↦ elim (Bool-cases (is_not_found e)) [
      | inl gone ↦ inl (zero, omega arith, tt, inl (rw p (rw gone refl), inl (e, p, gone)))
      | inr fails ↦ inl (zero, omega arith, tt, inr (e, rw p (rw fails refl), p, fails))
    ]
    | inl (pod, p) ↦ elim (still_deleting-cases pod) [
      | inl (waits, d) ↦
          let h1 = sleep ∷ get_pod ip.namespace ip.name ∷ h in
          let ih = Waited-step n h _ pod p d (wait_pod_removed-Waited n h1) in
          let e : wait_pod_removed c (suc n) ip h ≡ wait_pod_removed c n ip h1 =
            rw p (rw waits refl) in
          subst (λ o. Waited (suc n) h o) (sym e) ih
      | inr (stops, gone) ↦
          inl (zero, omega arith, tt, inl (rw p (rw stops refl), inr (pod, p, gone)))
    ]
  ]
