-- ===== src/Pod/Ensured.antt =====
-- What ensureFlatNetworkIP does behind the read of the cache and the making of the expected IP.
use rancher_flat_network.Prelude.{
  ◌≡◌, refl, true, false, ◌∷◌, ◌++◌, Option, none, some, Bool-cases, inl, inr, ◌⊎◌, sym, subst,
}
use rancher_flat_network.Types.{FlatNetworkIp, Error, Result, ok, err}
use rancher_flat_network.Cluster.{
  Cluster, Retries, Pod, Outcome, History, returned, get_ip, create_ip, update_ip,
  is_already_exists, continue, then_or_err,
}
use rancher_flat_network.FlatNetworkIp.Recorded.{given}
use rancher_flat_network.Pod.NewIp.{flat_network_ip_updated}
use rancher_flat_network.FlatNetworkIp.Handlers.{ip_cache_get}
use rancher_flat_network.Pod.Handlers.{
  adopt, ip_create, ip_update, update_exist, create_expected, ensure_expected,
}

-- The IP with the owners, the labels, the annotations and the spec of the expected one.
abbrev pub adopted : FlatNetworkIp → FlatNetworkIp → FlatNetworkIp
adopted expected i = record i {
  owner_references = expected.owner_references;
  labels = expected.labels;
  annotations = expected.annotations;
  spec = expected.spec;
}

module _ (c : Cluster) where
  -- The one call behind `h` creates the expected IP. What the server answered with is returned; or,
  -- where it answered that the IP exists, the expected IP as it is; or its other error.
  abbrev pub IsCreated : FlatNetworkIp → History → Outcome (Result FlatNetworkIp) × History → Type 0
  IsCreated expected h out =
      ((j : FlatNetworkIp) × (c.ip_created h expected ≡ ok j)
        × (out ≡ (returned (ok j), create_ip expected ∷ h)))
      ⊎ ((e : Error) × (c.ip_created h expected ≡ err e)
          × (is_already_exists e ≡ true)
          × (out ≡ (returned (ok expected), create_ip expected ∷ h)))
      ⊎ ((e : Error) × (c.ip_created h expected ≡ err e)
          × (is_already_exists e ≡ false)
          × (out ≡ (returned (err e), create_ip expected ∷ h)))

  -- Behind `h`, the pod's IP is read and written with what it adopts, and then the expected IP is created; or
  -- the read or the write fails, which ends it with that error.
  abbrev pub IsUpdated :
      FlatNetworkIp → Pod → History → Outcome (Result FlatNetworkIp) × History → Type 0
  IsUpdated expected pod h out =
      let h1 = get_ip pod.namespace pod.name ∷ h in
      ((e : Error) × (c.ip_at h pod.namespace pod.name ≡ err e) × (out ≡ (returned (err e), h1)))
      ⊎ ((i : FlatNetworkIp) × (e : Error) × (c.ip_at h pod.namespace pod.name ≡ ok i)
          × (c.ip_updated h1 (adopted expected i) ≡ err e)
          × (out ≡ (returned (err e), update_ip (adopted expected i) ∷ h1)))
      ⊎ ((i : FlatNetworkIp) × (j : FlatNetworkIp) × (c.ip_at h pod.namespace pod.name ≡ ok i)
          × (c.ip_updated h1 (adopted expected i) ≡ ok j)
          × IsCreated expected (update_ip (adopted expected i) ∷ h1) out)

  abbrev pub Ensured :
      Option FlatNetworkIp
      → FlatNetworkIp
      → Pod
      → History
      → Outcome (Result FlatNetworkIp) × History
      → Type 0
  Ensured cached expected pod h out =
      ((cached ≡ none) × IsCreated expected h out)
      ⊎ ((a : FlatNetworkIp) × (cached ≡ some a)
          × (flat_network_ip_updated a expected ≡ true)
          × (out ≡ (returned (ok a), h)))
      ⊎ ((a : FlatNetworkIp) × (cached ≡ some a)
          × (flat_network_ip_updated a expected ≡ false)
          × ((earlier : History) × IsUpdated expected pod (earlier ++ h) out))

  create_expected-IsCreated :
      (expected : FlatNetworkIp) (h : History) → IsCreated expected h (create_expected c expected h)
  unfolding create_expected ip_create
  create_expected-IsCreated expected h = elim (given (c.ip_created h expected)) [
    | inl (j, p) ↦ inl (j, p, rw p refl)
    | inr (e, p) ↦ elim (Bool-cases (is_already_exists e)) [
      | inl there ↦ inr (inl (e, p, there, rw p (rw there refl)))
      | inr fails ↦ inr (inr (e, p, fails, rw p (rw fails refl)))
    ]
  ]

  -- The update, and the creation where it went well.
  updated_and_created :
      FlatNetworkIp
      → Outcome (Result FlatNetworkIp) × History
      → Outcome (Result FlatNetworkIp) × History
  updated_and_created expected q =
      continue q.0 (λ r. then_or_err r (λ i. create_expected c expected)) q.1

  update_exist-IsUpdated :
      (expected : FlatNetworkIp) (pod : Pod) (h : History)
      → IsUpdated expected pod h (updated_and_created expected (update_exist c expected pod h))
  unfolding updated_and_created update_exist ip_update adopt ip_cache_get
  update_exist-IsUpdated expected pod h = elim (given (c.ip_at h pod.namespace pod.name)) [
    | inr (e, p) ↦ inl (e, p, rw p refl)
    | inl (i, p) ↦
        let h1 = get_ip pod.namespace pod.name ∷ h in
        let h2 = update_ip (adopted expected i) ∷ h1 in
        elim (given (c.ip_updated h1 (adopted expected i))) [
          | inr (e, q) ↦ inr (inl (i, e, p, q, rw p (rw q refl)))
          | inl (j, q) ↦
              let is : updated_and_created expected (update_exist c expected pod h)
                  ≡ create_expected c expected h2 =
                rw p (rw q refl) in
              inr (
                inr (
                  i,
                  j,
                  p,
                  q,
                  subst (λ o. IsCreated expected h2 o) (sym is)
                      (create_expected-IsCreated expected h2),
                ))
        ]
  ]

  -- RetryOnConflict gives the result of its last attempt. Without an IP in the cache, the expected one is created.
  -- A cached IP that flatNetworkIPUpdated finds up to date is returned, and nothing is called. One that it finds
  -- out of date leads to an attempt, behind those that are repeated, that reads the pod's IP and writes it with the
  -- owners, labels, annotations and spec of the expected one; an error of the read or the write ends it. After a
  -- write that went well the expected IP is created, too. Where an IP is created and the server answers that it
  -- exists, the expected IP as it is, not what was read or written, is returned without an error; otherwise
  -- what the server answers is returned, an error too.
  pub ensure_expected-Ensured :
      Retries c
      → (cached : Option FlatNetworkIp) (expected : FlatNetworkIp) (pod : Pod) (h : History)
      → Ensured cached expected pod h (ensure_expected c cached expected pod h)
  unfolding ensure_expected updated_and_created
  ensure_expected-Ensured law none expected pod h = inl (refl, create_expected-IsCreated expected h)
  ensure_expected-Ensured law (some a) expected pod h =
      elim (Bool-cases (flat_network_ip_updated a expected)) [
        | inl up ↦ inr (inl (a, refl, up, rw up refl))
        | inr old ↦
            let (x, p) = law.last_attempt FlatNetworkIp (update_exist c expected pod) h in
            let is : ensure_expected c (some a) expected pod h
                ≡ updated_and_created expected (update_exist c expected pod (x ++ h)) =
              rw old (rw p refl) in
            inr (
              inr (
                a,
                refl,
                old,
                (
                  x,
                  subst (λ o. IsUpdated expected pod (x ++ h) o) (sym is)
                      (update_exist-IsUpdated expected pod (x ++ h)),
                ),
              ))
      ]
