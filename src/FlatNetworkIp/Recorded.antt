-- ===== src/FlatNetworkIp/Recorded.antt =====
-- The order of the two updates of onIPCreate, and how it fails.
use rancher_flat_network.Prelude.{◌≡◌, refl, [], ◌∷◌, ◌++◌, Option, none, some, ◌⊎◌, inl, inr, ℕ}
use rancher_flat_network.Net.{Bytes, Ip}
use rancher_flat_network.Types.{
  subnet_namespace, FlatNetworkIp, FlatNetworkSubnet, Error, Result, ok, err, pending,
}
use rancher_flat_network.Cluster.{
  Call, Cluster, Retries, History, Outcome, returned, panicked, update_subnet_status, get_subnet,
  get_ip, now, update_ip_status, event,
}
use rancher_flat_network.FlatNetworkIp.Allocate.{take_addresses, fall_back}
use rancher_flat_network.FlatNetworkIp.Handlers.{
  update_subnet_used, update_ip_pending, fall_back_subnet, record_addresses, record_pending,
}

-- A call stands in the history.
abbrev pub IsCalled : Call → History → Type 0
IsCalled call [] = ⊥
IsCalled call (x ∷ h) = (x ≡ call) ⊎ IsCalled call h

abbrev pub Given : {A : Type 0} → Result A → Type 0
Given {A} r = ((a : A) × (r ≡ ok a)) ⊎ ((e : Error) × (r ≡ err e))

pub given : {A : Type 0} (r : Result A) → Given r
given (ok a) = inl (a, refl)
given (err e) = inr (e, refl)

-- The IP as the second update writes it.
abbrev pub set_pending : Ip → Bytes → ℕ → FlatNetworkIp → FlatNetworkIp
set_pending addr mac t i = record i {
  status = record (i.status) { addr = addr; mac = mac; phase = pending; allocated_time_stamp = t };
}

module _ (c : Cluster) (addr : Ip) (mac : Bytes) (ip : FlatNetworkIp) where
  -- The last calls read the IP's subnet as some `s`, and write the status that takes the addresses in;
  -- the API server has accepted it, and answered with `t`.
  abbrev pub IsTaken : FlatNetworkSubnet → History → Type 0
  IsTaken t h =
      (s : FlatNetworkSubnet) × (h0 : History) × (c.subnet_at h0 subnet_namespace ip.spec.subnet
        ≡ ok s)
      × (c.subnet_status_updated (get_subnet subnet_namespace ip.spec.subnet ∷ h0)
            (take_addresses addr mac s)
          ≡ ok t)
      × (h
          ≡ update_subnet_status (take_addresses addr mac s)
            ∷ get_subnet subnet_namespace ip.spec.subnet
            ∷ h0)

  -- The last calls read the IP's subnet, or read it and write that status; the last of them failed.
  abbrev pub NotTaken : Error → History → Type 0
  NotTaken e h =
      ((h0 : History) × (c.subnet_at h0 subnet_namespace ip.spec.subnet ≡ err e)
        × (h ≡ get_subnet subnet_namespace ip.spec.subnet ∷ h0))
      ⊎ ((s : FlatNetworkSubnet) × (h0 : History) × (c.subnet_at h0 subnet_namespace ip.spec.subnet
            ≡ ok s)
          × (c.subnet_status_updated (get_subnet subnet_namespace ip.spec.subnet ∷ h0)
                (take_addresses addr mac s)
              ≡ err e)
          × (h
              ≡ update_subnet_status (take_addresses addr mac s)
                ∷ get_subnet subnet_namespace ip.spec.subnet
                ∷ h0))

  -- The last calls, behind `h1`, read the IP as some `i`, read the clock, and write the status that has the
  -- addresses, the phase pending and that time; the API server has accepted it, and answered with `j`.
  abbrev pub IsPending : FlatNetworkIp → History → History → Type 0
  IsPending j h1 h =
      (i : FlatNetworkIp) × (x : History) × (c.ip_at (x ++ h1) ip.namespace ip.name ≡ ok i)
      × (c.ip_status_updated (now ∷ get_ip ip.namespace ip.name ∷ x ++ h1)
            (set_pending addr mac (c.time_at (get_ip ip.namespace ip.name ∷ x ++ h1)) i)
          ≡ ok j)
      × (h
          ≡ update_ip_status
                (set_pending addr mac (c.time_at (get_ip ip.namespace ip.name ∷ x ++ h1)) i)
              ∷ now
              ∷ get_ip ip.namespace ip.name
              ∷ x
            ++ h1)

  -- The last calls, behind `h1`, read the IP, or read it and write that status; the last of them failed.
  abbrev pub NotPending : History → History → Type 0
  NotPending h1 h =
      ((x : History) × (e : Error) × (c.ip_at (x ++ h1) ip.namespace ip.name ≡ err e)
        × (h ≡ get_ip ip.namespace ip.name ∷ x ++ h1))
      ⊎ ((i : FlatNetworkIp) × (x : History) × (e : Error) × (c.ip_at (x ++ h1) ip.namespace ip.name
            ≡ ok i)
          × (c.ip_status_updated (now ∷ get_ip ip.namespace ip.name ∷ x ++ h1)
                (set_pending addr mac (c.time_at (get_ip ip.namespace ip.name ∷ x ++ h1)) i)
              ≡ err e)
          × (h
              ≡ update_ip_status
                    (set_pending addr mac (c.time_at (get_ip ip.namespace ip.name ∷ x ++ h1)) i)
                  ∷ now
                  ∷ get_ip ip.namespace ip.name
                  ∷ x
                ++ h1))

  abbrev AfterFirst : Outcome (Result FlatNetworkSubnet) × History → Type 0
  AfterFirst out =
      ((e : Error) × (out.0 ≡ returned (err e)) × NotTaken e out.1)
      ⊎ ((t : FlatNetworkSubnet) × (out.0 ≡ returned (ok t)) × IsTaken t out.1)

  after_first : (h : History) → AfterFirst (update_subnet_used c addr mac ip h)
  unfolding update_subnet_used
  after_first h = elim (given (c.subnet_at h subnet_namespace ip.spec.subnet)) [
    | inr (e, p) ↦ rw p (inl (e, refl, inl (h, p, refl)))
    | inl (s, p) ↦
        let h1 = get_subnet subnet_namespace ip.spec.subnet ∷ h in
        elim (given (c.subnet_status_updated h1 (take_addresses addr mac s))) [
          | inr (e, q) ↦ rw p (rw q (inl (e, refl, inr (s, h, p, q, refl))))
          | inl (t, q) ↦ rw p (rw q (inr (t, refl, (s, h, p, q, refl))))
        ]
  ]

  abbrev AfterSecond : History → Outcome (Result FlatNetworkIp) × History → Type 0
  AfterSecond h1 out =
      ((e : Error) × (out.0 ≡ returned (err e)) × NotPending h1 out.1)
      ⊎ ((j : FlatNetworkIp) × (out.0 ≡ returned (ok j)) × IsPending j h1 out.1)

  after_second : (x h1 : History) → AfterSecond h1 (update_ip_pending c addr mac ip (x ++ h1))
  unfolding update_ip_pending
  after_second x h1 = elim (given (c.ip_at (x ++ h1) ip.namespace ip.name)) [
    | inr (e, p) ↦ rw p (inl (e, refl, inl (x, e, p, refl)))
    | inl (i, p) ↦
        let h2 = get_ip ip.namespace ip.name ∷ x ++ h1 in
        elim (given (c.ip_status_updated (now ∷ h2) (set_pending addr mac (c.time_at h2) i))) [
          | inr (e, q) ↦ rw p (rw q (inl (e, refl, inr (i, x, e, p, q, refl))))
          | inl (j, q) ↦ rw p (rw q (inr (j, refl, (i, x, p, q, refl))))
        ]
  ]

  -- How the two updates end, with all that is called behind them.
  abbrev pub Recorded : Outcome (FlatNetworkIp × Option Error) × History → Type 0
  Recorded out =
      ((e : Error) × (h1 : History) × NotTaken e h1 × (out ≡ (returned (ip, some e), event e ∷ h1)))
      ⊎ ((t : FlatNetworkSubnet) × (j : FlatNetworkIp) × (h1 : History) × IsTaken t h1
          × IsPending j h1 out.1
          × (out.0 ≡ returned (j, none)))
      ⊎ ((t : FlatNetworkSubnet) × (e : Error) × (h1 : History) × (h2 : History) × IsTaken t h1
          × NotPending h1 h2
          × (c.subnet_status_updated h2 (fall_back addr mac t) ≡ err e)
          × (out ≡ (
            returned (ip, some e),
            event e ∷ update_subnet_status (fall_back addr mac t) ∷ h2,
          )))
      ⊎ ((t : FlatNetworkSubnet) × (u : FlatNetworkSubnet) × (h1 : History) × (h2 : History)
          × IsTaken t h1
          × NotPending h1 h2
          × (c.subnet_status_updated h2 (fall_back addr mac t) ≡ ok u)
          × (out ≡ (panicked, update_subnet_status (fall_back addr mac t) ∷ h2)))

  after_fall_back :
      (t : FlatNetworkSubnet) (h1 h2 : History)
      → IsTaken t h1
      → NotPending h1 h2
      → Recorded (fall_back_subnet c addr mac t ip h2)
  unfolding fall_back_subnet
  after_fall_back t h1 h2 w n = elim (given (c.subnet_status_updated h2 (fall_back addr mac t))) [
    | inr (e, p) ↦ rw p (inr (inr (inl (t, e, h1, h2, w, n, p, refl))))
    | inl (u, p) ↦ rw p (inr (inr (inr (t, u, h1, h2, w, n, p, refl))))
  ]

  second_update :
      Retries c
      → (t : FlatNetworkSubnet) (h1 : History) → IsTaken t h1
      → Recorded (record_pending c addr mac ip t h1)
  unfolding record_pending
  second_update law t h1 w =
      let (x, p) = law.last_attempt FlatNetworkIp (update_ip_pending c addr mac ip) h1 in
      elim (after_second x h1) [
        | inr (j, q, done) ↦ rw p (rw q (inr (inl (t, j, h1, w, done, refl))))
        | inl (e, q, n) ↦ rw p (rw q (after_fall_back t h1 _ w n))
      ]

  -- RetryOnConflict gives the result of its last attempt. Then the two updates of onIPCreate end in one
  -- of four ways. The first update's last attempt failed, and its error is recorded and returned with the
  -- given IP. Or the API server accepted the subnet's status with the addresses and, in an attempt behind
  -- it, the IP's pending status with them and the time, and the IP that it answered with is returned
  -- without an error. Or it accepted the former, the second update's last attempt failed, and the update
  -- that takes the addresses out of the subnet it had answered with, the next call, failed too: that
  -- update's error is recorded and returned. Or that update was accepted, and the code panics.
  pub record_addresses-Recorded :
      Retries c → (h : History) → Recorded (record_addresses c addr mac ip h)
  unfolding record_addresses
  record_addresses-Recorded law h =
      let (x, p) = law.last_attempt FlatNetworkSubnet (update_subnet_used c addr mac ip) h in
      elim (after_first (x ++ h)) [
        | inl (e, q, n) ↦ rw p (rw q (inl (e, _, n, refl)))
        | inr (t, q, w) ↦ rw p (rw q (second_update law t _ w))
      ]
