-- ===== src/Cni/Shown.antt =====
-- Proofs about Add of pkg/cni/commands/add.go behind the making of the interface: what it calls last when it
-- succeeds.
use rancher_flat_network.Prelude.{
  ◌≡◌, refl, ap, sym, subst, ◌∙◌, Bool, true, false, List, [], ◌∷◌, ◌++◌, Option, none, some,
}
use rancher_flat_network.Net.{Bytes, Ip}
use rancher_flat_network.Types.{FlatNetworkIp, active, Error, Result, ok, err}
use rancher_flat_network.Cni.Kernel
use rancher_flat_network.Cni.Kernel.{
  Kernel, pod, Interface, History, M, ◌>>=◌, pure, perform, from_error, then_or_err,
}
use rancher_flat_network.Cni.Config.{NetConf}
use rancher_flat_network.Cni.Command.{CmdArgs, Codec, read_ip}
use rancher_flat_network.Cni.Add.{
  Stage, ipam_add, ipam_config, ipam_result, printed, Exit, or_fail, step, finished, Found,
  update_status, activated, conclude, report, add_routes, configure_and_route, apply_result,
}
use rancher_flat_network.Cni.Attach.{release_ipam, encoded, run_ipam, remove_link, settle}

-- RetryOnConflict gives the result of its function, run once more after the calls so far and those of the
-- attempts that met a conflict.
unfoldable pub LastAttempt : Kernel → Type 1
LastAttempt k =
    (A : Type 0) (f : M (Result A)) (h : History)
    → (earlier : List Kernel.Call) × (k.retry_on_conflict A f h ≡ f (earlier ++ h))

-- The last four calls: the IP of the name is read; it is written with the interface's MAC and the phase
-- active in its status, which the API server accepts; and the result is printed, without an error.
unfoldable pub IsShown : Kernel → Bytes → Bytes → Interface → History → Type 0
IsShown k namespace name iface h =
    (ip : FlatNetworkIp) × (updated : FlatNetworkIp) × (h0 : History) × (k.ip_at h0 namespace name
      ≡ ok ip)
    × (k.ip_status_updated (Kernel.get_ip namespace name ∷ h0)
          (record ip { status = record (ip.status) { mac = iface.mac; phase = active } })
        ≡ ok updated)
    × (k.printed (
          Kernel.update_ip_status
            (record ip { status = record (ip.status) { mac = iface.mac; phase = active } })
          ∷ Kernel.get_ip namespace name
          ∷ h0)
        ≡ none)
    × (h
        ≡ Kernel.print_result
          ∷ Kernel.update_ip_status
              (record ip { status = record (ip.status) { mac = iface.mac; phase = active } })
          ∷ Kernel.get_ip namespace name
          ∷ h0)

module _ (k : Kernel) (c : Codec) (args : CmdArgs) (f : Found) (iface : Interface) where
  unfoldable Succeeded : Exit → History → Type 0
  Succeeded ex h = (ex.err_set ≡ false) × IsShown k f.namespace f.name iface h

  unfoldable Reports : M Exit → Type 0
  unfolding Succeeded
  Reports m = (h : History) → (m h).0.returned ≡ none → Succeeded (m h).0 (m h).1

  step-Reports :
      (s : Stage) (addr : Ip) (m : M (Result (Unit {0}))) (rest : M Exit)
      → Reports rest
      → Reports (step s addr m rest)
  unfolding step Reports
  step-Reports s addr m rest p h = at (m h).0
    where
      at :
          (r : Result (Unit {0}))
          → (or_fail s addr r (λ done. rest) (m h).1).0.returned ≡ none
          → let res = or_fail s addr r (λ done. rest) (m h).1 in Succeeded res.0 res.1
      at (ok a) e = p (m h).1 e
      at (err x) e = cc

  after_bind :
      {A : Type 0} (m : M A) (rest : A → M Exit)
      → ((a : A) → Reports (rest a))
      → Reports (m >>= rest)
  unfolding Reports
  after_bind m rest p h = p (m h).0 (m h).1

  update_status-IsShown :
      (h0 h1 : History) (updated : FlatNetworkIp)
      → update_status k c args f iface h0 ≡ (ok updated, h1)
      → k.printed h1 ≡ none
      → IsShown k f.namespace f.name iface (Kernel.print_result ∷ h1)
  unfolding update_status read_ip activated IsShown
  update_status-IsShown h0 h1 updated = at (k.ip_at h0 f.namespace f.name) refl
    where
      read : History
      read = Kernel.get_ip f.namespace f.name ∷ h0

      written : FlatNetworkIp → FlatNetworkIp
      written ip = record ip { status = record (ip.status) { mac = iface.mac; phase = active } }

      at :
          (r : Result FlatNetworkIp)
          → k.ip_at h0 f.namespace f.name ≡ r
          → then_or_err r
              (λ ip.
                perform
                  (Kernel.update_ip_status (written ip))
                  (λ h. k.ip_status_updated h (written ip)))
              read
            ≡ (ok updated, h1)
          → k.printed h1 ≡ none
          → IsShown k f.namespace f.name iface (Kernel.print_result ∷ h1)
      at (err x) e e1 e2 = cc
      at (ok ip) e e1 e2 =
          let here : Kernel.update_ip_status (written ip) ∷ read ≡ h1 = ap (λ p. p.1) e1 in
          (
            ip,
            updated,
            h0,
            e,
            ap (λ p. p.0) e1,
            subst (λ h. k.printed h ≡ none) (sym here) e2,
            ap (λ h. Kernel.print_result ∷ h) (sym here),
          )

  conclude-Reports :
      (ip : FlatNetworkIp) (h0 h1 : History)
      → update_status k c args f iface h0 ≡ (ok ip, h1)
      → (conclude k c args iface (ok ip) h1).0.returned ≡ none
      → let res = conclude k c args iface (ok ip) h1 in Succeeded res.0 res.1
  unfolding conclude Succeeded
  conclude-Reports ip h0 h1 e = at (k.printed h1) refl
    where
      at :
          (o : Option Error)
          → k.printed h1 ≡ o
          → (or_fail printed ip.status.addr
              (from_error o)
              (λ done. pure (finished ip.status.addr))
              (Kernel.print_result ∷ h1)).0.returned
            ≡ none
          → let res =
              or_fail printed ip.status.addr
                (from_error o)
                (λ done. pure (finished ip.status.addr))
                (Kernel.print_result ∷ h1) in
            Succeeded res.0 res.1
      at none e1 e2 = (refl, update_status-IsShown h0 h1 ip e e1)
      at (some x) e1 e2 = cc

  module _ (law : LastAttempt k) where
    report-Reports : (r : Result (Unit {0})) → Reports (report k c args f iface r)
    unfolding report conclude Reports LastAttempt
    report-Reports (err x) h e = cc
    report-Reports (ok done) h e0 = at (update h).0 (update h).1 refl e0
      where
        update : History → Result FlatNetworkIp × History
        update = k.retry_on_conflict FlatNetworkIp (update_status k c args f iface)

        at :
            (r : Result FlatNetworkIp) (h1 : History)
            → update h ≡ (r, h1)
            → (conclude k c args iface r h1).0.returned ≡ none
            → let res = conclude k c args iface r h1 in Succeeded res.0 res.1
        at (ok ip) h1 e e1 =
            let (earlier, p) = law FlatNetworkIp (update_status k c args f iface) h in
            conclude-Reports ip (earlier ++ h) h1 (sym p ∙ e) e1
        at (err x) h1 e e1 = cc

    add_routes-Reports : Reports (add_routes k c args f iface)
    unfolding add_routes
    add_routes-Reports = step-Reports _ _ _ _ (
        step-Reports _ _ _ _ (
          step-Reports _ _ _ _
            (step-Reports _ _ _ _ (step-Reports _ _ _ _ (after_bind _ _ (report-Reports))))))

    configure_and_route-Reports :
        (ips : List Ip) → Reports (configure_and_route k c args f iface ips)
    unfolding configure_and_route Reports
    configure_and_route-Reports [] h e = cc
    configure_and_route-Reports (ip ∷ ips) h e = step-Reports _ _ _ _ add_routes-Reports h e

    addresses-Reports :
        (r : Result (List Ip))
        → Reports (or_fail ipam_result f.ip.status.addr r (configure_and_route k c args f iface))
    unfolding Reports
    addresses-Reports (err x) h e = cc
    addresses-Reports (ok ips) h e = configure_and_route-Reports ips h e

    release-Reports :
        (config : Bytes) (r : Option Stage) (b : Bool) (a : Ip) (h : History)
        → (r ≡ none → Succeeded (record { returned = r; err_set = b; addr = a }) h)
        → let res =
            release_ipam k c args f config (record { returned = r; err_set = b; addr = a }) h in
          res.0.returned ≡ none → Succeeded res.0 res.1
    unfolding release_ipam Succeeded
    release-Reports config none false a h p e = p refl
    release-Reports config none true a h p e = let (q, w) = p refl in cc
    release-Reports config (some s) false a h p e = cc
    release-Reports config (some s) true a h p e = cc

    add-Reports :
        (config : Bytes) (r : Result Bytes)
        → Reports (
            or_fail ipam_add f.ip.status.addr r
              (λ output. apply_result k c args f iface output >>= release_ipam k c args f config))
    unfolding apply_result Reports
    add-Reports config (err x) h e = cc
    add-Reports config (ok output) h e =
        release-Reports config (apply_result k c args f iface output h).0.returned
          (apply_result k c args f iface output h).0.err_set
          (apply_result k c args f iface output h).0.addr (apply_result k c args f iface output h).1
          (addresses-Reports (c.addresses_of output) h) e

    encoded-Reports : (r : Result Bytes) → Reports (encoded k c args f iface r)
    unfolding encoded Reports
    encoded-Reports (err x) h e = cc
    encoded-Reports (ok config) h e =
        add-Reports config (k.ipam_added h config) (Kernel.ipam_add config ∷ h) e

    merged-Reports :
        (r : Result NetConf)
        → Reports
            (or_fail ipam_config f.ip.status.addr r (λ n. encoded k c args f iface (c.encode n)))
    unfolding Reports
    merged-Reports (err x) h e = cc
    merged-Reports (ok n) h e = encoded-Reports (c.encode n) h e

    run_ipam-Reports : Reports (run_ipam k c args f iface)
    unfolding run_ipam Reports
    run_ipam-Reports h e = merged-Reports _ h e

    remove-IsShown :
        (r : Option Stage) (b : Bool) (a : Ip) (h : History)
        → (r ≡ none → Succeeded (record { returned = r; err_set = b; addr = a }) h)
        → (remove_link k c args (record { returned = r; err_set = b; addr = a }) h).0 ≡ none
        → IsShown k f.namespace f.name iface
            (remove_link k c args (record { returned = r; err_set = b; addr = a }) h).1
    unfolding remove_link Succeeded
    remove-IsShown none false a h p e = (p refl).1
    remove-IsShown none true a h p e = let (q, w) = p refl in cc
    remove-IsShown (some s) false a h p e = cc
    remove-IsShown (some s) true a h p e = cc

    pub settle-IsShown :
        (h : History)
        → (settle k c args f iface h).0 ≡ none
        → IsShown k f.namespace f.name iface (settle k c args f iface h).1
    unfolding settle Reports
    settle-IsShown h e =
        remove-IsShown (run_ipam k c args f iface h).0.returned
          (run_ipam k c args f iface h).0.err_set (run_ipam k c args f iface h).0.addr
          (run_ipam k c args f iface h).1 (run_ipam-Reports h) e
