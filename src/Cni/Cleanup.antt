-- ===== src/Cni/Cleanup.antt =====
-- Proofs about Add of pkg/cni/commands/add.go: what its deferred functions undo when a stage fails.
use rancher_flat_network.Prelude.{
  ◌≡◌, refl, Bool, true, false, List, [], ◌∷◌, Option, none, some, sym,
}
use rancher_flat_network.Net.{Bytes, Ip}
use rancher_flat_network.Types.{FlatNetworkIp, Error, Result, ok, err}
use rancher_flat_network.Cni.Kernel
use rancher_flat_network.Cni.Kernel.{
  Kernel, pod, Interface, History, M, ◌>>=◌, pure, perform, in_pod, delete_link_by_name, from_error,
}
use rancher_flat_network.Cni.Config.{NetConf}
use rancher_flat_network.Cni.Command.{CmdArgs, Codec}
use rancher_flat_network.Cni.Add.{
  Stage, setup, conf, arguments, client, address, subnet, promisc, vlan, netns, create, ipam_config,
  ipam_add, no_addresses, custom_routes, printed, Exit, or_fail, step, ipam_result, Found, conclude,
  report, add_routes, configure_and_route, finished, apply_result,
}
use rancher_flat_network.Cni.Attach.{release_ipam, run_ipam, encoded}

-- Whether `err` is set where the stage is returned.
unfoldable pub noticed : Stage → Bool
noticed no_addresses = false
noticed custom_routes = false
noticed _ = true

unfoldable pub Noticed : Exit → Type 0
unfolding noticed
Noticed ex = elim ex.returned [ none ↦ ex.err_set ≡ false | some s ↦ ex.err_set ≡ noticed s ]

or_fail-Noticed :
    (s : Stage) (addr : Ip) (r : Result (Unit {0})) (rest : M Exit) (h : History)
    → noticed s ≡ true
    → ((h : History) → Noticed (rest h).0)
    → Noticed (or_fail s addr r (λ done. rest) h).0
unfolding Noticed
or_fail-Noticed s addr (ok a) rest h e p = p h
or_fail-Noticed s addr (err x) rest h e p = sym e

step-Noticed :
    (s : Stage) (addr : Ip) (m : M (Result (Unit {0}))) (rest : M Exit)
    → noticed s ≡ true
    → ((h : History) → Noticed (rest h).0)
    → (h : History) → Noticed (step s addr m rest h).0
unfolding step
step-Noticed s addr m rest e p h = or_fail-Noticed s addr (m h).0 rest (m h).1 e p

module _ (k : Kernel) (c : Codec) (args : CmdArgs) (f : Found) (iface : Interface) where
  conclude-Noticed :
      (r : Result FlatNetworkIp) (h : History) → Noticed (conclude k c args iface r h).0
  unfolding conclude Noticed noticed
  conclude-Noticed (err e) h = refl
  conclude-Noticed (ok ip) h = print (k.printed h)
    where
      print :
          (e : Option Error)
          → Noticed
              (or_fail printed ip.status.addr
                (from_error e)
                (λ done. pure (finished ip.status.addr))
                (Kernel.print_result ∷ h)).0
      print none = refl
      print (some e) = refl

  report-Noticed : (r : Result (Unit {0})) (h : History) → Noticed (report k c args f iface r h).0
  unfolding report noticed Noticed
  report-Noticed (err e) h = refl
  report-Noticed (ok done) h = conclude-Noticed _ _

  add_routes-Noticed : (h : History) → Noticed (add_routes k c args f iface h).0
  unfolding add_routes noticed
  add_routes-Noticed = step-Noticed _ _ _ _ refl (
      step-Noticed _ _ _ _ refl (
        step-Noticed _ _ _ _ refl
          (step-Noticed _ _ _ _ refl (step-Noticed _ _ _ _ refl (λ h. report-Noticed _ _)))))

  configure_and_route-Noticed :
      (ips : List Ip) (h : History) → Noticed (configure_and_route k c args f iface ips h).0
  unfolding configure_and_route noticed Noticed
  configure_and_route-Noticed [] h = refl
  configure_and_route-Noticed (ip ∷ ips) h = step-Noticed _ _ _ _ refl add_routes-Noticed h

  addresses-Noticed :
      (r : Result (List Ip)) (h : History)
      → Noticed (or_fail ipam_result f.ip.status.addr r (configure_and_route k c args f iface) h).0
  unfolding Noticed noticed
  addresses-Noticed (err e) h = refl
  addresses-Noticed (ok ips) h = configure_and_route-Noticed ips h

  apply_result-Noticed :
      (output : Bytes) (h : History) → Noticed (apply_result k c args f iface output h).0
  unfolding apply_result
  apply_result-Noticed output h = addresses-Noticed _ h

-- Whether the stage is returned behind the start of the IPAM plugin.
unfoldable pub ran_ipam : Stage → Bool
ran_ipam setup = false
ran_ipam conf = false
ran_ipam arguments = false
ran_ipam client = false
ran_ipam address = false
ran_ipam subnet = false
ran_ipam promisc = false
ran_ipam vlan = false
ran_ipam netns = false
ran_ipam create = false
ran_ipam ipam_config = false
ran_ipam ipam_add = false
ran_ipam _ = true

none_before :
    {A : Type 0} (s t : Stage) → ran_ipam t ≡ false → some t ≡ some s → ran_ipam s ≡ true → A
none_before s t e e1 e2 = cc

unfoldable pub Released : Exit → History → Type 0
unfolding noticed ran_ipam Noticed
Released ex h =
    Noticed ex
    × ((s : Stage)
        → ex.returned ≡ some s
        → noticed s ≡ true
        → ran_ipam s ≡ true
        → (config : Bytes) × (h0 : History) × (h ≡ Kernel.ipam_del config ∷ h0))

module _ (k : Kernel) (c : Codec) (args : CmdArgs) (f : Found) (iface : Interface) where
  fields-Released :
      (config : Bytes) (r : Option Stage) (b : Bool) (a : Ip) (h : History)
      → f.subnet.spec.route_settings.add_pod_ip_to_host ≡ false
      → Noticed (record { returned = r; err_set = b; addr = a })
      → let res =
          release_ipam k c args f config (record { returned = r; err_set = b; addr = a }) h in
        Released res.0 res.1
  unfolding release_ipam Released Noticed noticed
  fields-Released config none false a h e n = (refl, λ s e1 e2 e3. cc)
  fields-Released config none true a h e n = cc
  fields-Released config (some s) false a h e n = (n, λ s' e1 e2 e3. cc)
  fields-Released config (some s) true a h e n = rw e (n, λ s' e1 e2 e3. (config, h, refl))

  add-Released :
      (config : Bytes) (r : Result Bytes) (h : History)
      → f.subnet.spec.route_settings.add_pod_ip_to_host ≡ false
      → let res =
          or_fail ipam_add f.ip.status.addr r
            (λ output. apply_result k c args f iface output >>= release_ipam k c args f config)
            h in
        Released res.0 res.1
  unfolding Released Noticed noticed ran_ipam
  add-Released config (err x) h e = (refl, λ s e1 e2 e3. none_before s ipam_add refl e1 e3)
  add-Released config (ok output) h e =
      fields-Released config _ _ _ _ e (apply_result-Noticed k c args f iface output h)

  encoded-Released :
      (r : Result Bytes) (h : History)
      → f.subnet.spec.route_settings.add_pod_ip_to_host ≡ false
      → let res = encoded k c args f iface r h in Released res.0 res.1
  unfolding encoded Released Noticed noticed ran_ipam
  encoded-Released (err x) h e = (refl, λ s e1 e2 e3. none_before s ipam_config refl e1 e3)
  encoded-Released (ok config) h e =
      add-Released config (k.ipam_added h config) (Kernel.ipam_add config ∷ h) e

  merged-Released :
      (r : Result NetConf) (h : History)
      → f.subnet.spec.route_settings.add_pod_ip_to_host ≡ false
      → let res =
          or_fail ipam_config f.ip.status.addr r (λ n. encoded k c args f iface (c.encode n)) h in
        Released res.0 res.1
  unfolding Released Noticed noticed ran_ipam
  merged-Released (err x) h e = (refl, λ s e1 e2 e3. none_before s ipam_config refl e1 e3)
  merged-Released (ok n) h e = encoded-Released _ h e

  pub run_ipam-Released :
      (h : History)
      → f.subnet.spec.route_settings.add_pod_ip_to_host ≡ false
      → let res = run_ipam k c args f iface h in Released res.0 res.1
  unfolding run_ipam
  run_ipam-Released h e = merged-Released _ h e
