-- ===== src/Cni/Unwind.antt =====
-- Proofs about Add of pkg/cni/commands/add.go as a whole: its last calls.
use rancher_flat_network.Prelude.{
  ◌≡◌, refl, Bool, true, false, ◌∷◌, Option, none, some, is_empty, if◌then◌else◌,
}
use rancher_flat_network.Net.{Bytes, Ip}
use rancher_flat_network.Types.{FlatNetworkIp, FlatNetworkSubnet, Result, ok, err}
use rancher_flat_network.Cni.Kernel
use rancher_flat_network.Cni.Kernel.{
  Kernel, pod, Interface, History, M, ◌>>=◌, pure, perform, from_error,
}
use rancher_flat_network.Cni.Config.{NetConf}
use rancher_flat_network.Cni.Command.{CmdArgs, Codec}
use rancher_flat_network.Cni.Add.{
  Stage, setup, conf, arguments, client, address, subnet, promisc, vlan, netns, create, or_return,
  attempt, Found, found,
}
use rancher_flat_network.Cni.Attach.{remove_link, settle, attach, add}
use rancher_flat_network.Cni.Cleanup.{noticed, ran_ipam, Noticed, Released, run_ipam-Released}

-- Whether the stage is returned when the interface stands.
unfoldable pub made_iface : Stage → Bool
made_iface setup = false
made_iface conf = false
made_iface arguments = false
made_iface client = false
made_iface address = false
made_iface subnet = false
made_iface promisc = false
made_iface vlan = false
made_iface netns = false
made_iface create = false
made_iface _ = true

-- The last calls delete the link in the pod and, where the IPAM plugin ran, release its address before that.
unfoldable pub Unwound : CmdArgs → Stage → History → Type 0
unfolding ran_ipam
Unwound args s h =
    (h0 : History) × (h ≡ Kernel.link_del_by_name pod args.if_name ∷ Kernel.enter ∷ h0)
    × (ran_ipam s ≡ true → (config : Bytes) × (h1 : History) × (h0 ≡ Kernel.ipam_del config ∷ h1))

unfoldable Unwinds : CmdArgs → M (Option Stage) → Type 0
unfolding Unwound noticed made_iface
Unwinds args m =
    (h : History) (s : Stage)
    → (m h).0 ≡ some s
    → noticed s ≡ true
    → made_iface s ≡ true
    → Unwound args s (m h).1

module _ (k : Kernel) (c : Codec) (args : CmdArgs)
    (entered : (h : History) → k.entered h ≡ none) where
  fields-Unwound :
      (r : Option Stage) (b : Bool) (a : Ip) (h : History)
      → Released (record { returned = r; err_set = b; addr = a }) h
      → let res = remove_link k c args (record { returned = r; err_set = b; addr = a }) h in
        (s : Stage) → res.0 ≡ some s → noticed s ≡ true → Unwound args s res.1
  unfolding remove_link Released Noticed Unwound Kernel.in_pod Kernel.delete_link_by_name
  fields-Unwound none b a h p s e e1 = cc
  fields-Unwound (some t) false a h (n, p) s e e1 = cc
  fields-Unwound (some t) true a h (n, p) s e e1 = rw (entered h) (h, refl, λ e3. p s e e1 e3)

  settle-Unwinds :
      (f : Found) (iface : Interface)
      → f.subnet.spec.route_settings.add_pod_ip_to_host ≡ false
      → Unwinds args (settle k c args f iface)
  unfolding settle Unwinds
  settle-Unwinds f iface e h s e1 e2 e3 =
      fields-Unwound _ _ _ _ (run_ipam-Released k c args f iface h e) s e1 e2

  or_return-Unwinds :
      {A : Type 0} (s : Stage) (r : Result A) (rest : A → M (Option Stage))
      → made_iface s ≡ false
      → ((a : A) → r ≡ ok a → Unwinds args (rest a))
      → Unwinds args (or_return s r rest)
  unfolding Unwinds
  or_return-Unwinds s (ok a) rest e p h t e1 e2 e3 = p a refl h t e1 e2 e3
  or_return-Unwinds s (err x) rest e p h t e1 e2 e3 = cc

  attempt-Unwinds :
      {A : Type 0} (s : Stage) (m : M (Result A)) (rest : A → M (Option Stage))
      → made_iface s ≡ false
      → ((h : History) (a : A) → (m h).0 ≡ ok a → Unwinds args (rest a))
      → Unwinds args (attempt s m rest)
  unfolding attempt Unwinds
  attempt-Unwinds s m rest e p h = or_return-Unwinds s (m h).0 rest e (p h) (m h).1

  attach-Unwinds :
      (n : NetConf) (name namespace : Bytes) (ip : FlatNetworkIp)
      → ((h : History) (name : Bytes) (sub : FlatNetworkSubnet)
          → k.subnet_at h name ≡ ok sub
          → sub.spec.route_settings.add_pod_ip_to_host ≡ false)
      → Unwinds args (attach k c args n name namespace ip)
  unfolding attach made_iface
  attach-Unwinds n name namespace ip q = attempt-Unwinds _ _ _ refl (λ h sub e.
      attempt-Unwinds _ _ _ refl (λ h1 d e1. attempt-Unwinds _ _ _ refl (λ h2 v e2.
        attempt-Unwinds _ _ _ refl (λ h3 o e3. attempt-Unwinds _ _ _ refl (λ h4 iface e4.
          settle-Unwinds (found n ip sub v.name namespace name) iface
            (q h ip.spec.subnet sub e))))))

  allocated-Unwinds :
      (n : NetConf) (name namespace : Bytes) (ip : FlatNetworkIp) (b : Bool)
      → ((h : History) (name : Bytes) (sub : FlatNetworkSubnet)
          → k.subnet_at h name ≡ ok sub
          → sub.spec.route_settings.add_pod_ip_to_host ≡ false)
      → Unwinds args (if b then pure (some address) else attach k c args n name namespace ip)
  unfolding made_iface Unwinds
  allocated-Unwinds n name namespace ip true q h s e1 e2 e3 = cc
  allocated-Unwinds n name namespace ip false q h s e1 e2 e3 =
      attach-Unwinds n name namespace ip q h s e1 e2 e3

  add-Unwinds :
      ((h : History) (name : Bytes) (sub : FlatNetworkSubnet)
        → k.subnet_at h name ≡ ok sub
        → sub.spec.route_settings.add_pod_ip_to_host ≡ false)
      → Unwinds args (add k c args)
  unfolding add made_iface
  add-Unwinds q = attempt-Unwinds _ _ _ refl (λ h1 d e. attempt-Unwinds _ _ _ refl (λ h2 n e1.
      attempt-Unwinds _ _ _ refl (λ h3 names e2. attempt-Unwinds _ _ _ refl (λ h4 d3 e3.
        attempt-Unwinds _ _ _ refl
          (λ h ip e4. allocated-Unwinds n names.0 names.1 ip (is_empty ip.status.addr) q)))))

  -- Where entering the pod does not fail and no subnet asks for routes from the host to pods: when Add returns an
  -- error behind the making of the interface that its variable `err` holds, its last calls are the deletion of
  -- the interface and, where the IPAM plugin ran, the release of the address right before.
  pub add-Unwound :
      ((h : History) (name : Bytes) (sub : FlatNetworkSubnet)
        → k.subnet_at h name ≡ ok sub
        → sub.spec.route_settings.add_pod_ip_to_host ≡ false)
      → (h : History) (s : Stage) → (add k c args h).0 ≡ some s
      → noticed s ≡ true
      → made_iface s ≡ true
      → Unwound args s (add k c args h).1
  unfolding Unwinds
  add-Unwound = add-Unwinds
