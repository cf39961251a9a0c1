-- ===== src/Cni/Report.antt =====
-- Proofs about Add of pkg/cni/commands/add.go: what has happened when it succeeds.
use rancher_flat_network.Prelude.{
  ◌≡◌, refl, Bool, true, false, Option, none, some, is_empty, if◌then◌else◌,
}
use rancher_flat_network.Net.{Bytes}
use rancher_flat_network.Types.{FlatNetworkIp, FlatNetworkSubnet, Result, ok, err}
use rancher_flat_network.Cni.Kernel.{Kernel, Interface, History, M, pure}
use rancher_flat_network.Cni.Config.{NetConf}
use rancher_flat_network.Cni.Command.{CmdArgs, Codec}
use rancher_flat_network.Cni.Add.{Stage, address, or_return, attempt, found}
use rancher_flat_network.Cni.Attach.{attach, add, create_iface}
use rancher_flat_network.Cni.Shown.{LastAttempt, IsShown, settle-IsShown}

-- The interface is what the making of one returns for some configuration, IP, subnet and VLAN link, behind
-- some calls.
unfoldable pub IsMade : Kernel → Codec → CmdArgs → Interface → Type 0
IsMade k c args iface =
    (n : NetConf) × (ip : FlatNetworkIp) × (sub : FlatNetworkSubnet) × (vlan : Bytes)
    × (h : History) × ((create_iface k c args n ip sub vlan h).0 ≡ ok iface)

-- The arguments name a pod, and the last calls show such an interface in that pod's IP.
unfoldable pub Reported : Kernel → Codec → CmdArgs → History → Type 0
Reported k c args h =
    (name : Bytes) × (namespace : Bytes) × (iface : Interface) × (c.load_args args.args
      ≡ ok (name, namespace))
    × IsMade k c args iface
    × IsShown k namespace name iface h

-- When it succeeds, its last calls are as the predicate says.
unfoldable Completes : (History → Type 0) → M (Option Stage) → Type 0
Completes P m = (h : History) → (m h).0 ≡ none → P (m h).1

attempt-Completes :
    {A : Type 0} (P : History → Type 0) (s : Stage) (m : M (Result A)) (rest : A → M (Option Stage))
    → ((h : History) (a : A) → (m h).0 ≡ ok a → Completes P (rest a))
    → Completes P (attempt s m rest)
unfolding attempt Completes
attempt-Completes P s m rest p h = at (m h).0 refl
  where
    at :
        (r : Result _)
        → (m h).0 ≡ r
        → (or_return s r rest (m h).1).0 ≡ none
        → P (or_return s r rest (m h).1).1
    at (ok a) e e1 = p h a e (m h).1 e1
    at (err x) e e1 = cc

module _ (k : Kernel) (c : Codec) (args : CmdArgs) (law : LastAttempt k) where
  settled-Completes :
      (m : M (Option Stage)) (name namespace : Bytes) (iface : Interface)
      → c.load_args args.args ≡ ok (name, namespace)
      → IsMade k c args iface
      → ((h : History) → (m h).0 ≡ none → IsShown k namespace name iface (m h).1)
      → Completes (Reported k c args) m
  unfolding Completes Reported
  settled-Completes m name namespace iface named made shown h e =
      (name, namespace, iface, named, made, shown h e)

  create_iface-IsMade :
      (n : NetConf) (ip : FlatNetworkIp) (sub : FlatNetworkSubnet) (vlan : Bytes)
      (iface : Interface) (h : History)
      → (create_iface k c args n ip sub vlan h).0 ≡ ok iface
      → IsMade k c args iface
  unfolding IsMade
  create_iface-IsMade n ip sub vlan iface h e = (n, ip, sub, vlan, h, e)

  attach-Completes :
      (n : NetConf) (name namespace : Bytes) (ip : FlatNetworkIp)
      → c.load_args args.args ≡ ok (name, namespace)
      → Completes (Reported k c args) (attach k c args n name namespace ip)
  unfolding attach
  attach-Completes n name namespace ip named = attempt-Completes _ _ _ _ (λ h sub e.
      attempt-Completes _ _ _ _ (λ h1 d e1. attempt-Completes _ _ _ _ (λ h2 v e2.
        attempt-Completes _ _ _ _ (λ h3 o e3. attempt-Completes _ _ _ _ (λ h4 iface e4.
          settled-Completes _ name namespace iface named
            (create_iface-IsMade n ip sub v.name iface h4 e4)
            (settle-IsShown k c args (found n ip sub v.name namespace name) iface law))))))

  allocated-Completes :
      (n : NetConf) (name namespace : Bytes) (ip : FlatNetworkIp) (b : Bool)
      → c.load_args args.args ≡ ok (name, namespace)
      → Completes
          (Reported k c args)
          (if b then pure (some address) else attach k c args n name namespace ip)
  unfolding Completes
  allocated-Completes n name namespace ip true named h e = cc
  allocated-Completes n name namespace ip false named h e =
      attach-Completes n name namespace ip named h e

  add-Completes : Completes (Reported k c args) (add k c args)
  unfolding add
  add-Completes = attempt-Completes _ _ _ _ (λ h1 d e1. attempt-Completes _ _ _ _ (λ h2 n e2.
      attempt-Completes _ _ _ _ (λ h3 names e3. attempt-Completes _ _ _ _ (λ h4 d2 e4.
        attempt-Completes _ _ _ _
          (λ h5 ip e5. allocated-Completes n names.0 names.1 ip (is_empty ip.status.addr) e3)))))

  -- RetryOnConflict gives the result of its last attempt. When Add succeeds, its last calls, in this order, read the
  -- FlatNetworkIP of the pod that the arguments name, write its status with the phase active and the MAC of an
  -- interface, one that the making of the interface returns behind some calls, which the API server accepts, and
  -- print the result, without an error.
  pub add-Reported :
      (h : History) → (add k c args h).0 ≡ none → Reported k c args (add k c args h).1
  unfolding Completes
  add-Reported = add-Completes
