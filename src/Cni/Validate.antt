-- ===== src/Cni/Validate.antt =====
-- Proofs about validateCniContainerInterface and Check of pkg/cni/commands/check.go.
use rancher_flat_network.Prelude.{
  ◌≡◌, refl, Bool, true, false, [], ◌∷◌, Option, none, some, is_empty, if◌then◌else◌, arith, not,
  ◌⊎◌, inl, inr,
}
use rancher_flat_network.Net.{Bytes, eq_bytes, compare_bytes}
use rancher_flat_network.Types.{FlatNetworkSubnet, Error, other, Result, ok, err}
use rancher_flat_network.Common.Subnet.{flat_mode_macvlan, flat_mode_ipvlan}
use rancher_flat_network.Cni.Macvlan
use rancher_flat_network.Cni.Ipvlan
use rancher_flat_network.Cni.Kernel
use rancher_flat_network.Cni.Kernel.{
  Kernel, pod, Interface, Link, LinkKind, History, M, ◌>>=◌, pure, perform, from_error, then_or_err,
  and_then, in_pod,
}
use rancher_flat_network.Cni.Config.{NetConf}
use rancher_flat_network.Cni.Command.{CmdArgs, Codec, PrevResult}
use rancher_flat_network.Cni.Check.{
  or_bridge, compare_actual, actual_macvlan, actual_ipvlan, actual, compare_link,
  validate_cni_container_interface, validate, container_interface, no_interface, check_result,
  check_prev_result, check,
}

-- The flag that is expected is never empty.
or_bridge-nonempty : (s : Bytes) → eq_bytes (or_bridge s) [] ≡ false
unfolding or_bridge compare_bytes
or_bridge-nonempty [] = refl
or_bridge-nonempty (c ∷ s) = refl

compare_actual-no_flag :
    (intf : Interface) (mode flag actual_mode : Bytes) (link : Link)
    → ¬ (compare_actual intf mode flag link (ok (actual_mode, [])) ≡ ok tt)
unfolding compare_actual
compare_actual-no_flag intf mode flag actual_mode link e =
    ground (arith, e, or_bridge-nonempty flag)

macvlan_differs :
    (intf : Interface) (mode flag : Bytes) (link : Link) (kind : LinkKind)
    → ¬ (compare_actual intf mode flag link (actual_macvlan kind) ≡ ok tt)
unfolding actual_macvlan compare_actual
macvlan_differs intf mode flag link (Kernel.macvlan Macvlan.bridge) =
    compare_actual-no_flag intf mode flag _ link
macvlan_differs intf mode flag link (Kernel.macvlan Macvlan.private) =
    compare_actual-no_flag intf mode flag _ link
macvlan_differs intf mode flag link (Kernel.macvlan Macvlan.vepa) =
    compare_actual-no_flag intf mode flag _ link
macvlan_differs intf mode flag link (Kernel.macvlan Macvlan.passthru) =
    compare_actual-no_flag intf mode flag _ link
macvlan_differs intf mode flag link (Kernel.macvlan (Macvlan.other n)) = λ e. cc
macvlan_differs intf mode flag link (Kernel.ipvlan m f) = λ e. cc
macvlan_differs intf mode flag link (Kernel.vlan n) = λ e. cc
macvlan_differs intf mode flag link Kernel.other_kind = λ e. cc

ipvlan_differs :
    (intf : Interface) (flag : Bytes) (link : Link) (kind : LinkKind)
    → ¬ (compare_actual intf [] flag link (actual_ipvlan kind) ≡ ok tt)
unfolding actual_ipvlan compare_actual compare_bytes
ipvlan_differs intf flag link (Kernel.ipvlan Ipvlan.l2 f) e = ground (arith, e)
ipvlan_differs intf flag link (Kernel.ipvlan Ipvlan.l3 f) e = ground (arith, e)
ipvlan_differs intf flag link (Kernel.ipvlan Ipvlan.l3s f) e = ground (arith, e)
ipvlan_differs intf flag link (Kernel.ipvlan (Ipvlan.other n) f) e = cc
ipvlan_differs intf flag link (Kernel.macvlan m) e = cc
ipvlan_differs intf flag link (Kernel.vlan n) e = cc
ipvlan_differs intf flag link Kernel.other_kind e = cc

-- A subnet of which no link is accepted: any macvlan subnet, and an ipvlan subnet without a mode.
unfoldable pub IsRefused : FlatNetworkSubnet → Type 0
IsRefused subnet =
    (subnet.spec.flat_mode ≡ flat_mode_macvlan)
    ⊎ ((subnet.spec.flat_mode ≡ flat_mode_ipvlan) × (subnet.spec.mode ≡ []))

behind_sandbox :
    (b : Bool) (r : Result (Unit {0})) → ¬ (r ≡ ok tt) → ¬ ((if b then err other else r) ≡ ok tt)
behind_sandbox true r p e = cc
behind_sandbox false r p e = p e

compare_link-IsRefused :
    (intf : Interface) (sub : FlatNetworkSubnet) (link : Link)
    → IsRefused sub
    → ¬ (compare_link intf sub.spec.flat_mode sub.spec.mode sub.spec.ipvlan_flag link ≡ ok tt)
unfolding compare_link IsRefused actual compare_bytes
compare_link-IsRefused intf sub link (inl m) = rw m (
    behind_sandbox (is_empty intf.sandbox) _
      (macvlan_differs intf sub.spec.mode sub.spec.ipvlan_flag link link.kind))
compare_link-IsRefused intf sub link (inr (m, n)) =
    rw (m, n)
      (behind_sandbox (is_empty intf.sandbox) _
        (ipvlan_differs intf sub.spec.ipvlan_flag link link.kind))

unfoldable Fails : M (Result (Unit {0})) → Type 0
Fails m = (h : History) → ¬ ((m h).0 ≡ ok tt)

and_then-Fails :
    {A : Type 0} (m : M (Result A)) (f : A → M (Result (Unit {0})))
    → ((h : History) (a : A) → (m h).0 ≡ ok a → Fails (f a))
    → Fails (and_then m f)
unfolding and_then Fails
and_then-Fails m f p h = rest (m h).0 refl
  where
    rest : (r : Result _) → (m h).0 ≡ r → ¬ ((then_or_err r f (m h).1).0 ≡ ok tt)
    rest (ok a) e = p h a e (m h).1
    rest (err x) e = λ e1. cc

and_then-Fails_left :
    (m : M (Result (Unit {0}))) (f : Unit {0} → M (Result (Unit {0})))
    → Fails m
    → Fails (and_then m f)
unfolding Fails
and_then-Fails_left m f p = and_then-Fails m f (λ h a e. absurd (p h e))

if-Fails :
    (b : Bool) (m : M (Result (Unit {0}))) → Fails m → Fails (if b then pure (err other) else m)
unfolding Fails
if-Fails true m p h e = cc
if-Fails false m p h e = p h e

module _ (k : Kernel) (c : Codec) (args : CmdArgs) where
  in_pod-Fails : (m : M (Result (Unit {0}))) → Fails m → Fails (in_pod k m)
  unfolding in_pod Fails
  in_pod-Fails m p h = entering (k.entered h)
    where
      entering :
          (e : Option Error)
          → ¬ (
              ((elim e as (λ x. M (Result (Unit {0}))) [ some e' ↦ pure (err e') | none ↦ m ])
                (Kernel.enter ∷ h)).0
              ≡ ok tt)
      entering none e = p (Kernel.enter ∷ h) e
      entering (some x) e = cc

  compared-Fails :
      (intf : Interface) (sub : FlatNetworkSubnet) (link : Link)
      → IsRefused sub
      → Fails (pure (compare_link intf sub.spec.flat_mode sub.spec.mode sub.spec.ipvlan_flag link))
  unfolding Fails
  compared-Fails intf sub link p h = compare_link-IsRefused intf sub link p

  validate-Fails :
      (sub : FlatNetworkSubnet) (result : PrevResult) (intf : Interface)
      → IsRefused sub
      → Fails (validate k c args sub result intf)
  unfolding validate validate_cni_container_interface
  validate-Fails sub result intf p = and_then-Fails_left _ _ (
      if-Fails (is_empty intf.name) _
        (and_then-Fails _ _ (λ h link e. compared-Fails intf sub link p)))

  check_result-Fails :
      (sub : FlatNetworkSubnet) (result : PrevResult)
      → IsRefused sub
      → Fails (check_result k c args sub result)
  unfolding check_result
  check_result-Fails sub result p =
      if-Fails
        (not
          (eq_bytes args.netns (container_interface args no_interface result.interfaces).sandbox))
        _ (and_then-Fails _ _ (λ h master e. in_pod-Fails _ (validate-Fails sub result _ p)))

  prev_result-Fails :
      (n : NetConf) (sub : FlatNetworkSubnet) (raw : Option Bytes)
      → IsRefused sub
      → Fails (elim raw as (λ x. M (Result (Unit {0}))) [
        | none ↦ pure (err other)
        | some text ↦
            and_then
              (pure (c.parse_prev_result n text))
              (λ result. check_result k c args sub result)
      ])
  unfolding Fails
  prev_result-Fails n sub none p h e = cc
  prev_result-Fails n sub (some raw) p h e =
      and_then-Fails _ _ (λ h result e. check_result-Fails sub result p) h e

  check-Fails :
      ((h : History) (name : Bytes) (sub : FlatNetworkSubnet)
        → k.subnet_at h name ≡ ok sub
        → IsRefused sub)
      → Fails (check k c args)
  unfolding check check_prev_result
  check-Fails p = and_then-Fails _ _ (λ h1 d1 e1. and_then-Fails _ _ (λ h2 n e2.
      and_then-Fails _ _ (λ h3 names e3. and_then-Fails _ _ (λ h4 d4 e4.
        and_then-Fails _ _ (λ h5 d5 e5. and_then-Fails _ _ (λ h6 ip e6.
          and_then-Fails _ _ (λ h7 sub e7. and_then-Fails _ _ (λ h8 d8 e8.
            prev_result-Fails n sub n.raw_prev_result (p h7 ip.spec.subnet sub e7)))))))))

  -- Check never succeeds where every subnet that the API server gives is a macvlan subnet or an ipvlan subnet
  -- without a mode.
  pub check-IsRefused :
      ((h : History) (name : Bytes) (sub : FlatNetworkSubnet)
        → k.subnet_at h name ≡ ok sub
        → IsRefused sub)
      → (h : History) → ¬ ((check k c args h).0 ≡ ok tt)
  unfolding Fails
  check-IsRefused p = check-Fails p
