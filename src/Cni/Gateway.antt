-- ===== src/Cni/Gateway.antt =====
-- Proofs about UpdatePodDefaultGateway of pkg/cni/route/route.go: the default gateway is moved route by route.
use rancher_flat_network.Prelude.{
  ℕ, ◌≡◌, refl, List, [], ◌∷◌, ◌++◌, Option, none, some, ◌⊎◌, inl, inr, ap, sym, subst,
}
use rancher_flat_network.Net.{Bytes, Ip}
use rancher_flat_network.Types.{Error, Result, ok, err}
use rancher_flat_network.Cni.Kernel
use rancher_flat_network.Cni.Kernel.{
  Kernel, pod, Family, family_all, family_v4, family_v6, family_other, Link, KernelRoute, Call,
  History,
}
use rancher_flat_network.Cni.DefaultRoute.{IsWanted, is_replaced-cases}
use rancher_flat_network.Cni.Route.{replaced, replace_routes, update_pod_default_gateway}

-- The wanted ones among the routes, in their order.
abbrev pub AreWanted : Ip → List KernelRoute → List KernelRoute → Type 0
AreWanted ip [] ws = ws ≡ []
AreWanted ip (r ∷ rs) ws =
    (IsWanted ip r × ((vs : List KernelRoute) × (ws ≡ r ∷ vs) × AreWanted ip rs vs))
    ⊎ ((¬ IsWanted ip r) × AreWanted ip rs ws)

-- The route over the link, from the address, to the gateway, and in all else as it was.
abbrev pub moved : ℕ → Ip → Ip → KernelRoute → KernelRoute
moved index ip gateway r = record r { link_index = index; src = ip; gw = gateway }

-- The replacements of the routes, in their order, behind a history.
abbrev pub moves : ℕ → Ip → Ip → List KernelRoute → History → History
moves index ip gateway [] h = h
moves index ip gateway (r ∷ rs) h =
    moves index ip gateway rs (Kernel.route_replace pod (moved index ip gateway r) ∷ h)

module _ (k : Kernel) where
  -- The kernel accepts each of these replacements behind those before it.
  abbrev pub AllAccepted : ℕ → Ip → Ip → List KernelRoute → History → Type 0
  AllAccepted index ip gateway [] h = Unit
  AllAccepted index ip gateway (r ∷ rs) h =
      (k.route_replaced h pod (moved index ip gateway r) ≡ none)
      × AllAccepted index ip gateway rs (Kernel.route_replace pod (moved index ip gateway r) ∷ h)

  -- All wanted routes are replaced, in their order; or those before some wanted one are, and the kernel
  -- refuses that one.
  abbrev pub Replaces :
      ℕ → Ip → Ip → List KernelRoute → History → Result (Unit {0}) × History → Type 0
  Replaces index ip gateway rs h out =
      ((ws : List KernelRoute) × AreWanted ip rs ws
        × AllAccepted index ip gateway ws h
        × (out ≡ (ok tt, moves index ip gateway ws h)))
      ⊎ ((before : List KernelRoute) × (r : KernelRoute) × (after : List KernelRoute) × (ws : List
            KernelRoute)
          × (e : Error) × (rs ≡ before ++ r ∷ after)
          × AreWanted ip before ws
          × IsWanted ip r
          × AllAccepted index ip gateway ws h
          × (k.route_replaced (moves index ip gateway ws h) pod (moved index ip gateway r) ≡ some e)
          × (out ≡ (
            err e,
            Kernel.route_replace pod (moved index ip gateway r) ∷ moves index ip gateway ws h,
          )))

  -- Entering the pod fails, or the link is not found, or the routes are not listed, and nothing is
  -- called behind that; or the routes that are listed are gone through.
  abbrev pub Moved : Bytes → Ip → Ip → History → Result (Unit {0}) × History → Type 0
  Moved name ip gateway h out =
      let h1 = Kernel.enter ∷ h in
      let h2 = Kernel.link_by_name pod name ∷ h1 in
      let h3 = Kernel.route_list pod ∷ h2 in
      ((e : Error) × (k.entered h ≡ some e) × (out ≡ (err e, h1)))
      ⊎ ((e : Error) × (k.entered h ≡ none)
          × (k.link_named h1 pod name ≡ err e)
          × (out ≡ (err e, h2)))
      ⊎ ((e : Error) × (l : Link) × (k.entered h ≡ none)
          × (k.link_named h1 pod name ≡ ok l)
          × (k.routes h2 pod ≡ err e)
          × (out ≡ (err e, h3)))
      ⊎ ((l : Link) × (rs : List KernelRoute) × (k.entered h ≡ none)
          × (k.link_named h1 pod name ≡ ok l)
          × (k.routes h2 pod ≡ ok rs)
          × Replaces l.index ip gateway rs h3 out)

  Replaces-skip :
      (index : ℕ) (ip gateway : Ip) (r : KernelRoute) (rs : List KernelRoute) (h : History)
      (out : Result (Unit {0}) × History)
      → ¬ IsWanted ip r
      → Replaces index ip gateway rs h out
      → Replaces index ip gateway (r ∷ rs) h out
  Replaces-skip index ip gateway r rs h out n (inl (ws, w, a, e)) = inl (ws, inr (n, w), a, e)
  Replaces-skip index ip gateway r rs h out n (inr (before, x, after, ws, e, p, w, v, a, q, o)) =
      inr (r ∷ before, x, after, ws, e, ap (λ l. r ∷ l) p, inr (n, w), v, a, q, o)

  Replaces-step :
      (index : ℕ) (ip gateway : Ip) (r : KernelRoute) (rs : List KernelRoute) (h : History)
      (out : Result (Unit {0}) × History)
      → IsWanted ip r
      → k.route_replaced h pod (moved index ip gateway r) ≡ none
      → Replaces index ip gateway rs (Kernel.route_replace pod (moved index ip gateway r) ∷ h) out
      → Replaces index ip gateway (r ∷ rs) h out
  Replaces-step index ip gateway r rs h out y q (inl (ws, w, a, e)) =
      inl (r ∷ ws, inl (y, (ws, refl, w)), (q, a), e)
  Replaces-step index ip gateway r rs h out y q (inr (before, x, after, ws, e, p, w, v, a, f, o)) =
      inr (
        r ∷ before,
        x,
        after,
        r ∷ ws,
        e,
        ap (λ l. r ∷ l) p,
        inl (y, (ws, refl, w)),
        v,
        (q, a),
        f,
        o,
      )

  answered : (o : Option Error) → (o ≡ none) ⊎ ((e : Error) × (o ≡ some e))
  answered none = inl refl
  answered (some e) = inr (e, refl)

  replace_routes-Replaces :
      (index : ℕ) (ip gateway : Ip) (rs : List KernelRoute) (h : History)
      → Replaces index ip gateway rs h (replace_routes k index ip gateway rs h)
  unfolding replace_routes replaced
  replace_routes-Replaces index ip gateway [] h = inl ([], refl, tt, refl)
  replace_routes-Replaces index ip gateway (r ∷ rs) h =
      let h1 = Kernel.route_replace pod (moved index ip gateway r) ∷ h in
      elim (is_replaced-cases ip r) [
        | inr (skipped, n) ↦
            let is : replace_routes k index ip gateway (r ∷ rs) h
                ≡ replace_routes k index ip gateway rs h =
              rw skipped refl in
            subst (λ o. Replaces index ip gateway (r ∷ rs) h o) (sym is)
              (Replaces-skip index ip gateway r rs h _ n
                (replace_routes-Replaces index ip gateway rs h))
        | inl (wanted, y) ↦ elim (answered (k.route_replaced h pod (moved index ip gateway r))) [
          | inl q ↦
              let is : replace_routes k index ip gateway (r ∷ rs) h
                  ≡ replace_routes k index ip gateway rs h1 =
                rw wanted (rw q refl) in
              subst (λ o. Replaces index ip gateway (r ∷ rs) h o) (sym is)
                (Replaces-step index ip gateway r rs h _ y q
                  (replace_routes-Replaces index ip gateway rs h1))
          | inr (e, q) ↦ inr ([], r, rs, [], e, refl, refl, y, tt, q, rw wanted (rw q refl))
        ]
      ]

  given : {A : Type 0} (r : Result A) → ((a : A) × (r ≡ ok a)) ⊎ ((e : Error) × (r ≡ err e))
  given (ok a) = inl (a, refl)
  given (err e) = inr (e, refl)

  -- UpdatePodDefaultGateway enters the pod, finds the link and lists the routes; the first of these that fails
  -- ends it with its error. Otherwise it goes through the routes that are listed: those without a
  -- destination or with one at 0.0.0.0 or `::`, and of the address's family, are replaced, in their order, each by
  -- the same route over the link, from the address, to the gateway. All of these are accepted and it
  -- succeeds; or the kernel refuses one, behind all of them that are before it, and that ends it with the error. It
  -- makes no other calls.
  pub update_pod_default_gateway-Moved :
      (name : Bytes) (ip gateway : Ip) (h : History)
      → Moved name ip gateway h (update_pod_default_gateway k name ip gateway h)
  unfolding update_pod_default_gateway Kernel.in_pod Kernel.find_link Kernel.list_routes
  update_pod_default_gateway-Moved name ip gateway h = elim (answered (k.entered h)) [
    | inr (e, p) ↦ inl (e, p, rw p refl)
    | inl p ↦ elim (given (k.link_named (Kernel.enter ∷ h) pod name)) [
      | inr (e, q) ↦ inr (inl (e, p, q, rw p (rw q refl)))
      | inl (l, q) ↦
          let h2 = Kernel.link_by_name pod name ∷ Kernel.enter ∷ h in
          elim (given (k.routes h2 pod)) [
            | inr (e, s) ↦ inr (inr (inl (e, l, p, q, s, rw p (rw q (rw s refl)))))
            | inl (rs, s) ↦
                let h3 = Kernel.route_list pod ∷ h2 in
                let is : update_pod_default_gateway k name ip gateway h
                    ≡ replace_routes k l.index ip gateway rs h3 =
                  rw p (rw q (rw s refl)) in
                inr (
                  inr (
                    inr (
                      l,
                      rs,
                      p,
                      q,
                      s,
                      subst (λ o. Replaces l.index ip gateway rs h3 o) (sym is)
                          (replace_routes-Replaces l.index ip gateway rs h3),
                    )))
          ]
    ]
  ]
