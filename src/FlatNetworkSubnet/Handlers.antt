-- ===== src/FlatNetworkSubnet/Handlers.antt =====
-- The handlers of pkg/controller/flatnetworksubnet, logging left out.
use rancher_flat_network.Prelude.{
  ℕ, suc, zero, ◌+◌, ◌/◌, ◌%◌, Bool, true, false, not, ◌&&◌, ◌||◌, List, [], ◌∷◌, ◌++◌, Option,
  none, some, if◌then◌else◌, is_empty, ltb, ℤ, pos, negsuc, eq_ℤ,
}
use rancher_flat_network.Net.{Bytes, eq_bytes}
use rancher_flat_network.Net.Parse.{parse_cidr}
use rancher_flat_network.Maps.{same_map}
use rancher_flat_network.Types.{
  subnet_namespace, IpRange, FlatNetworkIp, FlatNetworkSubnet, Labels, set_key, init, active, Error,
  invalid_cidr, invalid_namespace, Result, ok, err, codes,
}
use rancher_flat_network.Cluster.{
  Cluster, M, ◌>>=◌, pure, perform, with_lock, deferred, then_or_err, is_not_found, get_subnet,
  list_subnets, list_ips, update_subnet, enqueue_subnet, is_allocating,
}
use rancher_flat_network.Ipcalc.{add_ip_to_range}
use rancher_flat_network.Common.Subnet.{
  validate_subnet, check_subnet_flat_mode, check_subnet_conflict,
}
use rancher_flat_network.FlatNetworkIp.Handlers.{is_active, subnet_update_status, pod_delete}
use rancher_flat_network.FlatNetworkSubnet.Used.{
  is_deleting, ip_text, has_address, filter_duplicated_ip, used_of,
}

abbrev pub Handled : Type 0
Handled = FlatNetworkSubnet × Option Error

-- The decimal digits of a number, last first; each round drops one.
decimal : ℕ → ℕ → Bytes
decimal zero n = []
decimal (suc fuel) n =
    let more = decimal fuel (n / 10) ++ (n % 10 + b'0') ∷ [] in
    if ltb n 10 then (n + b'0') ∷ [] else more

-- fmt.Sprintf("%v", n)
unfoldable pub int_text : ℤ → Bytes
unfolding decimal
int_text (pos n) = decimal (suc n) n
int_text (negsuc n) = b'-' ∷ decimal (suc (suc n)) (suc n)

unfoldable pub set_labels : FlatNetworkSubnet → Labels
unfolding int_text set_key
set_labels s = set_key (codes "flatMode") s.spec.flat_mode (
    set_key (codes "mode") s.spec.mode (
      set_key (codes "vlan") (int_text s.spec.vlan)
        (set_key (codes "master") s.spec.master s.labels)))

-- reflect.DeepEqual on the labels
unfoldable pub same_labels : Labels → Labels → Bool
unfolding same_map
same_labels = same_map eq_bytes

unfoldable pub same_ranges : List IpRange → List IpRange → Bool
same_ranges [] [] = true
same_ranges [] (s ∷ ss) = false
same_ranges (r ∷ rs) [] = false
same_ranges (r ∷ rs) (s ∷ ss) = eq_bytes r.from s.from && eq_bytes r.to s.to && same_ranges rs ss

-- The selector of the subnets on the same interface and VLAN.
unfoldable pub selector : FlatNetworkSubnet → Labels
unfolding int_text
selector s = (codes "master", s.spec.master) ∷ (codes "vlan", int_text s.spec.vlan) ∷ []

module _ (c : Cluster) where
  unfoldable pub subnet_get : Bytes → Bytes → M (Result FlatNetworkSubnet)
  subnet_get ns name = perform (get_subnet ns name) (λ h. c.subnet_at h ns name)

  unfoldable pub subnet_list : Bytes → Labels → M (Result (List FlatNetworkSubnet))
  subnet_list ns sel = perform (list_subnets ns sel) (λ h. c.subnets_at h ns sel)

  unfoldable pub ip_list : Bytes → Labels → M (Result (List FlatNetworkIp))
  ip_list ns sel = perform (list_ips ns sel) (λ h. c.ips_at h ns sel)

  unfoldable pub subnet_update : FlatNetworkSubnet → M (Result FlatNetworkSubnet)
  subnet_update s = perform (update_subnet s) (λ h. c.subnet_updated h s)

  -- The labels and the CIDR as the network's own text.
  unfoldable pub relabel : FlatNetworkSubnet → Result FlatNetworkSubnet
  relabel s = elim (parse_cidr s.spec.cidr) [
    | none ↦ err invalid_cidr
    | some (_, network) ↦ ok (record s {
      labels = set_labels s;
      spec = record (s.spec) { cidr = c.network_string network };
    })
  ]

  unfoldable pub update_labels : FlatNetworkSubnet → M (Result FlatNetworkSubnet)
  update_labels subnet = do
    r ← subnet_get subnet.namespace subnet.name
    then_or_err r (λ result. then_or_err (relabel result) subnet_update)

  -- onSubnetUpdate writes once more unless nothing has changed.
  unfoldable pub update_labels_again : FlatNetworkSubnet → M (Result FlatNetworkSubnet)
  update_labels_again subnet = do
    r ← update_labels subnet
    then_or_err r (λ result.
        if same_labels result.labels subnet.labels && eq_bytes result.spec.cidr subnet.spec.cidr
        then pure (ok subnet)
        else subnet_update result)

  -- The checks that onSubnetCreate and onSubnetUpdate share.
  unfoldable pub check_against_others : FlatNetworkSubnet → M (Option Error)
  check_against_others subnet = do
    r ← subnet_list subnet.namespace (selector subnet)
    elim r [
      | err e ↦ pure (some e)
      | ok subnets ↦ elim (check_subnet_flat_mode subnet subnets) [
        | err e ↦ pure (some e)
        | ok u ↦ elim (check_subnet_conflict subnet subnets) [
          | err e ↦ pure (some e)
          | ok u' ↦
              if eq_bytes subnet.namespace subnet_namespace
              then pure none
              else pure (some invalid_namespace)
        ]
      ]
    ]

  -- The status of a subnet that is taken into use: the gateway is a used address.
  unfoldable pub activate : FlatNetworkSubnet → FlatNetworkSubnet
  activate s = record s {
    status = record (s.status) {
      phase = active;
      used_ip = add_ip_to_range s.spec.gateway s.status.used_ip;
      gateway = s.spec.gateway;
    };
  }

  unfoldable pub on_subnet_create : FlatNetworkSubnet → M Handled
  on_subnet_create subnet = elim (validate_subnet subnet) [
    | err e ↦ pure (subnet, some e)
    | ok u ↦ do
      e ← check_against_others subnet
      elim e [
        | some e' ↦ pure (subnet, some e')
        | none ↦ do
          r ← c.retry_on_conflict FlatNetworkSubnet (update_labels subnet)
          elim r [
            | err e' ↦ pure (subnet, some e')
            | ok s ↦ do
              q ← subnet_update_status c (activate s)
              elim q [ err e' ↦ pure (activate s, some e') | ok s' ↦ pure (s', none) ]
          ]
      ]
  ]

  -- The loop of cleanupDuplicatedIPs over the IPs that it is given.
  unfoldable pub cleanup_duplicated_ips : List FlatNetworkIp → M (Option Error)
  cleanup_duplicated_ips [] = pure none
  cleanup_duplicated_ips (ip ∷ ips) =
      let rest = cleanup_duplicated_ips ips in
      if not (has_address ip) then rest else (do
        e ← pod_delete c ip.namespace ip.name
        elim e [ none ↦ rest | some e' ↦ if is_not_found e' then rest else pure (some e') ])

  -- Whether the update of the used addresses is skipped.
  unfoldable pub skips_update : ℤ × List IpRange → FlatNetworkSubnet → Bool
  skips_update (count, used) s =
      (eq_ℤ s.status.used_ip_count count && same_ranges used s.status.used_ip)
      || eq_bytes (ip_text s.spec.gateway) (ip_text s.status.gateway)

  unfoldable pub update_used : ℤ × List IpRange → FlatNetworkSubnet → M (Result FlatNetworkSubnet)
  update_used (count, used) subnet = do
    r ← subnet_get subnet.namespace subnet.name
    then_or_err r (λ s.
        if skips_update (count, used) s
        then pure (ok s)
        else subnet_update_status c (record s {
          status = record (s.status) {
            used_ip_count = count;
            used_ip = used;
            gateway = s.spec.gateway;
          };
        }))

  -- onSubnetUpdate behind the lock: duplicates are cleaned up, or the used addresses corrected.
  unfoldable pub self_check : FlatNetworkSubnet → M Handled
  self_check subnet = do
    r ← ip_list [] ((codes "subnet", subnet.name) ∷ [])
    elim r [
      | err e ↦ pure (subnet, some e)
      | ok ips ↦
          if not (is_empty (filter_duplicated_ip ips))
          then (do e ← cleanup_duplicated_ips ips; pure (subnet, e))
          else (do
            q ←
                c.retry_on_conflict FlatNetworkSubnet
                  (update_used (used_of subnet.spec.gateway ips) subnet)
            elim q [ err e ↦ pure (subnet, some e) | ok s ↦ pure (s, none) ])
    ]

  unfoldable pub on_subnet_update : FlatNetworkSubnet → M Handled
  on_subnet_update subnet = do
    e ← check_against_others subnet
    elim e [
      | some e' ↦ pure (subnet, some e')
      | none ↦ deferred (enqueue_subnet subnet.namespace subnet.name) (do
        r ← c.retry_on_conflict FlatNetworkSubnet (update_labels_again subnet)
        elim r [
          | err e' ↦ pure (subnet, some e')
          | ok s ↦ do
            busy ← perform (is_allocating s.name) (λ h. c.allocating_at h s.name)
            if busy then pure (s, none) else with_lock s.name (self_check s)
        ])
    ]

  unfoldable pub handle_subnet : FlatNetworkSubnet → M Handled
  handle_subnet subnet =
      if is_empty subnet.name || is_deleting subnet.deletion_timestamp
      then pure (subnet, none)
      else if is_active subnet.status.phase
      then on_subnet_update subnet
      else on_subnet_create subnet

  -- remove.go: IPs that are left are only logged.
  unfoldable pub handle_subnet_remove : FlatNetworkSubnet → M Handled
  handle_subnet_remove subnet = if is_empty subnet.name then pure (subnet, none) else (do
    r ← ip_list [] ((codes "subnet", subnet.name) ∷ [])
    elim r [
      | err e ↦ pure (subnet, some e)
      | ok ips ↦ do
        let s : FlatNetworkSubnet = record subnet {
          status = record (subnet.status) { phase = init };
        }
        q ← subnet_update_status c s
        elim q [ err e ↦ pure (s, some e) | ok s' ↦ pure (s', none) ]
    ])
