-- ===== src/Ipcalc/Laws.antt =====
-- What AddIPToRange and RemoveIPFromRange undo, and that the order of insertions is forgotten: all
-- from the sets that the lists stand for.
use rancher_flat_network.Prelude.{◌≤◌, ◌≡◌, true, false, List, arith}
use rancher_flat_network.Net.{Ip}
use rancher_flat_network.Net.Value.{value, IsIp16}
use rancher_flat_network.Types.{IpRange}
use rancher_flat_network.Ipcalc.{add_ip_to_range, remove_ip_from_range}
use rancher_flat_network.Ipcalc.Canonical.{contains, IsCanonical, IsCanonical-ext}
use rancher_flat_network.Ipcalc.Add.{add_ip_to_range-Extends}
use rancher_flat_network.Ipcalc.Remove.{remove_ip_from_range-Deletes}

-- An address that the code can subtract one from: 16 bytes, and not `::`.
abbrev pub IsAddress : Ip → Type 0
IsAddress ip = IsIp16 ip × (1 ≤ value ip)

module _ (ip : Ip) (h : IsAddress ip) (rs : List IpRange) (c : IsCanonical 1 rs) where
  -- An address of 16 bytes other than `::` is not in a canonical list. To add it and to remove it again
  -- gives the very list.
  pub remove-add :
      contains (value ip) rs ≡ false → remove_ip_from_range ip (add_ip_to_range ip rs) ≡ rs
  remove-add free =
      let added = add_ip_to_range-Extends ip h.0 1 rs c (omega arith) h.1 in
      let removed = remove_ip_from_range-Deletes ip h.0 1 (add_ip_to_range ip rs) added.0 in
      IsCanonical-ext 1 _ rs removed.0 c (λ n. ground (arith, removed.1 n, added.1 n))

  -- An address of 16 bytes other than `::` is in a canonical list. To remove it and to add it again
  -- gives the very list.
  pub add-remove :
      contains (value ip) rs ≡ true → add_ip_to_range ip (remove_ip_from_range ip rs) ≡ rs
  add-remove present =
      let removed = remove_ip_from_range-Deletes ip h.0 1 rs c in
      let added =
        add_ip_to_range-Extends ip h.0 1 (remove_ip_from_range ip rs) removed.0 (omega arith) h.1 in
      IsCanonical-ext 1 _ rs added.0 c (λ n. ground (arith, added.1 n, removed.1 n))

-- Two addresses of 16 bytes other than `::` may be added to a canonical list in either order: the
-- lists are the same.
pub add_comm :
    (a b : Ip) (ha : IsAddress a) (hb : IsAddress b) (rs : List IpRange)
    → IsCanonical 1 rs
    → add_ip_to_range a (add_ip_to_range b rs) ≡ add_ip_to_range b (add_ip_to_range a rs)
add_comm a b ha hb rs c =
    let fb = add_ip_to_range-Extends b hb.0 1 rs c (omega arith) hb.1 in
    let fa = add_ip_to_range-Extends a ha.0 1 rs c (omega arith) ha.1 in
    let ab = add_ip_to_range-Extends a ha.0 1 (add_ip_to_range b rs) fb.0 (omega arith) ha.1 in
    let ba = add_ip_to_range-Extends b hb.0 1 (add_ip_to_range a rs) fa.0 (omega arith) hb.1 in
    IsCanonical-ext 1 _ _ ab.0 ba.0 (λ n. ground (arith, ab.1 n, ba.1 n, fa.1 n, fb.1 n))
