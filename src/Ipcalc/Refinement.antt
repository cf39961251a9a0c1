-- ===== src/Ipcalc/Refinement.antt =====
-- A list of ranges as a set of addresses: what any sequence of AddIPToRange and RemoveIPFromRange comes
-- to, against the same sequence on a set.
use rancher_flat_network.Prelude.{
  ℕ, ◌≡◌, refl, Bool, false, not, ◌&&◌, ◌||◌, ◌==◌, List, [], ◌∷◌, All, arith, ◌∙◌, sym,
}
use rancher_flat_network.Net.{Ip}
use rancher_flat_network.Net.Value.{value}
use rancher_flat_network.Types.{IpRange}
use rancher_flat_network.Ipcalc.{add_ip_to_range, remove_ip_from_range}
use rancher_flat_network.Ipcalc.Canonical.{contains, IsCanonical, IsCanonical-ext}
use rancher_flat_network.Ipcalc.Add.{add_ip_to_range-Extends}
use rancher_flat_network.Ipcalc.Remove.{remove_ip_from_range-Deletes}
use rancher_flat_network.Ipcalc.Laws.{IsAddress}

pub data Edit : Type 0 where
  insert delete : Ip → Edit

abbrev pub edited : Edit → Ip
edited (insert ip) = ip
edited (delete ip) = ip

-- The code, one edit after the other.
unfoldable pub run : List Edit → List IpRange → List IpRange
run [] rs = rs
run (insert ip ∷ es) rs = run es (add_ip_to_range ip rs)
run (delete ip ∷ es) rs = run es (remove_ip_from_range ip rs)

-- The same edits on a set of numbers.
unfoldable pub replay : List Edit → (ℕ → Bool) → ℕ → Bool
replay [] s n = s n
replay (insert ip ∷ es) s n = replay es (λ m. m == value ip || s m) n
replay (delete ip ∷ es) s n = replay es (λ m. not (m == value ip) && s m) n

-- A set that reads the same, edited in the same way, reads the same.
replay-ext :
    (es : List Edit) (s t : ℕ → Bool) (n : ℕ)
    → ((m : ℕ) → s m ≡ t m)
    → replay es s n ≡ replay es t n
unfolding replay
replay-ext [] s t n h = h n
replay-ext (insert ip ∷ es) s t n h = replay-ext es _ _ n (λ m. let e = h m in rw e refl)
replay-ext (delete ip ∷ es) s t n h = replay-ext es _ _ n (λ m. let e = h m in rw e refl)

-- Any sequence of edits by addresses of 16 bytes other than `::`, from a canonical list, ends in a
-- canonical list, which holds an address just where the same edits on the set of its addresses do.
pub run-replay :
    (es : List Edit) (rs : List IpRange)
    → All (λ e. IsAddress (edited e)) es
    → IsCanonical 1 rs
    → IsCanonical 1 (run es rs)
      × ((n : ℕ) → contains n (run es rs) ≡ replay es (λ m. contains m rs) n)
unfolding run replay
run-replay [] rs h c = (c, λ n. refl)
run-replay (insert ip ∷ es) rs h c =
    let step = add_ip_to_range-Extends ip h.0.0 1 rs c (omega arith) h.0.1 in
    let rest = run-replay es (add_ip_to_range ip rs) h.1 step.0 in
    (rest.0, λ n. rest.1 n ∙ replay-ext es _ _ n step.1)
run-replay (delete ip ∷ es) rs h c =
    let step = remove_ip_from_range-Deletes ip h.0.0 1 rs c in
    let rest = run-replay es (remove_ip_from_range ip rs) h.1 step.0 in
    (rest.0, λ n. rest.1 n ∙ replay-ext es _ _ n step.1)

-- From the empty list, two sequences of edits by addresses of 16 bytes other than `::` end in the same
-- list of ranges, if on sets they end in sets with the same members.
pub run_unique :
    (es fs : List Edit)
    → All (λ e. IsAddress (edited e)) es
    → All (λ e. IsAddress (edited e)) fs
    → ((n : ℕ) → replay es (λ m. false) n ≡ replay fs (λ m. false) n)
    → run es [] ≡ run fs []
unfolding contains
run_unique es fs h k same =
    let left = run-replay es [] h tt in
    let right = run-replay fs [] k tt in
    IsCanonical-ext 1 (run es []) (run fs []) left.0 right.0
      (λ n. left.1 n ∙ same n ∙ sym (right.1 n))
