-- ===== src/Cni/Macvlan.antt =====
-- ModeToString and ModeFromString of pkg/cni/macvlan/macvlan.go. The modes are those of netlink.
use rancher_flat_network.Prelude.{
  ℕ, ◌⊎◌, inl, inr, [], ◌∷◌, ◌↔◌, arith, ◌≡◌, refl, ◌||◌, if◌then◌else◌, is_empty,
}
use rancher_flat_network.Net.{Bytes, eq_bytes, compare_bytes}
use rancher_flat_network.Types.{Result, ok, err, invalid_mode, codes}
use rancher_flat_network.Slices.Order.{eq_of_eq_bytes}

pub data Mode : Type 0 where
  bridge private vepa passthru : Mode
  other : ℕ → Mode

unfoldable pub mode_to_string : Mode → Result Bytes
mode_to_string bridge = ok (codes "bridge")
mode_to_string private = ok (codes "private")
mode_to_string vepa = ok (codes "vepa")
mode_to_string passthru = ok (codes "passthru")
mode_to_string (other n) = err invalid_mode

unfoldable pub mode_from_string : Bytes → Result Mode
mode_from_string s =
    if is_empty s || eq_bytes s (codes "bridge")
    then ok bridge
    else if eq_bytes s (codes "private")
    then ok private
    else if eq_bytes s (codes "vepa")
    then ok vepa
    else if eq_bytes s (codes "passthru")
    then ok passthru
    else err invalid_mode

to_string_of_from :
    (m : Mode) (s : Bytes)
    → mode_from_string s ≡ ok m
    → (mode_to_string m ≡ ok s) ⊎ ((s ≡ []) × (m ≡ bridge))
unfolding mode_to_string mode_from_string
to_string_of_from m [] h = inr (refl, cc)
to_string_of_from m (c ∷ s) h = ground (
  arith,
  eq_of_eq_bytes (c ∷ s) (codes "bridge"),
  eq_of_eq_bytes (c ∷ s) (codes "private"),
  eq_of_eq_bytes (c ∷ s) (codes "vepa"),
  eq_of_eq_bytes (c ∷ s) (codes "passthru"),
)

from_string_of_to : (m : Mode) (s : Bytes) → mode_to_string m ≡ ok s → mode_from_string s ≡ ok m
unfolding mode_to_string mode_from_string compare_bytes
from_string_of_to bridge s h = let e : codes "bridge" ≡ s = cc in rw (← e)
from_string_of_to private s h = let e : codes "private" ≡ s = cc in rw (← e)
from_string_of_to vepa s h = let e : codes "vepa" ≡ s = cc in rw (← e)
from_string_of_to passthru s h = let e : codes "passthru" ≡ s = cc in rw (← e)
from_string_of_to (other n) s h = cc

-- A mode that has a text is read back from it, and a text that is read as a mode is that mode's text
-- or empty, which stands for the bridge mode.
pub macvlan_mode_from_string_iff :
    (m : Mode) (s : Bytes)
    → (mode_from_string s ≡ ok m) ↔ ((mode_to_string m ≡ ok s) ⊎ ((s ≡ []) × (m ≡ bridge)))
unfolding mode_from_string
macvlan_mode_from_string_iff m s =
    (to_string_of_from m s, elim [ inl e ↦ from_string_of_to m s e | inr (e, f) ↦ rw (e, f) refl ])
